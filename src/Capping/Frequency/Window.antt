-- ===== src/Capping/Frequency/Window.antt =====
-- Lemmas on capping/frequency.go: the counter of a user and an ad under runs of the script.
use openadsource.Common.{
  zero, ◌⊎◌, inl, inr, refl, true, Text, ℕ, ◌≡◌, some, ◌<◌, suc, ◌≤◌, arith, ◌⊎◌, ◌∙◌, dec_lt, inl,
  inr, false,
}
use openadsource.Redis.{Redis, Transport, answered, max_counter, reply_of}
use openadsource.Capping.Frequency.{
  freq_script, try_consume, undo, after_eval_sha, pos, frequency_key, start_window, consumed,
  negsuc, exceeded,
}
use openadsource.Common.Int.{ℤ, ◌<ℤ◌, ◌≤ℤ◌, leb_ℤ}

module _ (redis : Redis) where
  open redis use {Db, count, incr, decr, expire}

  start_window-count :
      (key : Text) (window : ℤ) (n : ℕ) (db : Db)
      → pos 0 <ℤ window
      → count (start_window redis key window (pos (suc n)) db) key ≡ count db key
  start_window-count key window zero db w = redis.count-expire key key window db w
  start_window-count key window (suc n) db w = ground arith

  over_zero : (cap : ℕ) → 0 < cap → leb_ℤ (pos cap) (pos 0) ≡ false
  over_zero cap c = ground arith

  try_consume-script :
      (second : Transport) (user ad : Text) (cap : ℕ) (window : ℤ) (db : Db)
      → 0 < cap
      → try_consume redis true answered second user ad (pos cap) window db ≡ (
          let key = frequency_key user ad in
          let (r, db') = freq_script redis key (pos cap) window db in
          after_eval_sha redis second key (pos cap) window (reply_of redis r) db')
  unfolding try_consume
  try_consume-script second user ad cap window db c = rw (over_zero cap c) refl

  freq_script-room :
      (key : Text) (cap n : ℕ) (window : ℤ) (db : Db)
      → count db key ≡ some n
      → n < max_counter
      → n < cap
      → freq_script redis key (pos cap) window db
        ≡ (some (pos (suc n)), start_window redis key window (pos (suc n)) (incr key db).1)
  unfolding freq_script
  freq_script-room key cap n window db e m lt =
      rw (redis.incr-reply key db n e m, freq_script) ground arith

  freq_script-full :
      (key : Text) (cap n : ℕ) (window : ℤ) (db : Db)
      → count db key ≡ some n
      → n < max_counter
      → pos 0 <ℤ window
      → 0 < cap
      → cap ≤ n
      → freq_script redis key (pos cap) window db ≡ (
        some (negsuc 0),
        (decr key (start_window redis key window (pos (suc n)) (incr key db).1)).1,
      )
  unfolding freq_script undo
  freq_script-full key cap n window db e m w c ge =
      let up = start_window-count key window n (incr key db).1 w ∙ redis.count-incr key db n e m in
      let db' = start_window redis key window (pos (suc n)) (incr key db).1 in
      let down = redis.decr-reply key db' n up in
      rw (redis.incr-reply key db n e m, freq_script) ground (arith, down)

  -- With a positive window a call that is answered lets a view through exactly when the counter is
  -- below a positive cap, and then the counter is one higher; otherwise the counter is unchanged.
  pub try_consume-answered :
      (second : Transport) (user ad : Text) (cap n : ℕ) (window : ℤ) (db : Db)
      → count db (frequency_key user ad) ≡ some n
      → n < max_counter
      → 0 < cap
      → pos 0 <ℤ window
      → ((n < cap)
          × ((try_consume redis true answered second user ad (pos cap) window db).0 ≡ consumed)
          × (count
                (try_consume redis true answered second user ad (pos cap) window db).1
                (frequency_key user ad)
              ≡ some (suc n)))
        ⊎ ((cap ≤ n)
            × ((try_consume redis true answered second user ad (pos cap) window db).0 ≡ exceeded)
            × (count
                  (try_consume redis true answered second user ad (pos cap) window db).1
                  (frequency_key user ad)
                ≡ some n))
  unfolding after_eval_sha
  try_consume-answered second user ad cap n window db e m c w =
      let key = frequency_key user ad in
      let up = start_window-count key window n (incr key db).1 w ∙ redis.count-incr key db n e m in
      let db' = start_window redis key window (pos (suc n)) (incr key db).1 in
      rw (try_consume-script second user ad cap window db c) (elim (dec_lt n cap) [
        | yes lt ↦ rw (freq_script-room key cap n window db e m lt) (inl (lt, refl, up))
        | no ge ↦
            rw (freq_script-full key cap n window db e m w c (omega arith))
              (inr (omega arith, refl, redis.count-decr key db' n up))
      ])

  -- With a window that is not positive every view is let through, whatever the positive cap, and
  -- the counter is gone again after it.
  pub try_consume-no_window :
      (second : Transport) (user ad : Text) (cap : ℕ) (window : ℤ) (db : Db)
      → count db (frequency_key user ad) ≡ some 0
      → 0 < cap
      → window ≤ℤ pos 0
      → ((try_consume redis true answered second user ad (pos cap) window db).0 ≡ consumed)
        × (count
              (try_consume redis true answered second user ad (pos cap) window db).1
              (frequency_key user ad)
            ≡ some 0)
  unfolding after_eval_sha
  try_consume-no_window second user ad cap window db e c w =
      let key = frequency_key user ad in
      rw (try_consume-script second user ad cap window db c) (
        rw (freq_script-room key cap 0 window db e (omega arith) (omega arith))
          (refl, redis.count-expire_now key window (incr key db).1 w))
