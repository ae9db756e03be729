-- ===== src/Capping/Budget/Bounds.antt =====
-- Lemmas on capping/budget.go: the counter of a campaign under runs of the script.
use openadsource.Common.{
  refl, ◌⊎◌, inl, inr, true, [], ◌∷◌, List, ℕ, suc, ◌+◌, ◌≤◌, ◌<◌, ◌≡◌, some, arith, Text, max,
  dec_lt, List, true, ◌⊎◌, inl, inr,
}
use openadsource.Common.Int.{pos, negsuc, ℤ}
use openadsource.Redis.{
  Redis, Transport, answered, no_script, refused, reply_lost, max_counter, eval,
}
use openadsource.Capping.Budget.{
  Reserve, reserved, exhausted, failed, budget_script, after_eval, undo, try_reserve,
  after_eval_sha, budget_key, ◌∷◌,
}

module _ (redis : Redis) where
  open redis use {Db, count, incr, decr}

  -- Below the cap the script keeps its increment.
  budget_script-room :
      (key : Text) (cap n : ℕ) (db : Db)
      → count db key ≡ some n
      → n < max_counter
      → n < cap
      → budget_script redis key (pos cap) db ≡ (some (pos (suc n)), (incr key db).1)
  unfolding budget_script undo
  budget_script-room key cap n db e m lt =
      rw (redis.incr-reply key db n e m, budget_script) ground arith

  -- At the cap it takes the increment back.
  budget_script-full :
      (key : Text) (cap n : ℕ) (db : Db)
      → count db key ≡ some n
      → n < max_counter
      → 0 < cap
      → cap ≤ n
      → budget_script redis key (pos cap) db ≡ (some (negsuc 0), (decr key (incr key db).1).1)
  unfolding budget_script undo
  budget_script-full key cap n db e m c ge =
      let up = redis.count-incr key db n e m in
      rw
        (
          redis.incr-reply key db n e m,
          redis.decr-reply key (incr key db).1 n up,
          budget_script,
          undo,
        )
        ground arith

  count-undo :
      (key : Text) (n : ℕ) (db : Db)
      → count db key ≡ some n
      → n < max_counter
      → count (decr key (incr key db).1).1 key ≡ some n
  count-undo key n db e m = redis.count-decr key (incr key db).1 n (redis.count-incr key db n e m)

  -- How many impressions an answer stands for.
  unfoldable pub granted : Reserve → ℕ
  granted (reserved n) = 1
  granted exhausted = 0
  granted failed = 0

  -- What a call leaves behind when it started from the counter n.
  abbrev pub StaysBelow : ℕ → ℕ → Text → Reserve × Db → Type 0
  StaysBelow cap n key (r, db) =
      (m : ℕ) × (count db key ≡ some m) × (granted r + n ≤ m) × (m ≤ max n cap)

  -- The script with either transport of it.
  eval-StaysBelow :
      (t : Transport) (key : Text) (cap n : ℕ) (db : Db)
      → count db key ≡ some n
      → n < max_counter
      → 0 < cap
      → StaysBelow cap n key (
          let (r, db') = eval redis t (budget_script redis key (pos cap)) db in
          after_eval redis r db')
  unfolding granted after_eval
  eval-StaysBelow answered key cap n db e m c = elim (dec_lt n cap) [
    | yes lt ↦
        let up = redis.count-incr key db n e m in
        rw (budget_script-room key cap n db e m lt) (suc n, up, omega arith, ground arith)
    | no ge ↦
        rw (budget_script-full key cap n db e m c (omega arith))
          (n, count-undo key n db e m, omega arith, ground arith)
  ]
  eval-StaysBelow no_script key cap n db e m c = (n, e, omega arith, ground arith)
  eval-StaysBelow refused key cap n db e m c = (n, e, omega arith, ground arith)
  eval-StaysBelow reply_lost key cap n db e m c = elim (dec_lt n cap) [
    | yes lt ↦
        let up = redis.count-incr key db n e m in
        rw (budget_script-room key cap n db e m lt) (suc n, up, omega arith, ground arith)
    | no ge ↦
        rw (budget_script-full key cap n db e m c (omega arith))
          (n, count-undo key n db e m, omega arith, ground arith)
  ]

  -- One call of TryReserve, whatever becomes of its two transports.
  try_reserve-StaysBelow :
      (first second : Transport) (campaign : Text) (cap n : ℕ) (db : Db)
      → count db (budget_key campaign) ≡ some n
      → n < max_counter
      → 0 < cap
      → StaysBelow cap n
          (budget_key campaign)
          (try_reserve redis true first second campaign (pos cap) db)
  unfolding try_reserve after_eval_sha after_eval granted
  try_reserve-StaysBelow answered second campaign cap n db e m c = elim (dec_lt n cap) [
    | yes lt ↦
        let key = budget_key campaign in
        let up = redis.count-incr key db n e m in
        rw (budget_script-room key cap n db e m lt) (suc n, up, omega arith, omega arith)
    | no ge ↦
        let key = budget_key campaign in
        rw (budget_script-full key cap n db e m c (omega arith))
          (n, count-undo key n db e m, omega arith, omega arith)
  ]
  try_reserve-StaysBelow no_script second campaign cap n db e m c =
      eval-StaysBelow second (budget_key campaign) cap n db e m c
  try_reserve-StaysBelow refused second campaign cap n db e m c =
      eval-StaysBelow refused (budget_key campaign) cap n db e m c
  try_reserve-StaysBelow reply_lost second campaign cap n db e m c =
      eval-StaysBelow reply_lost (budget_key campaign) cap n db e m c

  -- The calls of a sequence, each with what becomes of its transports, and the impressions granted.
  unfoldable pub reserve_all : List (Transport × Transport) → Text → ℤ → Db → ℕ × Db
  reserve_all [] campaign cap db = (0, db)
  reserve_all (t ∷ calls) campaign cap db =
      let (r, db1) = try_reserve redis true t.0 t.1 campaign cap db in
      let (g, db2) = reserve_all calls campaign cap db1 in (granted r + g, db2)

  -- Whatever is called and whatever is lost on the way, the granted impressions stay within what the
  -- counter has left below a positive cap.
  pub reserve_all-bounded :
      (calls : List (Transport × Transport)) (campaign : Text) (cap n : ℕ) (db : Db)
      → count db (budget_key campaign) ≡ some n
      → 0 < cap
      → cap < max_counter
      → n < max_counter
      → (m : ℕ) × (count (reserve_all calls campaign (pos cap) db).1 (budget_key campaign) ≡ some m)
        × ((reserve_all calls campaign (pos cap) db).0 + n ≤ m)
        × (m ≤ max n cap)
  unfolding reserve_all granted
  reserve_all-bounded [] campaign cap n db e c k m = (n, e, omega arith, omega arith)
  reserve_all-bounded (t ∷ calls) campaign cap n db e c k m =
      let (m1, e1, g1, b1) = try_reserve-StaysBelow t.0 t.1 campaign cap n db e m c in
      let db1 = (try_reserve redis true t.0 t.1 campaign (pos cap) db).1 in
      let (m2, e2, g2, b2) = reserve_all-bounded calls campaign cap m1 db1 e1 c k (omega arith) in
      (m2, e2, omega arith, omega arith)

  -- A call that is answered grants exactly when the counter is below a positive cap, and then the
  -- counter is one higher; otherwise the counter is unchanged.
  pub try_reserve-answered :
      (second : Transport) (campaign : Text) (cap n : ℕ) (db : Db)
      → count db (budget_key campaign) ≡ some n
      → n < max_counter
      → 0 < cap
      → ((n < cap)
          × ((try_reserve redis true answered second campaign (pos cap) db).0
              ≡ reserved (pos (suc n)))
          × (count
                (try_reserve redis true answered second campaign (pos cap) db).1
                (budget_key campaign)
              ≡ some (suc n)))
        ⊎ ((cap ≤ n)
            × ((try_reserve redis true answered second campaign (pos cap) db).0 ≡ exhausted)
            × (count
                  (try_reserve redis true answered second campaign (pos cap) db).1
                  (budget_key campaign)
                ≡ some n))
  unfolding try_reserve after_eval_sha
  try_reserve-answered second campaign cap n db e m c = elim (dec_lt n cap) [
    | yes lt ↦
        let key = budget_key campaign in
        rw (budget_script-room key cap n db e m lt) (inl (lt, refl, redis.count-incr key db n e m))
    | no ge ↦
        let key = budget_key campaign in
        rw (budget_script-full key cap n db e m c (omega arith))
          (inr (omega arith, refl, count-undo key n db e m))
  ]
