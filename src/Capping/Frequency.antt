-- ===== src/Capping/Frequency.antt =====
-- server/internal/capping/frequency.go: the cap on one user's views of one ad.
pub mod Window
use openadsource.Common.{
  Bool, true, false, Option, none, some, ◌++◌, if◌then◌else◌, ◌&&◌, Text, codes,
}
use openadsource.Common.Int.{ℤ, pos, negsuc, ltb_ℤ, leb_ℤ, eqb_ℤ}
use openadsource.Redis.{Redis, Transport, Reply, value, no_script_error, other_error, Script, eval}

abbrev pub frequency_key : Text → Text → Text
frequency_key user ad = codes "user:" ++ (user ++ (codes ":ad:" ++ (ad ++ codes ":count")))

-- The result of TryConsume.
pub data Consume : Type 0 where
  consumed exceeded failed : Consume

abbrev pub consume_of : ℤ → Consume
consume_of n = if eqb_ℤ n (negsuc 0) then exceeded else consumed

module _ (redis : Redis) where
  open redis use {Db, incr, decr, expire}

  unfoldable pub undo : Text → Db → Option ℤ × Db
  undo key db = elim (decr key db).0 [
    | none ↦ (none, (decr key db).1)
    | some n ↦ (some (negsuc 0), (decr key db).1)
  ]

  abbrev pub start_window : Text → ℤ → ℤ → Db → Db
  start_window key window n db = if eqb_ℤ n (pos 1) then expire key window db else db

  -- freqScript.
  unfoldable pub freq_script : Text → ℤ → ℤ → Script redis
  unfolding undo
  freq_script key cap window db = elim (incr key db).0 [
    | none ↦ (none, (incr key db).1)
    | some n ↦
        let db' = start_window key window n (incr key db).1 in
        if ltb_ℤ (pos 0) cap && ltb_ℤ cap n then undo key db' else (some n, db')
  ]

  unfoldable pub after_eval : Reply → Db → Consume × Db
  after_eval (value n) db = (consume_of n, db)
  after_eval no_script_error db = (failed, db)
  after_eval other_error db = (failed, db)

  unfoldable pub after_eval_sha : Transport → Text → ℤ → ℤ → Reply → Db → Consume × Db
  unfolding after_eval
  after_eval_sha second key cap window (value n) db = (consume_of n, db)
  after_eval_sha second key cap window other_error db = (failed, db)
  after_eval_sha second key cap window no_script_error db =
      let (r, db') = eval redis second (freq_script key cap window) db in after_eval r db'

  -- A nil enforcer, `false`, and an ad with no cap rule consume nothing.
  unfoldable pub try_consume :
      Bool → Transport → Transport → Text → Text → ℤ → ℤ → Db → Consume × Db
  unfolding after_eval_sha freq_script
  try_consume false first second user ad cap window db = (consumed, db)
  try_consume true first second user ad cap window db =
      if leb_ℤ cap (pos 0)
      then (consumed, db)
      else let key = frequency_key user ad in
        let (r, db') = eval redis first (freq_script key cap window) db in
        after_eval_sha second key cap window r db'
