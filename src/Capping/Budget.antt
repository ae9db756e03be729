-- ===== src/Capping/Budget.antt =====
-- server/internal/capping/budget.go: the campaign budget. A script runs atomically.
pub mod Bounds
pub mod Keys
use openadsource.Common.{
  ℕ, zero, suc, Bool, true, false, Option, none, some, List, [], ◌∷◌, ◌++◌, if◌then◌else◌, ◌&&◌,
  Text, codes,
}
use openadsource.Common.Int.{ℤ, pos, negsuc, ltb_ℤ, eqb_ℤ}
use openadsource.Redis.{Redis, Transport, Reply, value, no_script_error, other_error, Script, eval}

abbrev pub budget_key : Text → Text
budget_key campaign = codes "campaign:" ++ (campaign ++ codes ":imps_total")

-- The result of TryReserve.
pub data Reserve : Type 0 where
  reserved : ℤ → Reserve
  exhausted failed : Reserve

abbrev pub reserve_of : ℤ → Reserve
reserve_of n = if eqb_ℤ n (negsuc 0) then exhausted else reserved n

module _ (redis : Redis) where
  open redis use {Db, incr, decr}

  unfoldable pub undo : Text → Db → Option ℤ × Db
  undo key db = elim (decr key db).0 [
    | none ↦ (none, (decr key db).1)
    | some n ↦ (some (negsuc 0), (decr key db).1)
  ]

  -- budgetScript.
  unfoldable pub budget_script : Text → ℤ → Script redis
  unfolding undo
  budget_script key cap db = elim (incr key db).0 [
    | none ↦ (none, (incr key db).1)
    | some n ↦
        if ltb_ℤ (pos 0) cap && ltb_ℤ cap n
        then undo key (incr key db).1
        else (some n, (incr key db).1)
  ]

  unfoldable pub after_eval : Reply → Db → Reserve × Db
  after_eval (value n) db = (reserve_of n, db)
  after_eval no_script_error db = (failed, db)
  after_eval other_error db = (failed, db)

  -- The fall-back to EVAL after NOSCRIPT.
  unfoldable pub after_eval_sha : Transport → Text → ℤ → Reply → Db → Reserve × Db
  unfolding after_eval
  after_eval_sha second key cap (value n) db = (reserve_of n, db)
  after_eval_sha second key cap other_error db = (failed, db)
  after_eval_sha second key cap no_script_error db =
      let (r, db') = eval redis second (budget_script key cap) db in after_eval r db'

  -- A nil enforcer, `false`, always succeeds. The transports are those of EVALSHA and of EVAL.
  unfoldable pub try_reserve : Bool → Transport → Transport → Text → ℤ → Db → Reserve × Db
  unfolding after_eval_sha budget_script
  try_reserve false first second campaign cap db = (reserved (pos 1), db)
  try_reserve true first second campaign cap db =
      let key = budget_key campaign in
      let (r, db') = eval redis first (budget_script key cap) db in
      after_eval_sha second key cap r db'
