-- ===== src/Capping/Budget/Keys.antt =====
-- Lemmas on capping/budget.go: the keys of the counters.
use mathlib.Core.List.{append_cancel_left, append_cancel_right}
use openadsource.Common.{refl, true, false, Bool, ◌∙◌, arith, codes, Text, ◌≡◌, ◌≢◌}
use openadsource.Common.Int.{ℤ}
use openadsource.Redis.{
  Redis, Transport, answered, no_script, refused, reply_lost, eval, Reply, value, no_script_error,
  other_error,
}
use openadsource.Capping.Budget.{
  budget_key, undo, budget_script, after_eval, after_eval_sha, try_reserve,
}
use openadsource.Redis.{Redis, Transport, Reply, eval}
use openadsource.Capping.Budget.{
  budget_key, budget_script, after_eval, after_eval_sha, try_reserve, undo, value,
}
use openadsource.Common.Int.{ℤ}

budget_key_inj : (c d : Text) → budget_key c ≡ budget_key d → c ≡ d
budget_key_inj c d e =
    append_cancel_right c d (codes ":imps_total") (append_cancel_left (codes "campaign:") _ _ e)

module _ (redis : Redis) where
  open redis use {Db, count, incr, decr}

  budget_script-other :
      (key j : Text) (cap : ℤ) (db : Db)
      → key ≢ j
      → count (budget_script redis key cap db).1 j ≡ count db j
  unfolding budget_script undo
  budget_script-other key j cap db ne =
      let up = redis.count-incr_other key j db ne in
      let down = redis.count-decr_other key j (incr key db).1 ne in ground (arith, up, down)

  eval-other :
      (t : Transport) (key j : Text) (cap : ℤ) (db : Db)
      → key ≢ j
      → count (eval redis t (budget_script redis key cap) db).1 j ≡ count db j
  eval-other answered key j cap db ne = budget_script-other key j cap db ne
  eval-other no_script key j cap db ne = refl
  eval-other refused key j cap db ne = refl
  eval-other reply_lost key j cap db ne = budget_script-other key j cap db ne

  after_eval-keeps : (r : Reply) (db : Db) → (after_eval redis r db).1 ≡ db
  unfolding after_eval
  after_eval-keeps (value n) db = refl
  after_eval-keeps no_script_error db = refl
  after_eval-keeps other_error db = refl

  after_eval_sha-other :
      (second : Transport) (key j : Text) (cap : ℤ) (r : Reply) (db : Db)
      → key ≢ j
      → count (after_eval_sha redis second key cap r db).1 j ≡ count db j
  unfolding after_eval_sha
  after_eval_sha-other second key j cap (value n) db ne = refl
  after_eval_sha-other second key j cap other_error db ne = refl
  after_eval_sha-other second key j cap no_script_error db ne =
      let (r, db') = eval redis second (budget_script redis key cap) db in
      rw (after_eval-keeps r db') (eval-other second key j cap db ne)

  -- A call for one campaign, with any cap and whatever becomes of it, changes no other campaign's
  -- counter.
  pub try_reserve-other :
      (on : Bool) (first second : Transport) (campaign other : Text) (cap : ℤ) (db : Db)
      → campaign ≢ other
      → count (try_reserve redis on first second campaign cap db).1 (budget_key other)
        ≡ count db (budget_key other)
  unfolding try_reserve
  try_reserve-other false first second campaign other cap db ne = refl
  try_reserve-other true first second campaign other cap db ne =
      let key = budget_key campaign in
      let keys = (λ (p : key ≡ budget_key other). ne (budget_key_inj campaign other p)) in
      let (r, db') = eval redis first (budget_script redis key cap) db in
      after_eval_sha-other second key (budget_key other) cap r db' keys
      ∙ eval-other first key (budget_key other) cap db keys
