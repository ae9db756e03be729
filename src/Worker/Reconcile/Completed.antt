-- ===== src/Worker/Reconcile/Completed.antt =====
-- Lemmas on worker/drainer.go: the campaigns that reconcileBudgets completes.
use mathlib.Core.Path.{subst}
use openadsource.Common.{
  Bool, true, false, Option, none, some, List, [], ◌∷◌, if◌then◌else◌, Text, text_eq, ℕ, ◌≡◌, refl,
  sym, ◌∙◌, ap, inl, inr, arith, ◌&&◌, text_cases, Bool-cases, text_eq_refl, ◌≢◌, text_ne, ap₂,
}
use openadsource.Common.Int.{ℤ, pos, leb_ℤ}
use openadsource.Common.Dict.{Dict, lookup}
use openadsource.Redis.{Redis, Got, absent, number, garbled, Transport, answered, got_value}
use openadsource.Registry.Snapshot.{Ad}
use openadsource.Capping.Budget.{budget_key}
use openadsource.Worker.Reconcile.{
  Statuses, active, completed, campaign_caps, complete_campaign, spent, read_counter, reconcile_one,
  reconcile_caps, reconcile_budgets,
}
use openadsource.Worker.Reconcile.Caps.{
  AreCaps, exhausted, budget_of, campaign_caps-AreCaps, lookup-campaign_caps, budget_of-positive,
}

-- A positive cap is reached by what was read when it is reached by the count.
spent-eq-exhausted :
    (cap : ℤ) (got : Got) (n : ℕ)
    → leb_ℤ cap (pos 0) ≡ false
    → got_value got ≡ some (pos n)
    → spent cap (some got) ≡ leb_ℤ cap (pos n)
unfolding spent
spent-eq-exhausted cap absent n p e =
    let none_yet : n ≡ 0 = ground (arith, e) in rw none_yet (sym p)
spent-eq-exhausted cap garbled n p e = ground (arith, e)
spent-eq-exhausted cap (number v) n p e = let same : v ≡ pos n = ground (arith, e) in rw same refl

complete_campaign-status :
    (campaign c : Text) (st : Statuses)
    → (complete_campaign campaign st).0 c
      ≡ (if text_eq campaign c && text_eq (st c) active then completed else st c)
unfolding complete_campaign
complete_campaign-status campaign c st = elim (text_cases campaign c) [
  | inl (e, t) ↦ ground (arith, t, ap (λ (x : Text). text_eq (st x) active) e)
  | inr (ne, t) ↦ ground (arith, t)
]

abbrev due_of : Option ℤ → Got → Bool
due_of none got = false
due_of (some cap) got = spent cap (some got)

abbrev settle : Bool → Text → Text
settle due status = if due && text_eq status active then completed else status

module _ (redis : Redis) (show : Text → Text) (fate : Text → Transport) (runs : Text → Bool)
    (db : redis.Db) (answers : (key : Text) → fate key ≡ answered)
    (updates : (c : Text) → runs c ≡ true) where
  open redis use {fetch, count}

  abbrev is_due : Text → Dict ℤ → Bool
  is_due c seen = due_of (lookup c seen) (fetch (budget_key (show c)) db)

  is_due_gone : (c : Text) (seen : Dict ℤ) → lookup c seen ≡ none → is_due c seen ≡ false
  is_due_gone c seen n = rw (is_due, n) refl

  is_due_self :
      (c : Text) (cap : ℤ) (seen : Dict ℤ)
      → is_due c ((c, cap) ∷ seen) ≡ spent cap (some (fetch (budget_key (show c)) db))
  unfolding lookup
  is_due_self c cap seen = rw (is_due, text_eq_refl c) refl

  is_due_other :
      (campaign c : Text) (cap : ℤ) (seen : Dict ℤ)
      → campaign ≢ c
      → is_due c ((campaign, cap) ∷ seen) ≡ is_due c seen
  unfolding lookup
  is_due_other campaign c cap seen ne = rw (is_due, text_ne ne) refl

  reconcile_one-status :
      (campaign c : Text) (cap : ℤ) (st : Statuses) (p : ℕ)
      → (reconcile_one redis show fate runs db campaign cap (st, p)).0 c ≡ (
          if text_eq campaign c
            && (spent cap (some (fetch (budget_key (show campaign)) db)) && text_eq (st c) active)
          then completed
          else st c)
  unfolding reconcile_one read_counter
  reconcile_one-status campaign c cap st p =
      let key = budget_key (show campaign) in
      rw (answers key, updates campaign)
        (elim (Bool-cases (spent cap (some (fetch key db)))) [
          | inl e ↦ rw e (complete_campaign-status campaign c st)
          | inr e ↦ rw e (ground (arith, e))
        ])

  reconcile_one_other :
      (campaign c : Text) (cap : ℤ) (st : Statuses) (p : ℕ)
      → campaign ≢ c
      → (reconcile_one redis show fate runs db campaign cap (st, p)).0 c ≡ st c
  reconcile_one_other campaign c cap st p ne =
      let first = reconcile_one-status campaign c cap st p in ground (arith, text_ne ne, first)

  reconcile_one_self :
      (c : Text) (cap : ℤ) (st : Statuses) (p : ℕ)
      → (reconcile_one redis show fate runs db c cap (st, p)).0 c
        ≡ settle (spent cap (some (fetch (budget_key (show c)) db))) (st c)
  reconcile_one_self c cap st p =
      let first = reconcile_one-status c c cap st p in ground (arith, text_eq_refl c, first)

  reconcile_caps-status :
      (c : Text) (seen : Dict ℤ) (st : Statuses) (p : ℕ)
      → AreCaps seen
      → (reconcile_caps redis show fate runs db seen (st, p)).0 c ≡ settle (is_due c seen) (st c)
  unfolding reconcile_caps lookup
  reconcile_caps-status c [] st p h = refl
  reconcile_caps-status c ((campaign, cap) ∷ seen) st p (pos', n, h) =
      let one = reconcile_one redis show fate runs db campaign cap (st, p) in
      reconcile_caps-status c seen one.0 one.1 h ∙ elim (text_cases campaign c) [
        | inl (q, t) ↦
            subst
              (λ (x : Text).
                settle (is_due x seen)
                  ((reconcile_one redis show fate runs db campaign cap (st, p)).0 x)
                ≡ settle (is_due x ((campaign, cap) ∷ seen)) (st x))
              q
              (ap (λ (d : Bool). settle d (one.0 campaign)) (is_due_gone campaign seen n)
                ∙ reconcile_one_self campaign cap st p
                ∙ ap (λ (d : Bool). settle d (st campaign)) (sym (is_due_self campaign cap seen)))
        | inr (ne, t) ↦
            ap₂ settle (sym (is_due_other campaign c cap seen ne))
              (reconcile_one_other campaign c cap st p ne)
      ]

  due_of-eq-exhausted :
      (cap : Option ℤ) (got : Got) (n : ℕ)
      → ((b : ℤ) → cap ≡ some b → leb_ℤ b (pos 0) ≡ false)
      → got_value got ≡ some (pos n)
      → due_of cap got ≡ exhausted cap n
  due_of-eq-exhausted none got n p e = refl
  due_of-eq-exhausted (some cap) got n p e = spent-eq-exhausted cap got n (p cap refl) e

  -- When every command is answered and every statement runs, a campaign is completed by
  -- reconcileBudgets exactly when it is active and its counter has reached the first positive
  -- budget of its ads; the status of any other campaign stays.
  pub reconcile_budgets-completes :
      {F : Type 0} (ads : List (Ad F)) (statuses : Statuses) (c : Text) (n : ℕ)
      → count db (budget_key (show c)) ≡ some n
      → (reconcile_budgets redis show fate runs db ads statuses).0 c ≡ (
          if exhausted (budget_of c ads) n && text_eq (statuses c) active
          then completed
          else statuses c)
  unfolding reconcile_budgets lookup
  reconcile_budgets-completes ads statuses c n e =
      let seen = campaign_caps ads [] in
      let found : lookup c seen ≡ budget_of c ads = lookup-campaign_caps c ads [] in
      reconcile_caps-status c seen statuses 0 (campaign_caps-AreCaps ads [] tt)
      ∙ ap (λ (d : Bool). settle d (statuses c))
          (ap (λ (o : Option ℤ). due_of o (fetch (budget_key (show c)) db)) found
            ∙ due_of-eq-exhausted (budget_of c ads) (fetch (budget_key (show c)) db) n
                (budget_of-positive c ads) (redis.fetch-count (budget_key (show c)) db n e))
