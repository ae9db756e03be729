-- ===== src/Worker/Reconcile/Published.antt =====
-- Lemmas on worker/drainer.go: the invalidation that reconcileBudgets publishes.
use openadsource.Common.{
  Bool, true, false, List, [], ◌∷◌, if◌then◌else◌, Text, ℕ, suc, ◌≡◌, refl, sym, ◌∙◌, inl, inr,
  arith, ◌⊎◌, text_cases, text_eq_refl,
}
use openadsource.Common.Int.{ℤ}
use openadsource.Common.Dict.{Dict}
use openadsource.Redis.{Redis, Transport}
use openadsource.Registry.Snapshot.{Ad}
use openadsource.Worker.Reconcile.{
  Statuses, active, completed, campaign_caps, complete_campaign, reconcile_one, reconcile_caps,
  reconcile_budgets,
}

-- The number of campaigns paused so far is positive exactly when a status has changed.
abbrev Tally : Statuses → Statuses × ℕ → Type 0
Tally before (after, paused) =
    ((paused ≡ 0) × ((c : Text) → after c ≡ before c))
    ⊎ ((n : ℕ) × (paused ≡ suc n) × (c : Text) × (before c ≡ active) × (after c ≡ completed))

complete_campaign-Tally :
    (before after : Statuses) (paused : ℕ) (campaign : Text)
    → Tally before (after, paused)
    → let (after', affected) = complete_campaign campaign after in
      Tally before (after', if affected then suc paused else paused)
unfolding complete_campaign
complete_campaign-Tally before after paused campaign h = elim (text_cases (after campaign) active) [
  | inl (e, t) ↦ rw t (
      inr (elim h [
        | inl (z, same) ↦
            (paused, refl, campaign, sym (same campaign) ∙ e, rw (text_eq_refl campaign) refl)
        | inr (n, z, c, was, done) ↦ (paused, refl, c, was, ground (arith, done))
      ]))
  | inr (ne, t) ↦ rw t h
]

module _ (redis : Redis) (show : Text → Text) (fate : Text → Transport) (runs : Text → Bool)
    (db : redis.Db) where
  reconcile_one-Tally :
      (before after : Statuses) (paused : ℕ) (campaign : Text) (cap : ℤ)
      → Tally before (after, paused)
      → Tally before (reconcile_one redis show fate runs db campaign cap (after, paused))
  unfolding reconcile_one
  reconcile_one-Tally before after paused campaign cap h =
      one_of _ _ _ (complete_campaign-Tally before after paused campaign h) h
    where
      one_of :
          (b : Bool) (x y : Statuses × ℕ)
          → Tally before x
          → Tally before y
          → Tally before (if b then x else y)
      one_of true x y p q = p
      one_of false x y p q = q

  reconcile_caps-Tally :
      (before : Statuses) (seen : Dict ℤ) (s : Statuses × ℕ)
      → Tally before s
      → Tally before (reconcile_caps redis show fate runs db seen s)
  unfolding reconcile_caps
  reconcile_caps-Tally before [] s h = h
  reconcile_caps-Tally before ((campaign, cap) ∷ seen) s h =
      reconcile_caps-Tally before seen _ (reconcile_one-Tally before s.0 s.1 campaign cap h)

  -- Whatever becomes of its commands and statements, reconcileBudgets publishes an invalidation
  -- only if it completed a campaign that was active, and without one it has changed no status.
  pub reconcile_budgets-publishes :
      {F : Type 0} (ads : List (Ad F)) (statuses : Statuses)
      → let (statuses', published) = reconcile_budgets redis show fate runs db ads statuses in
        (published ≡ true → (c : Text) × (statuses c ≡ active) × (statuses' c ≡ completed))
        × (published ≡ false → (c : Text) → statuses' c ≡ statuses c)
  unfolding reconcile_budgets
  reconcile_budgets-publishes ads statuses =
      elim (reconcile_caps-Tally statuses (campaign_caps ads []) (statuses, 0)
        (inl (refl, λ c. refl))) [
          | inl (z, same) ↦ (λ e. ground (arith, z, e), λ e. same)
          | inr (n, z, c, was, done) ↦ (λ e. (c, was, done), λ e. ground (arith, z, e))
        ]
