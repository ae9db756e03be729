-- ===== src/Worker/Reconcile/Caps.antt =====
-- Lemmas on worker/drainer.go: the budgets that reconcileBudgets looks at.
use openadsource.Common.{
  Bool, false, Option, none, some, List, [], ◌∷◌, if◌then◌else◌, Text, text_eq, ℕ, ◌≡◌, refl, sym,
  ◌∙◌, ap, inl, inr, arith, not, ◌&&◌, text_cases, Bool-cases, Option-cases, text_eq_iff,
}
use openadsource.Common.Int.{ℤ, pos, leb_ℤ}
use openadsource.Common.Dict.{Dict, lookup, insert, lookup-insert, lookup-insert_other}
use openadsource.Registry.Snapshot.{Ad}
use openadsource.Worker.Reconcile.{campaign_caps, note_budget}

abbrev pub or_else : Option ℤ → Option ℤ → Option ℤ
or_else none o = o
or_else (some cap) o = some cap

abbrev pub own_budget : Text → Text → ℤ → Option ℤ
own_budget c campaign budget =
    if text_eq campaign c && not (leb_ℤ budget (pos 0)) then some budget else none

-- The first positive budget of a campaign.
abbrev pub budget_of : {F : Type 0} → Text → List (Ad F) → Option ℤ
budget_of c [] = none
budget_of c (ad ∷ ads) = or_else (own_budget c ad.campaign_id ad.budget_total) (budget_of c ads)

-- The budget is there, and the impressions have reached it.
abbrev pub exhausted : Option ℤ → ℕ → Bool
exhausted none n = false
exhausted (some cap) n = leb_ℤ cap (pos n)

-- Caps that are positive, of campaigns that come once.
abbrev pub AreCaps : Dict ℤ → Type 0
AreCaps [] = Unit
AreCaps ((c, cap) ∷ seen) = (leb_ℤ cap (pos 0) ≡ false) × (lookup c seen ≡ none) × AreCaps seen

insert-AreCaps :
    (c : Text) (cap : ℤ) (seen : Dict ℤ)
    → leb_ℤ cap (pos 0) ≡ false
    → lookup c seen ≡ none
    → AreCaps seen
    → AreCaps (insert c cap seen)
unfolding insert lookup
insert-AreCaps c cap [] p e h = (p, refl, tt)
insert-AreCaps c cap ((d, b) ∷ seen) p e (q, n, h) = elim (text_cases d c) [
  | inl (x, t) ↦ ground (arith, e, t)
  | inr (ne, t) ↦ rw t (
    q,
    lookup-insert_other c d cap seen (λ x. ne (sym x)) ∙ n,
    insert-AreCaps c cap seen p (ground (arith, e, t)) h,
  )
]

note_budget-AreCaps :
    (c : Text) (budget : ℤ) (seen : Dict ℤ) → AreCaps seen → AreCaps (note_budget c budget seen)
unfolding note_budget
note_budget-AreCaps c budget seen h = elim (Bool-cases (leb_ℤ budget (pos 0))) [
  | inl e ↦ rw e h
  | inr e ↦ elim (Option-cases (lookup c seen)) [
    | inl n ↦ rw (e, n) (insert-AreCaps c budget seen e n h)
    | inr (cap, n) ↦ rw (e, n) h
  ]
]

pub campaign_caps-AreCaps :
    {F : Type 0} (ads : List (Ad F)) (seen : Dict ℤ)
    → AreCaps seen
    → AreCaps (campaign_caps ads seen)
unfolding campaign_caps
campaign_caps-AreCaps [] seen h = h
campaign_caps-AreCaps (ad ∷ ads) seen h =
    campaign_caps-AreCaps ads _ (note_budget-AreCaps ad.campaign_id ad.budget_total seen h)

lookup-note_budget :
    (c campaign : Text) (budget : ℤ) (seen : Dict ℤ)
    → lookup c (note_budget campaign budget seen)
      ≡ or_else (lookup c seen) (own_budget c campaign budget)
unfolding note_budget
lookup-note_budget c campaign budget seen =
    ground (arith, lookup-insert campaign c budget seen, text_eq_iff campaign c)

or_else_assoc : (a b c : Option ℤ) → or_else (or_else a b) c ≡ or_else a (or_else b c)
or_else_assoc none b c = refl
or_else_assoc (some cap) b c = refl

or_else-none : (a : Option ℤ) → or_else a none ≡ a
or_else-none none = refl
or_else-none (some cap) = refl

pub lookup-campaign_caps :
    {F : Type 0} (c : Text) (ads : List (Ad F)) (seen : Dict ℤ)
    → lookup c (campaign_caps ads seen) ≡ or_else (lookup c seen) (budget_of c ads)
unfolding campaign_caps
lookup-campaign_caps c [] seen = sym (or_else-none (lookup c seen))
lookup-campaign_caps c (ad ∷ ads) seen =
    let own = own_budget c ad.campaign_id ad.budget_total in
    lookup-campaign_caps c ads _
    ∙ ap (λ (o : Option ℤ). or_else o (budget_of c ads))
        (lookup-note_budget c ad.campaign_id ad.budget_total seen)
    ∙ or_else_assoc (lookup c seen) own (budget_of c ads)

own_budget-positive :
    (c campaign : Text) (budget b : ℤ)
    → own_budget c campaign budget ≡ some b
    → leb_ℤ b (pos 0) ≡ false
own_budget-positive c campaign budget b e = ground (arith, e)

pub budget_of-positive :
    {F : Type 0} (c : Text) (ads : List (Ad F)) (b : ℤ)
    → budget_of c ads ≡ some b
    → leb_ℤ b (pos 0) ≡ false
budget_of-positive c [] b e = ground (arith, e)
budget_of-positive c (ad ∷ ads) b e =
    elim (Option-cases (own_budget c ad.campaign_id ad.budget_total)) [
      | inl n ↦
          budget_of-positive c ads b
            (ap (λ (o : Option ℤ). or_else o (budget_of c ads)) (sym n) ∙ e)
      | inr (d, n) ↦
          own_budget-positive c ad.campaign_id ad.budget_total b
            (n ∙ ap (λ (o : Option ℤ). or_else o (budget_of c ads)) (sym n) ∙ e)
    ]
