-- ===== src/Commands/Seed/Rows.antt =====
-- Lemmas on the statements of cmd/seed/main.go: INSERT ... ON CONFLICT (id) DO NOTHING.
use openadsource.Common.{
  none, some, ◌∷◌, Text, ◌≡◌, refl, arith, Option-cases, inl, inr, text_eq_refl, text_cases, sym,
  ◌∙◌, ap,
}
use openadsource.Common.Dict.{Dict, lookup}
use openadsource.Commands.Seed.{insert_new}

module _ {A : Type 0} where
  abbrev pub Has : Text → Dict A → Type 0
  Has id table = (row : A) × (lookup id table ≡ some row)

  -- Every row of the one table stands in the other.
  abbrev pub Kept : Dict A → Dict A → Type 0
  Kept t t' = (id : Text) (row : A) → lookup id t ≡ some row → lookup id t' ≡ some row

  pub insert_new_known : (id : Text) (row : A) (t : Dict A) → Has id t → insert_new id row t ≡ t
  unfolding insert_new
  insert_new_known id row t (old, e) = rw (insert_new, e) refl

  insert_new_fresh :
      (id : Text) (row : A) (t : Dict A) → lookup id t ≡ none → insert_new id row t ≡ (id, row) ∷ t
  unfolding insert_new
  insert_new_fresh id row t e = rw (insert_new, e) refl

  pub insert_new-Has : (id : Text) (row : A) (t : Dict A) → Has id (insert_new id row t)
  unfolding lookup
  insert_new-Has id row t = elim (Option-cases (lookup id t)) [
    | inl e ↦ rw (insert_new_fresh id row t e) (row, rw (text_eq_refl id) refl)
    | inr h ↦ rw (insert_new_known id row t h) h
  ]

  pub insert_new-Kept : (id : Text) (row : A) (t : Dict A) → Kept t (insert_new id row t)
  unfolding lookup
  insert_new-Kept id row t j old e = elim (Option-cases (lookup id t)) [
    | inl f ↦ rw (insert_new_fresh id row t f) (elim (text_cases id j) [
      | inl (p, _) ↦ ground (arith, sym f ∙ ap (λ (k : Text). lookup k t) p ∙ e)
      | inr (_, n) ↦ rw n e
    ])
    | inr h ↦ rw (insert_new_known id row t h) e
  ]

pub Has-Kept : {A : Type 0} (id : Text) (t t' : Dict A) → Has id t → Kept t t' → Has id t'
Has-Kept id t t' (row, e) k = (row, k id row e)
