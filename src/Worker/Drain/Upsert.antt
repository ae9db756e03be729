-- ===== src/Worker/Drain/Upsert.antt =====
-- Lemmas on worker/drainer.go: what the upsert of the deltas adds to the rows.
use mathlib.Core.Path.{subst}
use openadsource.Common.{
  refl, true, false, none, [], ◌∷◌, ◌≡◌, inl, inr, Text, arith, ◌∙◌, ap, sym, Option, text_cases,
  Bool, Bool-cases, text_eq_iff, ap₂,
}
use openadsource.Common.Separator.{Lacks, cut}
use openadsource.Common.Dict.{Dict, lookup}
use openadsource.Common.Int.{ℤ, pos, negsuc, ◌+ℤ◌}
use openadsource.Worker.Drain.{
  Kind, impression, click, start, first_quartile, midpoint, third_quartile, complete, Counts,
  no_counts, Delta, any_non_zero, add_counts, Table, upsert, upsert_deltas, delta_key,
}
use openadsource.Worker.Drain.Keys.{field}
use openadsource.Worker.Drain.Keyed.{counts_of, Keyed, any_non_zero-false}

pub field-no_counts : (k : Kind) → field k no_counts ≡ pos 0
unfolding field
field-no_counts k = ground arith

field-add_counts : (k : Kind) (c d : Counts) → field k (add_counts c d) ≡ field k c +ℤ field k d
unfolding field
field-add_counts impression c d = refl
field-add_counts click c d = refl
field-add_counts start c d = refl
field-add_counts first_quartile c d = refl
field-add_counts midpoint c d = refl
field-add_counts third_quartile c d = refl
field-add_counts complete c d = refl

add_zero : (a : ℤ) → a +ℤ pos 0 ≡ a
unfolding ◌+ℤ◌
add_zero (pos n) = ground arith
add_zero (negsuc n) = ground arith

module _ (runs : Text → Bool) (key : Text) (d : Delta) (deltas : Dict Delta) (table : Table) where
  upsert_deltas-skips :
      any_non_zero d.counts ≡ false
      → upsert_deltas runs ((key, d) ∷ deltas) table ≡ upsert_deltas runs deltas table
  unfolding upsert_deltas
  upsert_deltas-skips e = ground (arith, e)

  upsert_deltas-runs :
      any_non_zero d.counts ≡ true
      → runs key ≡ true
      → upsert_deltas runs ((key, d) ∷ deltas) table ≡ upsert_deltas runs deltas (upsert d table)
  unfolding upsert_deltas
  upsert_deltas-runs e r = ground (arith, e, r)

upsert_self :
    (d : Delta) (table : Table) (a day : Text)
    → d.ad_id ≡ a
    → d.date ≡ day
    → upsert d table a day ≡ add_counts (table a day) d.counts
unfolding upsert
upsert_self d table a day e f = ground (arith, text_eq_iff d.ad_id a, text_eq_iff d.date day, e, f)

upsert_other :
    (d : Delta) (table : Table) (a day : Text)
    → (d.ad_id ≡ a → d.date ≡ day → ⊥)
    → upsert d table a day ≡ table a day
unfolding upsert
upsert_other d table a day ne = ground (arith, text_eq_iff d.ad_id a, text_eq_iff d.date day, ne)

gone :
    (k : Kind) (key j : Text) (deltas : Dict Delta)
    → key ≡ j
    → lookup key deltas ≡ none
    → field k (counts_of (lookup j deltas)) ≡ pos 0
gone k key j deltas q n =
    ap (λ (o : Option Delta). field k (counts_of o))
      (ap (λ (i : Text). lookup i deltas) (sym q) ∙ n)
    ∙ field-no_counts k

module _ (show : Text → Text) where
  -- Every row of an ad and a date has gained what the map has drained of it.
  abbrev pub Adds : Bool × Table → Table → Dict Delta → Type 0
  Adds (ok, table') table deltas =
      (ok ≡ true)
      × ((a day : Text) (k : Kind)
          → field k (table' a day)
            ≡ field k (table a day) +ℤ field k (counts_of (lookup (delta_key (show a) day) deltas)))

  Adds-nothing : (runs : Text → Bool) (table : Table) → Adds (upsert_deltas runs [] table) table []
  unfolding upsert_deltas lookup
  Adds-nothing runs table = (
    refl,
    λ a day k. sym (
        ap (λ (z : ℤ). field k (table a day) +ℤ z) (field-no_counts k)
        ∙ add_zero (field k (table a day))),
  )

  Adds-skip :
      (key : Text) (d : Delta) (deltas : Dict Delta) (table : Table) (r : Bool × Table)
      → ((k : Kind) → field k d.counts ≡ pos 0)
      → lookup key deltas ≡ none
      → Adds r table deltas
      → Adds r table ((key, d) ∷ deltas)
  unfolding lookup
  Adds-skip key d deltas table (ok, table') zero n (t, h) = (
    t,
    λ a day k. elim (text_cases key (delta_key (show a) day)) [
      | inl (q, e) ↦ rw e (
          h a day k
          ∙ ap (λ (z : ℤ). field k (table a day) +ℤ z)
              (gone k key (delta_key (show a) day) deltas q n ∙ sym (zero k)))
      | inr (ne, e) ↦ rw e (h a day k)
    ],
  )

  Adds-row :
      (key : Text) (d : Delta) (deltas : Dict Delta) (table : Table) (r : Bool × Table)
      → ((a b : Text) → show a ≡ show b → a ≡ b)
      → ((a : Text) → Lacks 124 (show a))
      → key ≡ delta_key (show d.ad_id) d.date
      → lookup key deltas ≡ none
      → Adds r (upsert d table) deltas
      → Adds r table ((key, d) ∷ deltas)
  unfolding lookup
  Adds-row key d deltas table (ok, table') inj clean p n (t, h) = (
    t,
    λ a day k. elim (text_cases key (delta_key (show a) day)) [
      | inl (q, e) ↦ rw e (
          let (same_ad, same_day) =
            cut 124 (show d.ad_id) (show a) (clean d.ad_id) (clean a) (sym p ∙ q) in
          h a day k
          ∙ ap (λ (z : ℤ). field k (upsert d table a day) +ℤ z)
              (gone k key (delta_key (show a) day) deltas q n)
          ∙ add_zero _
          ∙ ap (field k) (upsert_self d table a day (inj d.ad_id a same_ad) same_day)
          ∙ field-add_counts k (table a day) d.counts)
      | inr (ne, e) ↦ rw e (
          h a day k
          ∙ ap
              (λ (c : Counts).
                field k c +ℤ field k (counts_of (lookup (delta_key (show a) day) deltas)))
              (upsert_other d table a day λ x y. ne (p ∙ ap₂ delta_key (ap show x) y)))
    ],
  )

  pub upsert_deltas-Adds :
      (runs : Text → Bool) (deltas : Dict Delta) (table : Table)
      → ((a b : Text) → show a ≡ show b → a ≡ b)
      → ((a : Text) → Lacks 124 (show a))
      → ((key : Text) → runs key ≡ true)
      → Keyed show deltas
      → Adds (upsert_deltas runs deltas table) table deltas
  upsert_deltas-Adds runs [] table inj clean ok h = Adds-nothing runs table
  upsert_deltas-Adds runs ((key, d) ∷ deltas) table inj clean ok (p, s, n, h) =
      elim (Bool-cases (any_non_zero d.counts)) [
        | inl e ↦
            subst (λ (r : Bool × Table). Adds r table ((key, d) ∷ deltas))
              (sym (upsert_deltas-runs runs key d deltas table e (ok key)))
              (Adds-row key d deltas table _ inj clean p n
                (upsert_deltas-Adds runs deltas (upsert d table) inj clean ok h))
        | inr e ↦
            subst (λ (r : Bool × Table). Adds r table ((key, d) ∷ deltas))
              (sym (upsert_deltas-skips runs key d deltas table e))
              (Adds-skip key d deltas table _ (any_non_zero-false d.counts s e) n
                (upsert_deltas-Adds runs deltas table inj clean ok h))
      ]
