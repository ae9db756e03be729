-- ===== src/Worker/Drain/Keyed.antt =====
-- Lemmas on worker/drainer.go: the map of deltas.
use openadsource.Common.{
  refl, false, some, none, [], ◌∷◌, ◌≡◌, ◌≢◌, inl, inr, Text, ℕ, arith, ◌<◌, ◌+◌, ◌∙◌, ap, sym,
  Option, text_cases, text_ne,
}
use openadsource.Common.Dict.{Dict, lookup, insert, lookup-insert}
use openadsource.Common.Int.{ℤ, pos, wrap64, ◌+ℤ◌, ltb_ℤ}
use openadsource.Worker.Drain.{
  Kind, impression, click, start, first_quartile, midpoint, third_quartile, complete, Counts,
  no_counts, Delta, any_non_zero, delta_key,
}
use openadsource.Worker.Drain.Keys.{field}
use openadsource.Worker.Drain.Cell.{room}

-- What is drained of a key.
abbrev pub counts_of : Option Delta → Counts
counts_of none = no_counts
counts_of (some d) = d.counts

-- Counters that are far from the end of an int64.
abbrev pub Small : Counts → Type 0
Small c = (k : Kind) → (m : ℕ) × (field k c ≡ pos m) × (m < room)

wide_sum :
    (a b : ℤ) (m n : ℕ)
    → a ≡ pos m
    → b ≡ pos n
    → m + n < 9223372036854775808
    → wrap64 (a +ℤ b) ≡ pos (m + n)
unfolding wrap64 ◌+ℤ◌
wide_sum a b m n e f h = ground arith

none_above : (a : ℤ) (m : ℕ) → a ≡ pos m → ltb_ℤ (pos 0) a ≡ false → m ≡ 0
none_above a m e f = ground arith

pub any_non_zero-false :
    (c : Counts) → Small c → any_non_zero c ≡ false → (k : Kind) → field k c ≡ pos 0
unfolding any_non_zero field
any_non_zero-false c small e k =
    let (m1, e1, h1) = small impression in
    let (m2, e2, h2) = small click in
    let (m3, e3, h3) = small start in
    let (m4, e4, h4) = small first_quartile in
    let (m5, e5, h5) = small midpoint in
    let (m6, e6, h6) = small third_quartile in
    let (m7, e7, h7) = small complete in
    let s2 = wide_sum c.imps c.clk m1 m2 e1 e2 (omega (arith, h1, h2)) in
    let s3 = wide_sum _ c.start (m1 + m2) m3 s2 e3 (omega (arith, h1, h2, h3)) in
    let s4 = wide_sum _ c.q25 (m1 + m2 + m3) m4 s3 e4 (omega (arith, h1, h2, h3, h4)) in
    let s5 = wide_sum _ c.q50 (m1 + m2 + m3 + m4) m5 s4 e5 (omega (arith, h1, h2, h3, h4, h5)) in
    let s6 =
      wide_sum _ c.q75 (m1 + m2 + m3 + m4 + m5) m6 s5 e6 (omega (arith, h1, h2, h3, h4, h5, h6)) in
    let s7 =
      wide_sum _ c.complete (m1 + m2 + m3 + m4 + m5 + m6) m7 s6 e7
        (omega (arith, h1, h2, h3, h4, h5, h6, h7)) in
    let total = none_above _ _ s7 e in
    elim k as (λ (i : Kind). field i c ≡ pos 0) [
      | impression ↦ e1 ∙ ap pos (omega (arith, total))
      | click ↦ e2 ∙ ap pos (omega (arith, total))
      | start ↦ e3 ∙ ap pos (omega (arith, total))
      | first_quartile ↦ e4 ∙ ap pos (omega (arith, total))
      | midpoint ↦ e5 ∙ ap pos (omega (arith, total))
      | third_quartile ↦ e6 ∙ ap pos (omega (arith, total))
      | complete ↦ e7 ∙ ap pos (omega (arith, total))
    ]

fresh :
    (key j : Text) (d : Delta) (deltas : Dict Delta)
    → j ≢ key
    → lookup j deltas ≡ none
    → lookup j (insert key d deltas) ≡ none
fresh key j d deltas ne n = rw (lookup-insert key j d deltas, text_ne λ q. ne (sym q)) n

module _ (show : Text → Text) where
  -- The delta of a key is that of its ad and date, and no key comes twice.
  abbrev pub Keyed : Dict Delta → Type 0
  Keyed [] = Unit
  Keyed ((key, d) ∷ deltas) =
      (key ≡ delta_key (show d.ad_id) d.date)
      × Small d.counts
      × (lookup key deltas ≡ none)
      × Keyed deltas

  pub lookup-Keyed :
      (key : Text) (deltas : Dict Delta) (d : Delta)
      → Keyed deltas
      → lookup key deltas ≡ some d
      → (key ≡ delta_key (show d.ad_id) d.date)
  unfolding lookup
  lookup-Keyed key [] d h e = ground arith
  lookup-Keyed key ((j, w) ∷ deltas) d (p, s, n, h) e = elim (text_cases j key) [
    | inl (q, t) ↦
        (let same : w ≡ d = ground (arith, e, t) in
          sym q ∙ p ∙ ap (λ (x : Delta). delta_key (show x.ad_id) x.date) same)
    | inr (ne, f) ↦ lookup-Keyed key deltas d h (ground (arith, e, f))
  ]

  pub insert-Keyed :
      (key : Text) (d : Delta) (deltas : Dict Delta)
      → key ≡ delta_key (show d.ad_id) d.date
      → Small d.counts
      → Keyed deltas
      → Keyed (insert key d deltas)
  unfolding lookup insert
  insert-Keyed key d [] p s h = (p, s, refl, h)
  insert-Keyed key d ((j, w) ∷ deltas) p s (p', s', n, h) = elim (text_cases j key) [
    | inl (q, t) ↦ rw t (q ∙ p, s, n, h)
    | inr (ne, f) ↦ rw f (p', s', fresh key j d deltas ne n, insert-Keyed key d deltas p s h)
  ]
