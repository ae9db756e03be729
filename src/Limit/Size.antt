-- ===== src/Limit/Size.antt =====
-- Lemmas on httpmw/ratelimit.go: the counter beside the map, over requests and sweeps.
use openadsource.Common.{
  ℕ, suc, ◌+◌, ◌≡◌, refl, sym, ap, ◌∙◌, Bool, true, false, none, some, List, [], ◌∷◌, ◌⊎◌, inl, inr,
  ◌||◌, arith, length, Text, text_eq, Bool-cases,
}
use openadsource.Common.Int.{ℤ, pos, ltb_ℤ, leb_ℤ, ◌-ℤ◌, ◌+ℤ◌}
use openadsource.Limit.{Bucket, Visitor, Limiter, touch, evict_one, sweep_bag, sweep, admit, allow}

module _ (bucket : Bucket) where
  -- A client has a visitor.
  unfoldable pub has : Text → List (Text × Visitor bucket) → Bool
  has j [] = false
  has j ((k, v) ∷ bag) = text_eq k j || has j bag

  abbrev pub Distinct : List (Text × Visitor bucket) → Type 0
  Distinct [] = Unit
  Distinct ((k, v) ∷ bag) = (has k bag ≡ false) × Distinct bag

  -- The counter is the number of visitors, and no client has two.
  abbrev pub Counted : Limiter bucket → Type 0
  Counted l = (l.approx_size ≡ pos (length l.bag)) × Distinct l.bag

  pub touch_lem :
      (key : Text) (now : ℤ) (bag : List (Text × Visitor bucket))
      → ((touch bucket key now bag ≡ none) × (has key bag ≡ false))
        ⊎ ((ok : Bool) × (out : List (Text × Visitor bucket)) × (touch bucket key now bag
              ≡ some (ok, out))
            × (length out ≡ length bag)
            × ((j : Text) → has j out ≡ has j bag)
            × (Distinct bag → Distinct out))
  unfolding touch has
  touch_lem key now [] = inl (refl, refl)
  touch_lem key now ((k, v) ∷ bag) = elim (Bool-cases (text_eq k key)) [
    | inl t ↦ rw t (inr (_, _, refl, refl, λ j. refl, λ d. d))
    | inr f ↦ rw f (elim (touch_lem key now bag) [
      | inl (e, h) ↦ rw e (inl (refl, h))
      | inr (ok, out, e, len, same, keeps) ↦ rw e (
          inr (
            ok,
            (k, v) ∷ out,
            refl,
            ap suc len,
            λ j. rw (same j) refl,
            λ d. (same k ∙ d.0, keeps d.1),
          ))
    ])
  ]

  -- What is left of a map after some deletions.
  abbrev pub Less : List (Text × Visitor bucket) → List (Text × Visitor bucket) → Type 0
  Less out bag =
      ((j : Text) → has j bag ≡ false → has j out ≡ false) × (Distinct bag → Distinct out)

  pub evict_one_lem :
      (cutoff : ℤ) (bag : List (Text × Visitor bucket))
      → let (found, out) = evict_one bucket cutoff bag in
        Less out bag
        × (((found ≡ true) × (suc (length out) ≡ length bag))
            ⊎ ((found ≡ false) × (length out ≡ length bag)))
  unfolding evict_one has
  evict_one_lem cutoff [] = ((λ j h. refl, λ d. d), inr (refl, refl))
  evict_one_lem cutoff ((k, v) ∷ bag) =
      let ((fewer, keeps), count) = evict_one_lem cutoff bag in
      elim (Bool-cases (ltb_ℤ v.last_seen cutoff)) [
        | inl t ↦ rw t ((λ j h. ground (arith, h), λ d. d.1), inl (refl, refl))
        | inr f ↦ rw f (
          (
            λ j h. let part = fewer j (ground (arith, h)) in ground (arith, h, part),
            λ d. (fewer k d.0, keeps d.1),
          ),
          elim count [ inl (t, n) ↦ inl (t, ap suc n) | inr (t, n) ↦ inr (t, ap suc n) ],
        )
      ]

  down_lem : (n m : ℕ) {s : ℤ} → s ≡ pos (n + suc m) → s -ℤ pos 1 ≡ pos (n + m)
  unfolding ◌-ℤ◌
  down_lem n m e = rw e ground arith

  sweep_bag_lem :
      (cutoff : ℤ) (bag : List (Text × Visitor bucket)) (n : ℕ) (s : ℤ)
      → s ≡ pos (n + length bag)
      → let (out, size) = sweep_bag bucket cutoff bag s in
        Less out bag × (size ≡ pos (n + length out))
  unfolding sweep_bag has
  sweep_bag_lem cutoff [] n s e = ((λ j h. refl, λ d. d), e)
  sweep_bag_lem cutoff ((k, v) ∷ bag) n s e = elim (Bool-cases (ltb_ℤ v.last_seen cutoff)) [
    | inl t ↦
        let ((fewer, keeps), size) =
          sweep_bag_lem cutoff bag n (s -ℤ pos 1) (down_lem n (length bag) e) in
        rw t ((λ j h. fewer j (ground (arith, h)), λ d. keeps d.1), size)
    | inr f ↦
        let ((fewer, keeps), size) =
          sweep_bag_lem cutoff bag (suc n) s (e ∙ ap pos (omega arith)) in
        rw f (
          (
            λ j h. let part = fewer j (ground (arith, h)) in ground (arith, h, part),
            λ d. (fewer k d.0, keeps d.1),
          ),
          size ∙ ap pos (omega arith),
        )
  ]

  sweep-Counted : (now : ℤ) (l : Limiter bucket) → Counted l → Counted (sweep bucket now l)
  unfolding sweep
  sweep-Counted now l (size, distinct) =
      let ((fewer, keeps), size') =
        sweep_bag_lem (now -ℤ pos 900) l.bag 0 l.approx_size (size ∙ ap pos (omega arith)) in
      (size' ∙ ap pos (omega arith), keeps distinct)

  up_lem : (m : ℕ) {s : ℤ} → s ≡ pos m → s +ℤ pos 1 ≡ pos (suc m)
  unfolding ◌+ℤ◌
  up_lem m e = rw e ground arith

  admit-Counted :
      (key : Text) (now : ℤ) (l : Limiter bucket)
      → has key l.bag ≡ false
      → Counted l
      → Counted (admit bucket key now l).1
  unfolding admit
  admit-Counted key now l absent (size, distinct) =
      let ((fewer, keeps), count) = evict_one_lem (now -ℤ pos 60) l.bag in
      let kept : ℕ = length (evict_one bucket (now -ℤ pos 60) l.bag).1 in
      elim (Bool-cases (leb_ℤ l.bound l.approx_size)) [
        | inr f ↦ rw f (up_lem (length l.bag) size, (absent, distinct))
        | inl t ↦ rw t (elim count [
          | inl (found, n) ↦
              let one_less = down_lem 0 kept (size ∙ ap pos (omega (arith, n))) in
              rw found
                (up_lem kept (one_less ∙ ap pos (omega arith)), (fewer key absent, keeps distinct))
          | inr (found, n) ↦
              rw found
                (up_lem kept (size ∙ ap pos (omega (arith, n))), (fewer key absent, keeps distinct))
        ])
      ]

  allow-Counted :
      (key : Text) (now : ℤ) (l : Limiter bucket) → Counted l → Counted (allow bucket key now l).1
  unfolding allow
  allow-Counted key now l (size, distinct) = elim (Bool-cases (bucket.positive l.rate)) [
    | inr f ↦ rw f (size, distinct)
    | inl t ↦ rw t (elim (touch_lem key now l.bag) [
      | inl (e, absent) ↦ rw e (admit-Counted key now l absent (size, distinct))
      | inr (ok, out, e, len, same, keeps) ↦ rw e (size ∙ ap pos (sym len), keeps distinct)
    ])
  ]

  -- A request of a client at a time, or a sweep.
  pub data Event : Type 0 where
    asked : Text → ℤ → Event
    swept : ℤ → Event

  unfoldable pub run_all : List Event → Limiter bucket → Limiter bucket
  run_all [] l = l
  run_all (asked key now ∷ events) l = run_all events (allow bucket key now l).1
  run_all (swept now ∷ events) l = run_all events (sweep bucket now l)

  -- Over any sequence of requests and sweeps, the counter stays the number of the visitors and no
  -- client has two, from a limiter where that is so.
  pub run_all-Counted :
      (events : List Event) (l : Limiter bucket) → Counted l → Counted (run_all events l)
  unfolding run_all
  run_all-Counted [] l c = c
  run_all-Counted (asked key now ∷ events) l c =
      run_all-Counted events (allow bucket key now l).1 (allow-Counted key now l c)
  run_all-Counted (swept now ∷ events) l c =
      run_all-Counted events (sweep bucket now l) (sweep-Counted now l c)
