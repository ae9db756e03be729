-- ===== src/Limit/Full.antt =====
-- Lemmas on httpmw/ratelimit.go: the eviction of Allow.
use openadsource.Common.{
  suc, ◌≤◌, ◌≡◌, refl, Bool, true, false, List, [], ◌∷◌, inl, inr, ◌||◌, ◌&&◌, arith, length, Text,
  Bool-cases, if◌then◌else◌,
}
use openadsource.Common.Int.{ℤ, pos, ltb_ℤ, leb_ℤ, ◌-ℤ◌}
use openadsource.Limit.{Bucket, Limiter, Visitor, evict_one, admit, allow}
use openadsource.Limit.Size.{touch_lem, evict_one_lem}

module _ (bucket : Bucket) where
  -- Some visitor was last seen before the cutoff.
  unfoldable pub any_idle : ℤ → List (Text × Visitor bucket) → Bool
  any_idle cutoff [] = false
  any_idle cutoff ((k, v) ∷ bag) = ltb_ℤ v.last_seen cutoff || any_idle cutoff bag

  evict_one-found :
      (cutoff : ℤ) (bag : List (Text × Visitor bucket))
      → (evict_one bucket cutoff bag).0 ≡ any_idle cutoff bag
  unfolding evict_one any_idle
  evict_one-found cutoff [] = refl
  evict_one-found cutoff ((k, v) ∷ bag) =
      let rest = evict_one-found cutoff bag in ground (arith, rest)

  admit-size :
      (key : Text) (now : ℤ) (l : Limiter bucket)
      → (length (admit bucket key now l).1.bag ≤ suc (length l.bag))
        × (leb_ℤ l.bound l.approx_size ≡ true
            → any_idle (now -ℤ pos 60) l.bag ≡ true
            → length (admit bucket key now l).1.bag ≤ length l.bag)
  unfolding admit
  admit-size key now l =
      let (less, count) = evict_one_lem bucket (now -ℤ pos 60) l.bag in
      let found = evict_one-found (now -ℤ pos 60) l.bag in
      elim (Bool-cases (leb_ℤ l.bound l.approx_size)) [
        | inr f ↦ rw f (omega arith, λ t i. absurd (ground (arith, t)))
        | inl t ↦ rw t (elim count [
          | inl (e, n) ↦ (omega (arith, n), λ u i. omega (arith, n))
          | inr (e, n) ↦ (omega (arith, n), λ u i. absurd (ground (arith, e, found, i)))
        ])
      ]

  allow-size_cases :
      (key : Text) (now : ℤ) (l : Limiter bucket)
      → (length (allow bucket key now l).1.bag ≤ suc (length l.bag))
        × (leb_ℤ l.bound l.approx_size ≡ true
            → any_idle (now -ℤ pos 60) l.bag ≡ true
            → length (allow bucket key now l).1.bag ≤ length l.bag)
  unfolding allow
  allow-size_cases key now l = elim (Bool-cases (bucket.positive l.rate)) [
    | inr f ↦ rw f (omega arith, λ t i. omega arith)
    | inl t ↦ rw t (elim (touch_lem bucket key now l.bag) [
      | inl (e, absent) ↦ rw e (admit-size key now l)
      | inr (ok, out, e, len, same, keeps) ↦ rw e (omega (arith, len), λ u i. omega (arith, len))
    ])
  ]

  -- A request adds at most one visitor, and none where the limiter is full and a visitor has been
  -- idle for more than 60 seconds.
  pub allow-size :
      (key : Text) (now : ℤ) (l : Limiter bucket)
      → length (allow bucket key now l).1.bag ≤ (
          if leb_ℤ l.bound l.approx_size && any_idle (now -ℤ pos 60) l.bag
          then length l.bag
          else suc (length l.bag))
  allow-size key now l =
      let (most, none_new) = allow-size_cases key now l in
      elim (Bool-cases (leb_ℤ l.bound l.approx_size)) [
        | inr f ↦ rw f most
        | inl t ↦ elim (Bool-cases (any_idle (now -ℤ pos 60) l.bag)) [
          | inr f ↦ rw (t, f) most
          | inl i ↦ rw (t, i) (none_new t i)
        ]
      ]
