-- ===== src/Common/Keep.antt =====
-- The entries of a range that pass a test, in ascending order.
use Prim.Native.Nat.{ℕ, zero, suc, ◌+◌, ◌<◌, ◌≤◌}
use mathlib.Core.Path.{◌≡◌, refl, ap}
use mathlib.Core.Logic.{inl, inr}
use mathlib.Core.Bool.{Bool, true, false, ◌&&◌, ◌||◌}
use mathlib.Core.List.{List, [], ◌∷◌, ◌++◌}
use native.Mathlib.Omega.{arith}
use native.Mathlib.Decide.{dec_lt}
use openadsource.Common.Tests.{◌==◌, if◌then◌else◌, Bool-cases}
use openadsource.Common.Lists.{In}

-- a, a + 1, …, a + n - 1.
abbrev pub range_from : ℕ → ℕ → List ℕ
range_from a zero = []
range_from a (suc n) = a ∷ range_from (a + 1) n

abbrev pub keep {ℓ} : {A : Type ℓ} → (A → Bool) → List A → List A
keep p [] = []
keep p (x ∷ xs) = if p x then x ∷ keep p xs else keep p xs

module _ {A : Type 0} (p : A → Bool) where
  pub keep-In : (x : A) (xs : List A) → In x (keep p xs) → In x xs × (p x ≡ true)
  keep-In x [] h = absurd h
  keep-In x (y ∷ ys) h = elim (Bool-cases (p y)) [
    | inl e ↦ elim (let kept : In x (y ∷ keep p ys) = rw e at h in kept) [
      | inl q ↦ (inl q, rw q e)
      | inr q ↦ let r = keep-In x ys q in (inr r.0, r.1)
    ]
    | inr e ↦ let rest : In x (keep p ys) = rw e at h in let r = keep-In x ys rest in (inr r.0, r.1)
  ]

  pub In-keep : (x : A) (xs : List A) → In x xs → p x ≡ true → In x (keep p xs)
  In-keep x [] h e = h
  In-keep x (y ∷ ys) (inl q) e = let t : p y ≡ true = rw (← q) e in rw t (inl q)
  In-keep x (y ∷ ys) (inr q) e = elim (Bool-cases (p y)) [
    | inl t ↦ rw t (inr (In-keep x ys q e))
    | inr t ↦ rw t (In-keep x ys q e)
  ]

  pub keep-append : (xs ys : List A) → keep p (xs ++ ys) ≡ keep p xs ++ keep p ys
  keep-append [] ys = refl
  keep-append (x ∷ xs) ys = ground (arith, keep-append xs ys)

  -- Two passes are one pass with both tests.
  pub keep-keep : (q : A → Bool) (xs : List A) → keep q (keep p xs) ≡ keep (λ x. p x && q x) xs
  keep-keep q [] = refl
  keep-keep q (x ∷ xs) = ground (arith, keep-keep q xs)

pub range_from-append : (a n m : ℕ) → range_from a (n + m) ≡ range_from a n ++ range_from (a + n) m
range_from-append a zero m = ground arith
range_from-append a (suc n) m =
    let e : suc n + m ≡ suc (n + m) = omega arith in
    let f : a + suc n ≡ a + 1 + n = omega arith in
    rw (e, f) (ap (λ (l : List ℕ). a ∷ l) (range_from-append (a + 1) n m))

pub range_from-In : (a n x : ℕ) → In x (range_from a n) → (a ≤ x) × (x < a + n)
range_from-In a zero x h = absurd h
range_from-In a (suc n) x (inl e) = omega arith
range_from-In a (suc n) x (inr h) = omega (arith, range_from-In (a + 1) n x h)

pub In-range_from : (a n x : ℕ) → a ≤ x → x < a + n → In x (range_from a n)
In-range_from a zero x h k = absurd (omega arith)
In-range_from a (suc n) x h k = elim (dec_lt a x) [
  | yes more ↦ inr (In-range_from (a + 1) n x (omega arith) (omega arith))
  | no same ↦ inl (omega arith)
]

-- Tests that agree on the entries keep the same ones.
pub keep-eq :
    {A : Type 0} (p q : A → Bool) (xs : List A)
    → ((x : A) → In x xs → p x ≡ q x)
    → keep p xs ≡ keep q xs
keep-eq p q [] h = refl
keep-eq p q (x ∷ xs) h = ground (arith, h x (inl refl), keep-eq p q xs (λ y m. h y (inr m)))

-- Index i is in the list.
unfoldable pub contains : ℕ → List ℕ → Bool
contains i [] = false
contains i (x ∷ xs) = x == i || contains i xs

pub contains-snoc : (i x : ℕ) (xs : List ℕ) → contains i (xs ++ x ∷ []) ≡ (contains i xs || x == i)
unfolding contains
contains-snoc i x [] = ground arith
contains-snoc i x (y ∷ ys) = ground (arith, contains-snoc i x ys)
