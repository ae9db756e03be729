-- ===== src/Common/Slices.antt =====
-- Go slices that share an array with a later one: the array up to the capacity, and a length.
use openadsource.Common.Tests.{ltb, if◌then◌else◌, Bool-cases}
use openadsource.Common.Lists.{length, set, length-set, length-append}
use mathlib.Core.Path.{◌≡◌, refl, ap}
use mathlib.Core.Logic.{inl, inr}
use mathlib.Core.Bool.{true}
use mathlib.Core.List.{List, [], ◌∷◌, ◌++◌}
use native.Mathlib.Omega.{arith}
use Prim.Native.Nat.{ℕ, zero, suc, ◌<◌, ◌≤◌}

module _ {ℓ} {A : Type ℓ} where
  abbrev pub take : ℕ → List A → List A
  take zero xs = []
  take (suc n) [] = []
  take (suc n) (x ∷ xs) = x ∷ take n xs

  abbrev pub drop : ℕ → List A → List A
  drop zero xs = xs
  drop (suc n) [] = []
  drop (suc n) (x ∷ xs) = drop n xs

  pub length-take : (n : ℕ) (xs : List A) → n ≤ length xs → length (take n xs) ≡ n
  length-take zero xs h = refl
  length-take (suc n) [] h = absurd (omega arith)
  length-take (suc n) (x ∷ xs) h = ap suc (length-take n xs (omega arith))

  pub take-set_le : (n i : ℕ) (v : A) (xs : List A) → n ≤ i → take n (set xs i v) ≡ take n xs
  take-set_le zero i v xs h = refl
  take-set_le (suc n) i v [] h = refl
  take-set_le (suc n) zero v (x ∷ xs) h = absurd (omega arith)
  take-set_le (suc n) (suc i) v (x ∷ xs) h = ap (λ l. x ∷ l) (take-set_le n i v xs (omega arith))

  pub take_suc-set :
      (n : ℕ) (v : A) (xs : List A)
      → n < length xs
      → take (suc n) (set xs n v) ≡ take n xs ++ v ∷ []
  take_suc-set n v [] h = absurd (omega arith)
  take_suc-set zero v (x ∷ xs) h = refl
  take_suc-set (suc n) v (x ∷ xs) h = ap (λ l. x ∷ l) (take_suc-set n v xs (omega arith))

  pub drop-set_lt : (n i : ℕ) (v : A) (xs : List A) → i < n → drop n (set xs i v) ≡ drop n xs
  drop-set_lt zero i v xs h = absurd (omega arith)
  drop-set_lt (suc n) i v [] h = refl
  drop-set_lt (suc n) zero v (x ∷ xs) h = refl
  drop-set_lt (suc n) (suc i) v (x ∷ xs) h = drop-set_lt n i v xs (omega arith)

  pub take-append : (xs ys : List A) → take (length xs) (xs ++ ys) ≡ xs
  take-append [] ys = refl
  take-append (x ∷ xs) ys = ap (λ l. x ∷ l) (take-append xs ys)

  pub take_length : (xs : List A) → take (length xs) xs ≡ xs
  take_length [] = refl
  take_length (x ∷ xs) = ap (λ l. x ∷ l) (take_length xs)

fits : (n m k : ℕ) → ltb n m ≡ true → k ≡ m → suc n ≤ k
fits n m k e f = ground (arith, e, f)

pub record Slice {ℓ} (A : Type ℓ) : Type ℓ where
  pub cells : List A
  pub len : ℕ

module _ {ℓ} {A : Type ℓ} where
  -- What the slice holds.
  abbrev pub view : Slice A → List A
  view s = take s.len s.cells

  abbrev pub Fits : Slice A → Type 0
  Fits s = s.len ≤ length s.cells

  -- The slice s[:0].
  abbrev pub emptied : Slice A → Slice A
  emptied s = record { cells = s.cells; len = 0 }

  -- append: into the array, or into a larger one, whose further cells the runtime chooses.
  unfoldable pub append : List A → A → Slice A → Slice A
  append spare x s =
      if ltb s.len (length s.cells)
      then record { cells = set s.cells s.len x; len = suc s.len }
      else record { cells = view s ++ x ∷ spare; len = suc s.len }

  grown :
      (n : ℕ) (x : A) (spare l : List A)
      → length l ≡ n
      → take (suc n) (l ++ x ∷ spare) ≡ l ++ x ∷ []
  grown zero x spare [] e = refl
  grown zero x spare (y ∷ l) e = absurd (omega (arith, e))
  grown (suc n) x spare [] e = absurd (omega (arith, e))
  grown (suc n) x spare (y ∷ l) e = ap (λ r. y ∷ r) (grown n x spare l (omega (arith, e)))

  pub append-view :
      (spare : List A) (x : A) (s : Slice A)
      → Fits s
      → (view (append spare x s) ≡ view s ++ x ∷ []) × Fits (append spare x s)
  unfolding append
  append-view spare x s h = elim (Bool-cases (ltb s.len (length s.cells))) [
    | inl e ↦ rw e (
      take_suc-set s.len x s.cells (ground (arith, e)),
      fits s.len (length s.cells) _ e (length-set s.cells s.len x),
    )
    | inr e ↦ rw e (
      grown s.len x spare (view s) (length-take s.len s.cells h),
      omega (arith, length-append (view s) (x ∷ spare), length-take s.len s.cells h),
    )
  ]
