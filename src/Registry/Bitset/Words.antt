-- ===== src/Registry/Bitset/Words.antt =====
-- Lemmas on registry/bitset.go: the inner loop of ForEach over one word.
use openadsource.Common.{
  ℕ, zero, suc, ◌+◌, ◌-◌, ◌*◌, ◌/◌, ◌%◌, ◌^◌, ◌<◌, ◌≤◌, ◌≡◌, ◌≢◌, refl, bit_and, Bool, List, [],
  ◌∷◌, ◌==◌, if◌then◌else◌, arith, length, ℕ_discrete,
}
use openadsource.Common.Bits.{bit_and_digit, zero-bit_and, bit}
use native.Mathlib.Nat.{pow-suc}
use openadsource.Common.Keep.{keep, range_from}
use openadsource.Registry.Bitset.{walk, trailing_zeros, ones_count}

-- The positions of the bits of x, of n candidates from base on.
pub positions : ℕ → ℕ → ℕ → List ℕ
positions zero base x = []
positions (suc n) base x =
    if x % 2 == 1 then base ∷ positions n (base + 1) (x / 2) else positions n (base + 1) (x / 2)

positions-zero : (n base : ℕ) → positions n base 0 ≡ []
unfolding positions
positions-zero zero base = refl
positions-zero (suc n) base = positions-zero n (base + 1)

pub length-positions-le : (n base x : ℕ) → length (positions n base x) ≤ n
unfolding positions
length-positions-le zero base x = omega arith
length-positions-le (suc n) base x = ground (arith, length-positions-le n (base + 1) (x / 2))

bit_and_self : (k x : ℕ) → x ≤ k → bit_and x x ≡ x
bit_and_self zero zero h = refl
bit_and_self zero (suc x) h = absurd (omega arith)
bit_and_self (suc k) x h = ground (arith, bit_and_digit x x, bit_and_self k (x / 2))

pub bit_and_le : (k x y : ℕ) → x ≤ k → bit_and x y ≤ x
bit_and_le zero zero y h = omega (arith, zero-bit_and y)
bit_and_le zero (suc x) y h = absurd (omega arith)
bit_and_le (suc k) x y h = ground (arith, bit_and_digit x y, bit_and_le k (x / 2) (y / 2))

-- x & (x - 1) for an even and for an odd x.
half_clear_even : (x : ℕ) → x ≢ 0 → x % 2 ≡ 0 → bit_and x (x - 1) ≡ bit_and (x / 2) (x / 2 - 1) * 2
half_clear_even x h e =
    let d : (x - 1) / 2 ≡ x / 2 - 1 = omega arith in
    let m : (x - 1) % 2 ≡ 1 = omega arith in rw (bit_and_digit x (x - 1), d, m, e) (omega arith)

clear_odd : (x : ℕ) → x % 2 ≡ 1 → bit_and x (x - 1) ≡ x / 2 * 2
clear_odd x e =
    let d : (x - 1) / 2 ≡ x / 2 = omega arith in
    let m : (x - 1) % 2 ≡ 0 = omega arith in
    rw (bit_and_digit x (x - 1), d, m, e) (omega (arith, bit_and_self (x / 2) (x / 2)))

positions_odd :
    (n base x : ℕ) → x % 2 ≡ 1 → positions (suc n) base x ≡ base ∷ positions n (base + 1) (x / 2)
unfolding positions
positions_odd n base x e = ground arith

positions_even :
    (n base x : ℕ) → x % 2 ≡ 0 → positions (suc n) base x ≡ positions n (base + 1) (x / 2)
unfolding positions
positions_even n base x e = ground arith

-- The positions of half of a doubled word.
positions_twice : (n base y : ℕ) → positions (suc n) base (y * 2) ≡ positions n (base + 1) y
positions_twice n base y =
    let half : y * 2 / 2 ≡ y = omega arith in
    let even : y * 2 % 2 ≡ 0 = omega arith in rw (positions_even n base (y * 2) even, half) refl

-- The round of the loop takes off the first position.
positions_round :
    (n base x : ℕ)
    → x ≢ 0
    → x < 2 ^ n
    → positions n base x ≡ (base + trailing_zeros n x) ∷ positions n base (bit_and x (x - 1))
unfolding trailing_zeros
positions_round zero base x h lt = absurd (omega arith)
positions_round (suc n) base x h lt = elim (ℕ_discrete (x % 2) 1) [
  | yes odd ↦ rw (positions_odd n base x odd, clear_odd x odd, positions_twice) (ground arith)
  | no even ↦
      let e : x % 2 ≡ 0 = omega arith in
      let small : x / 2 < 2 ^ n = omega (arith, pow-suc 2 n) in
      let nonzero : x / 2 ≢ 0 = omega arith in
      rw (positions_even n base x e, half_clear_even x h e, positions_twice)
        (ground (arith, positions_round n (base + 1) (x / 2)))
]

-- The inner loop of ForEach visits the bits of the word, all of them, lowest first: as many rounds
-- as there are bits suffice.
walk_rounds :
    (r base x : ℕ)
    → x < 2 ^ 64
    → length (positions 64 base x) ≤ r
    → walk r base x ≡ positions 64 base x
unfolding walk
walk_rounds zero base x lt h = ground arith
walk_rounds (suc r) base x lt h = elim (ℕ_discrete x 0) [
  | yes z ↦ rw z (ground (arith, positions-zero 64 base))
  | no nz ↦
      let round = positions_round 64 base x nz lt in
      let less = bit_and_le x x (x - 1) (omega arith) in
      rw round (ground (arith, walk_rounds r base (bit_and x (x - 1)), round))
]

pub walk-eq-positions : (base x : ℕ) → x < 2 ^ 64 → walk 64 base x ≡ positions 64 base x
walk-eq-positions base x lt = walk_rounds 64 base x lt (length-positions-le 64 base x)

pub positions-eq-keep :
    (p : ℕ → Bool) (n base x : ℕ)
    → ((k : ℕ) → k < n → p (base + k) ≡ bit x k)
    → positions n base x ≡ keep p (range_from base n)
unfolding positions bit
positions-eq-keep p zero base x h = refl
positions-eq-keep p (suc n) base x h =
    let rest = positions-eq-keep p n (base + 1) (x / 2) (λ k lt.
      let e : base + 1 + k ≡ base + suc k = omega arith in rw e (h (suc k) (omega arith))) in
    let first = h 0 (omega arith) in ground (arith, rest, first)

pub ones_count-eq-length : (n base x : ℕ) → ones_count n x ≡ length (positions n base x)
unfolding positions ones_count
ones_count-eq-length zero base x = refl
ones_count-eq-length (suc n) base x = ground (arith, ones_count-eq-length n (base + 1) (x / 2))
