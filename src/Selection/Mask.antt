-- ===== src/Selection/Mask.antt =====
-- Lemmas on selection/select.go: the three-way AND.
use openadsource.Common.{
  ℕ, zero, suc, ◌≡◌, refl, bit_and, Bool, false, none, some, [], ◌∷◌, ◌&&◌, arith, length,
  get_elem?, ap,
}
use openadsource.Common.Bits.{bit, bit-bit_and}
use openadsource.Registry.Bitset.{Bitset, word_of, offset_of}
use openadsource.Registry.Bitset.Sets.{has_bit, IsWords}
use openadsource.Selection.{intersect}
use openadsource.Registry.Bitset.Words.{bit_and_le}

abbrev bit_at : Bitset → ℕ → ℕ → Bool
bit_at b k o = elim (get_elem? b k) [ none ↦ false | some w ↦ bit w o ]

intersect_each :
    (n : ℕ) (p c d : Bitset)
    → length p ≡ n
    → length c ≡ n
    → length d ≡ n
    → IsWords p
    → (m : Bitset) × (intersect n p c d ≡ some m)
      × (length m ≡ n)
      × IsWords m
      × ((k o : ℕ) → bit_at m k o ≡ (bit_at p k o && bit_at c k o && bit_at d k o))
unfolding intersect
intersect_each zero [] [] [] lp lc ld h = ([], refl, refl, tt, λ k o. refl)
intersect_each zero (x ∷ p) c d lp lc ld h = absurd (omega arith)
intersect_each zero [] (y ∷ c) d lp lc ld h = absurd (omega arith)
intersect_each zero [] [] (z ∷ d) lp lc ld h = absurd (omega arith)
intersect_each (suc n) [] c d lp lc ld h = absurd (omega arith)
intersect_each (suc n) (x ∷ p) [] d lp lc ld h = absurd (omega arith)
intersect_each (suc n) (x ∷ p) (y ∷ c) [] lp lc ld h = absurd (omega arith)
intersect_each (suc n) (x ∷ p) (y ∷ c) (z ∷ d) lp lc ld h =
    let (m, e, len, words, bits) =
      intersect_each n p c d (omega arith) (omega arith) (omega arith) h.1 in
    (
      bit_and (bit_and x y) z ∷ m,
      rw e refl,
      ap suc len,
      (
        omega (
          arith,
          h.0,
          bit_and_le x x y (omega arith),
          bit_and_le (bit_and x y) (bit_and x y) z (omega arith),
        ),
        words,
      ),
      elim [
        | zero ↦ λ o. ground (arith, bit-bit_and (bit_and x y) z o, bit-bit_and x y o)
        | suc k ↦ λ o. bits k o
      ],
    )

-- Over bitsets of the snapshot's size the loop does not fail, and computes the intersection.
pub intersect_lem :
    (n : ℕ) (p c d : Bitset)
    → length p ≡ n
    → length c ≡ n
    → length d ≡ n
    → IsWords p
    → (m : Bitset) × (intersect n p c d ≡ some m)
      × (length m ≡ n)
      × IsWords m
      × ((i : ℕ) → has_bit m i ≡ (has_bit p i && has_bit c i && has_bit d i))
unfolding has_bit
intersect_lem n p c d lp lc ld h =
    let (m, e, len, words, bits) = intersect_each n p c d lp lc ld h in
    (m, e, len, words, λ i. bits (word_of i) (offset_of i))
