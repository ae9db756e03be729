-- ===== src/Registry/Loader/Wild.antt =====
-- Lemmas on registry/loader.go, buildSnapshot: the second pass.
use openadsource.Common.{
  ℕ, ◌*◌, ◌<◌, ◌≡◌, refl, Bool, true, false, none, some, List, [], ◌∷◌, ◌&&◌, ◌||◌, not, Text,
  text_eq, length, arith, ◌∙◌, Bool-cases, inl, inr, text_eq_iff,
}
use openadsource.Common.Dict.{Dict, lookup}
use openadsource.Registry.Bitset.{Bitset}
use openadsource.Registry.Bitset.Sets.{has_bit, IsWords, set_bit_lem}
use openadsource.Registry.Snapshot.{wildcard_key}
use openadsource.Registry.Loader.{set_all, fold_wild}
use openadsource.Registry.Loader.Buckets.{opt_bit, AllSized}
use openadsource.Common.Keep.{contains}

-- Every index of the list is below the bound.
abbrev pub AllBelow : ℕ → List ℕ → Type 0
AllBelow n [] = Unit
AllBelow n (x ∷ xs) = (x < n) × AllBelow n xs

-- A list whose entries are all below a bound.
pub AllBelow-contains :
    (n : ℕ) (xs : List ℕ) → ((i : ℕ) → contains i xs ≡ true → i < n) → AllBelow n xs
unfolding contains
AllBelow-contains n [] h = tt
AllBelow-contains n (x ∷ xs) h =
    (h x (ground arith), AllBelow-contains n xs (λ i e. h i (ground (arith, e))))

set_all_lem :
    (b : Bitset) (is : List ℕ) (size : ℕ)
    → AllBelow (64 * size) is
    → length b ≡ size
    → IsWords b
    → (c : Bitset) × (set_all b is ≡ some c)
      × ((j : ℕ) → has_bit c j ≡ (has_bit b j || contains j is))
      × (length c ≡ size)
      × IsWords c
unfolding set_all contains
set_all_lem b [] size low len words = (b, refl, λ j. ground arith, len, words)
set_all_lem b (i ∷ is) size low len words =
    let (c, e, bits, len', words') = set_bit_lem b i (rw len low.0) words in
    let (d, e', bits', len'', words'') = set_all_lem c is size low.1 (len' ∙ len) words' in
    (d, rw e e', λ j. ground (arith, bits j, bits' j), len'', words'')

-- Whether the map has the key.
abbrev pub has_key : Text → Dict Bitset → Bool
has_key k m = elim (lookup k m) [ none ↦ false | some b ↦ true ]

-- The pass does not fail. It adds the noted indices to each bucket but the wildcard's, and no keys.
pub fold_wild_lem :
    (m : Dict Bitset) (wild : List ℕ) (size : ℕ)
    → AllSized size m
    → AllBelow (64 * size) wild
    → (m' : Dict Bitset) × (fold_wild m wild ≡ some m')
      × ((k : Text) (i : ℕ)
          → opt_bit (lookup k m') i ≡ (
              opt_bit (lookup k m) i
              || has_key k m && not (text_eq k wildcard_key) && contains i wild))
      × ((k : Text) → has_key k m' ≡ has_key k m)
      × AllSized size m'
unfolding fold_wild lookup opt_bit
fold_wild_lem [] wild size shape low = ([], refl, λ k i. refl, λ k. refl, tt)
fold_wild_lem ((k, b) ∷ m) wild size shape low =
    let (m', e, bits, keys, shape') = fold_wild_lem m wild size shape.2 low in
    elim (Bool-cases (text_eq k wildcard_key)) [
      | inl star ↦ (
        (k, b) ∷ m',
        rw (e, star) refl,
        λ j i. ground (arith, text_eq_iff k j, bits j i),
        λ j. ground (arith, keys j),
        (shape.0, shape.1, shape'),
      )
      | inr concrete ↦
          let (c, e', bits', len, words) = set_all_lem b wild size low shape.0 shape.1 in
          (
            (k, c) ∷ m',
            rw (e, concrete) (rw e' refl),
            λ j i. ground (arith, text_eq_iff k j, bits j i, bits' i),
            λ j. ground (arith, keys j),
            (len, words, shape'),
          )
    ]
