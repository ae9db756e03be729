-- ===== src/Registry/Bitset/Sets.antt =====
-- A bitset as the set of indices whose bit is on: what each operation does to that set.
use openadsource.Common.{
  ℕ, zero, suc, ◌*◌, ◌^◌, ◌<◌, ◌≤◌, ◌≡◌, ◌≢◌, refl, bit_or, Bool, false, [], ◌∷◌, none, some, ◌==◌,
  ◌||◌, arith, length, get_elem?, set, get_elem?-lt, lt-get_elem?, ℕ_discrete, get_elem?-set_self,
  length-set, ◌∙◌, get_elem?-set_ne, Option-cases, replicate, inl, inr,
}
use openadsource.Common.Bits.{bit, bit-bit_or, bit-pow, bit_and-pow, bit_or-lt, pow-lt_64, bit-zero}
use openadsource.Registry.Bitset.{Bitset, word_of, offset_of, set_bit, is_set}

-- Index i is in the set; an index past the last word is not.
unfoldable pub has_bit : Bitset → ℕ → Bool
has_bit b i = elim (get_elem? b (word_of i)) [ none ↦ false | some w ↦ bit w (offset_of i) ]

-- Every word is a uint64.
abbrev pub IsWords : Bitset → Type 0
IsWords [] = Unit
IsWords (w ∷ b) = (w < 2 ^ 64) × IsWords b

IsWords-set : (b : Bitset) (i v : ℕ) → IsWords b → v < 2 ^ 64 → IsWords (set b i v)
IsWords-set [] i v h lt = tt
IsWords-set (w ∷ b) zero v h lt = (lt, h.1)
IsWords-set (w ∷ b) (suc i) v h lt = (h.0, IsWords-set b i v h.1 lt)

IsWords-get : (b : Bitset) (i : ℕ) {w : ℕ} → get_elem? b i ≡ some w → IsWords b → w < 2 ^ 64
IsWords-get [] i e h = ground arith
IsWords-get (w ∷ b) zero e h = ground arith
IsWords-get (w ∷ b) (suc i) e h = IsWords-get b i e h.1

-- What is written at a word that is there.
set_bit-eq :
    (b : Bitset) (i : ℕ) (w : ℕ)
    → get_elem? b (word_of i) ≡ some w
    → set_bit b i ≡ some (set b (word_of i) (bit_or w (2 ^ offset_of i)))
unfolding set_bit
set_bit-eq b i w e = rw e (ground (arith, lt-get_elem? b (word_of i) e))

has_bit-some :
    (b : Bitset) (i : ℕ) {w : ℕ}
    → get_elem? b (word_of i) ≡ some w
    → has_bit b i ≡ bit w (offset_of i)
unfolding has_bit
has_bit-some b i e = rw (e, has_bit)

has_bit-same_word :
    (b c : Bitset) (i : ℕ)
    → get_elem? b (word_of i) ≡ get_elem? c (word_of i)
    → has_bit b i ≡ has_bit c i
unfolding has_bit
has_bit-same_word b c i e = rw (e, has_bit)

-- Inside the words, `is_set` reads the set.
pub is_set-has_bit : (b : Bitset) (i : ℕ) → i < 64 * length b → is_set b i ≡ some (has_bit b i)
unfolding is_set
is_set-has_bit b i h =
    let (w, e) = get_elem?-lt b (word_of i) (omega arith) in
    ground (arith, e, has_bit-some b i e, bit_and-pow w (offset_of i))

same_index : (i j : ℕ) → word_of i ≡ word_of j → (offset_of i == offset_of j) ≡ (i == j)
same_index i j e = ground arith

other_index : (i j : ℕ) → word_of i ≢ word_of j → (i == j) ≡ false
other_index i j h = ground arith

has_bit-set :
    (b : Bitset) (i j w : ℕ)
    → get_elem? b (word_of i) ≡ some w
    → has_bit (set b (word_of i) (bit_or w (2 ^ offset_of i))) j ≡ (has_bit b j || i == j)
has_bit-set b i j w e = elim (ℕ_discrete (word_of i) (word_of j)) [
  | yes same ↦
      let there : get_elem? b (word_of j) ≡ some w = rw (← same) e in
      let written : get_elem? (set b (word_of i) (bit_or w (2 ^ offset_of i))) (word_of j)
          ≡ some (bit_or w (2 ^ offset_of i)) =
        rw (← same) (get_elem?-set_self b (word_of i) _ (lt-get_elem? b (word_of i) e)) in
      has_bit-some _ j written
      ∙ bit-bit_or w (2 ^ offset_of i) (offset_of j)
      ∙ rw (has_bit-some b j there, bit-pow (offset_of i) (offset_of j), same_index i j same) refl
  | no other ↦
      has_bit-same_word _ b j (get_elem?-set_ne b (word_of i) (word_of j) _ other)
      ∙ rw (other_index i j other) (ground arith)
]

-- Setting an index inside the words succeeds; it adds that index and no other, and leaves the
-- number of words and their width.
pub set_bit_lem :
    (b : Bitset) (i : ℕ)
    → i < 64 * length b
    → IsWords b
    → (c : Bitset) × (set_bit b i ≡ some c)
      × ((j : ℕ) → has_bit c j ≡ (has_bit b j || i == j))
      × (length c ≡ length b)
      × IsWords c
set_bit_lem b i h words =
    let (w, e) = get_elem?-lt b (word_of i) (omega arith) in
    (
      set b (word_of i) (bit_or w (2 ^ offset_of i)),
      set_bit-eq b i w e,
      λ j. has_bit-set b i j w e,
      length-set b (word_of i) _,
      IsWords-set b (word_of i) _ words (
          bit_or-lt 64 w (2 ^ offset_of i) (IsWords-get b (word_of i) e words)
            (pow-lt_64 (offset_of i) (omega arith))),
    )

has_bit-none : (b : Bitset) (i : ℕ) → get_elem? b (word_of i) ≡ none → has_bit b i ≡ false
unfolding has_bit
has_bit-none b i e = rw (e, has_bit)

pub has_bit-past : (b : Bitset) (i : ℕ) → 64 * length b ≤ i → has_bit b i ≡ false
has_bit-past b i h = elim (Option-cases (get_elem? b (word_of i))) [
  | inl e ↦ has_bit-none b i e
  | inr (w, e) ↦ absurd (omega (arith, lt-get_elem? b (word_of i) e))
]

pub IsWords-replicate : (n : ℕ) → IsWords (replicate n 0)
IsWords-replicate zero = tt
IsWords-replicate (suc n) = (omega arith, IsWords-replicate n)

get_elem?-replicate : (n i : ℕ) {w : ℕ} → get_elem? (replicate n 0) i ≡ some w → w ≡ 0
get_elem?-replicate zero i e = ground arith
get_elem?-replicate (suc n) zero e = ground arith
get_elem?-replicate (suc n) (suc i) e = get_elem?-replicate n i e

-- Words that are all zero are the empty set.
pub has_bit-replicate : (n i : ℕ) → has_bit (replicate n 0) i ≡ false
has_bit-replicate n i = elim (Option-cases (get_elem? {A = ℕ} (replicate n 0) (word_of i))) [
  | inl e ↦ has_bit-none (replicate n 0) i e
  | inr (w, e) ↦
      has_bit-some (replicate n 0) i e
      ∙ rw (get_elem?-replicate n (word_of i) e) (bit-zero (offset_of i))
]
