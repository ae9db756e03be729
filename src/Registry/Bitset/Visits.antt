-- ===== src/Registry/Bitset/Visits.antt =====
-- Lemmas on registry/bitset.go: ForEach and PopCount.
use openadsource.Common.{
  ℕ, suc, ◌+◌, ◌*◌, ◌/◌, ◌%◌, ◌<◌, ◌≡◌, refl, ◌∙◌, [], ◌∷◌, Bool, arith, length, length-append,
}
use openadsource.Common.Bits.{bit}
use openadsource.Common.Keep.{keep, range_from, keep-append, range_from-append}
use openadsource.Registry.Bitset.{Bitset, for_each, for_each_at, pop_count}
use openadsource.Registry.Bitset.Words.{
  walk-eq-positions, positions-eq-keep, ones_count-eq-length, positions,
}
use openadsource.Registry.Bitset.Sets.{has_bit, IsWords}

has_bit-head : (x : ℕ) (b : Bitset) (k : ℕ) → k < 64 → has_bit (x ∷ b) k ≡ bit x k
unfolding has_bit
has_bit-head x b k h =
    let q : k / 64 ≡ 0 = omega arith in let r : k % 64 ≡ k = omega arith in rw (q, r, has_bit) refl

has_bit-tail : (x : ℕ) (b : Bitset) (k : ℕ) → has_bit (x ∷ b) (64 + k) ≡ has_bit b k
unfolding has_bit
has_bit-tail x b k =
    let q : (64 + k) / 64 ≡ suc (k / 64) = omega arith in
    let r : (64 + k) % 64 ≡ k % 64 = omega arith in ground (arith, q, r)

for_each_at-eq-keep :
    (p : ℕ → Bool) (w : ℕ) (b : Bitset)
    → IsWords b
    → ((k : ℕ) → p (w * 64 + k) ≡ has_bit b k)
    → for_each_at w b ≡ keep p (range_from (w * 64) (64 * length b))
unfolding for_each_at
for_each_at-eq-keep p w [] h same = refl
for_each_at-eq-keep p w (x ∷ b) h same =
    let split : 64 * length (x ∷ b) ≡ 64 + 64 * length b = omega arith in
    let next : w * 64 + 64 ≡ (w + 1) * 64 = omega arith in
    let first =
      walk-eq-positions (w * 64) x h.0
      ∙ positions-eq-keep p 64 (w * 64) x (λ k lt. same k ∙ has_bit-head x b k lt) in
    let rest = for_each_at-eq-keep p (w + 1) b h.1 (λ k.
      let e : (w + 1) * 64 + k ≡ w * 64 + (64 + k) = omega arith in
      rw e (same (64 + k) ∙ has_bit-tail x b k)) in
    rw (split, range_from-append (w * 64) 64 (64 * length b), keep-append, next, first, rest) refl

-- Over uint64 words, ForEach calls `fn` for each member, in ascending order and once.
pub for_each-eq-keep :
    (b : Bitset) → IsWords b → for_each b ≡ keep (has_bit b) (range_from 0 (64 * length b))
unfolding for_each
for_each-eq-keep b h =
    for_each_at-eq-keep (has_bit b) 0 b h (λ k. let e : 0 * 64 + k ≡ k = omega arith in rw e refl)

pop_count_at : (w : ℕ) (b : Bitset) → IsWords b → pop_count b ≡ length (for_each_at w b)
unfolding pop_count for_each_at
pop_count_at w [] h = refl
pop_count_at w (x ∷ b) h = rw (walk-eq-positions (w * 64) x h.0) (
    omega (
      arith,
      length-append (positions 64 (w * 64) x) (for_each_at (w + 1) b),
      ones_count-eq-length 64 (w * 64) x,
      pop_count_at (w + 1) b h.1,
    ))

-- PopCount is the number of the calls that ForEach makes.
pop_count-eq-length : (b : Bitset) → IsWords b → pop_count b ≡ length (for_each b)
unfolding for_each
pop_count-eq-length b h = pop_count_at 0 b h
