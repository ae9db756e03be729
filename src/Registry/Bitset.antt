-- ===== src/Registry/Bitset.antt =====
-- server/internal/registry/bitset.go. A word is a number below 2 ^ 64; `none` is Go's index panic.
pub mod Words
pub mod Sets
pub mod Visits
use openadsource.Common.{
  ℕ, zero, suc, ◌+◌, ◌-◌, ◌*◌, ◌/◌, ◌%◌, ◌^◌, bit_and, bit_or, Bool, not, Option, none, some, List,
  [], ◌∷◌, ◌++◌, map, ◌==◌, if◌then◌else◌, ◌>>=◌, get_elem?, set?, replicate,
}

abbrev pub Bitset : Type 0
Bitset = List ℕ

-- `none` is the nil slice.
unfoldable pub new_bitset : ℕ → Option Bitset
new_bitset n = if n == 0 then none else some (replicate ((n + 63) / 64) 0)

-- i >> 6 and i & 63.
abbrev pub word_of : ℕ → ℕ
word_of i = i / 64

abbrev pub offset_of : ℕ → ℕ
offset_of i = i % 64

unfoldable pub set_bit : Bitset → ℕ → Option Bitset
set_bit b i = do w ← get_elem? b (word_of i); set? b (word_of i) (bit_or w (2 ^ offset_of i))

unfoldable pub is_set : Bitset → ℕ → Option Bool
is_set b i = do w ← get_elem? b (word_of i); some (not (bit_and w (2 ^ offset_of i) == 0))

unfoldable pub clear : Bitset → Bitset
clear b = map (λ _. 0) b

-- The loop runs over the words of `dst`, which the result replaces.
unfoldable pub and_into : Bitset → Bitset → Bitset → Option Bitset
and_into a b [] = some []
and_into (x ∷ a) (y ∷ b) (d ∷ dst) = do rest ← and_into a b dst; some (bit_and x y ∷ rest)
and_into _ _ (d ∷ dst) = none

unfoldable pub or_into : Bitset → Bitset → Bitset → Option Bitset
or_into a b [] = some []
or_into (x ∷ a) (y ∷ b) (d ∷ dst) = do rest ← or_into a b dst; some (bit_or x y ∷ rest)
or_into _ _ (d ∷ dst) = none

-- `copy` moves as many words as both slices have.
unfoldable pub copy_into : Bitset → Bitset → Bitset
copy_into (x ∷ src) (d ∷ dst) = x ∷ copy_into src dst
copy_into _ dst = dst

unfoldable pub and_assign : Bitset → Bitset → Option Bitset
and_assign [] src = some []
and_assign (d ∷ dst) [] = none
and_assign (d ∷ dst) (x ∷ src) = do rest ← and_assign dst src; some (bit_and d x ∷ rest)

unfoldable pub or_assign : Bitset → Bitset → Option Bitset
or_assign [] src = some []
or_assign (d ∷ dst) [] = none
or_assign (d ∷ dst) (x ∷ src) = do rest ← or_assign dst src; some (bit_or d x ∷ rest)

-- bits.OnesCount64, over the n lowest bits.
pub ones_count : ℕ → ℕ → ℕ
ones_count zero x = 0
ones_count (suc n) x = x % 2 + ones_count n (x / 2)

unfoldable pub pop_count : Bitset → ℕ
unfolding ones_count
pop_count [] = 0
pop_count (w ∷ b) = ones_count 64 w + pop_count b

-- bits.TrailingZeros64, over the n lowest bits.
unfoldable pub trailing_zeros : ℕ → ℕ → ℕ
trailing_zeros zero x = 0
trailing_zeros (suc n) x = let rest = trailing_zeros n (x / 2) in if x % 2 == 1 then 0 else suc rest

-- The inner loop of ForEach, `for x != 0`: the indices that `fn` is called with. Each round clears
-- one bit, so a word takes at most 64 rounds.
pub walk : ℕ → ℕ → ℕ → List ℕ
walk zero base x = []
walk (suc rounds) base x =
    let rest = walk rounds base (bit_and x (x - 1)) in
    if x == 0 then [] else (base + trailing_zeros 64 x) ∷ rest

pub for_each_at : ℕ → Bitset → List ℕ
for_each_at w [] = []
for_each_at w (x ∷ b) = walk 64 (w * 64) x ++ for_each_at (w + 1) b

-- The indices that ForEach hands to `fn`, in the order of the calls.
unfoldable pub for_each : Bitset → List ℕ
unfolding for_each_at walk trailing_zeros
for_each b = for_each_at 0 b
