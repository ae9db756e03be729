-- ===== src/Registry/Loader/Buckets.antt =====
-- One map of bitsets while the ads are indexed: which bits a bucket has.
use openadsource.Common.{
  ℕ, zero, suc, ◌+◌, ◌*◌, ◌/◌, ◌<◌, ◌≡◌, ◌≢◌, refl, Bool, true, false, Option, none, some, List, [],
  ◌∷◌, ◌++◌, ◌==◌, ◌&&◌, ◌||◌, Text, text_eq, length, replicate, arith, member, ◌∙◌,
  length-replicate, text_cases, Option-cases, inl, inr, text_eq_refl, text_ne, Bool-cases,
}
use openadsource.Common.Dict.{Dict, lookup, insert, lookup-insert}
use openadsource.Registry.Bitset.{Bitset, new_bitset}
use openadsource.Registry.Bitset.Sets.{
  has_bit, IsWords, set_bit_lem, has_bit-replicate, IsWords-replicate,
}
use openadsource.Registry.Snapshot.{wildcard_key}
use openadsource.Registry.Loader.{fresh_bitset, ensure, index_under, index_keys, index_targets}
use openadsource.Common.Keep.{contains, contains-snoc}

-- The bit of an optional bitset; the nil slice has none.
unfoldable pub opt_bit : Option Bitset → ℕ → Bool
opt_bit none i = false
opt_bit (some b) i = has_bit b i

-- Every bucket that is in the map has `size` words.
abbrev pub AllSized : ℕ → Dict Bitset → Type 0
AllSized size [] = Unit
AllSized size ((k, b) ∷ m) = (length b ≡ size) × IsWords b × AllSized size m

pub AllSized-lookup :
    (size : ℕ) (m : Dict Bitset) (k : Text) {b : Bitset}
    → AllSized size m
    → lookup k m ≡ some b
    → (length b ≡ size) × IsWords b
unfolding lookup
AllSized-lookup size [] k h e = ground arith
AllSized-lookup size ((j, c) ∷ m) k {b} h e = elim (Bool-cases (text_eq j k)) [
  | inl t ↦ let same : c ≡ b = ground (arith, t, e) in rw (← same) (h.0, h.1)
  | inr t ↦ AllSized-lookup size m k h.2 (ground (arith, t, e))
]

AllSized-insert :
    (size : ℕ) (k : Text) (b : Bitset) (m : Dict Bitset)
    → length b ≡ size
    → IsWords b
    → AllSized size m
    → AllSized size (insert k b m)
unfolding insert
AllSized-insert size k b [] len words h = (len, words, tt)
AllSized-insert size k b ((j, c) ∷ m) len words h = elim (Bool-cases (text_eq j k)) [
  | inl t ↦ rw (t, insert) (len, words, h.2)
  | inr t ↦ rw (t, insert) (h.0, h.1, AllSized-insert size k b m len words h.2)
]

-- Every bucket has `size` words, and its bits are what `f` says.
pub record Indexed (size : ℕ) (m : Dict Bitset) (f : Text → ℕ → Bool) : Type 0 where
  pub sizes : AllSized size m
  pub bits : (k : Text) (i : ℕ) → opt_bit (lookup k m) i ≡ f k i

pub Indexed-eq :
    {size : ℕ} {m : Dict Bitset} {f g : Text → ℕ → Bool}
    → ((k : Text) (i : ℕ) → f k i ≡ g k i)
    → Indexed size m f
    → Indexed size m g
Indexed-eq e v = record { sizes = v.sizes; bits = λ k i. v.bits k i ∙ e k i }

fresh_bitset-eq : (size : ℕ) → fresh_bitset size ≡ replicate size 0
unfolding fresh_bitset new_bitset
fresh_bitset-eq zero = refl
fresh_bitset-eq (suc n) =
    let e : (suc n * 64 + 63) / 64 ≡ suc n = omega arith in
    ground (arith, e, length-replicate {A = ℕ} (suc n) 0)

-- A bucket is replaced by one with the bits that `g` gives it; `g` agrees with `f` at other keys.
insert-Indexed :
    (size : ℕ) (k : Text) (b : Bitset) (m : Dict Bitset) (f g : Text → ℕ → Bool)
    → Indexed size m f
    → (length b ≡ size) × IsWords b
    → ((i : ℕ) → has_bit b i ≡ g k i)
    → ((j : Text) (i : ℕ) → k ≢ j → f j i ≡ g j i)
    → Indexed size (insert k b m) g
unfolding opt_bit
insert-Indexed size k b m f g v shape at_k elsewhere = record {
  sizes = AllSized-insert size k b m shape.0 shape.1 v.sizes;
  bits = λ j i. elim (text_cases k j) [
    | inl (q, t) ↦ rw (lookup-insert k j b m, t) (rw (← q) (at_k i))
    | inr (q, t) ↦ rw (lookup-insert k j b m, t) (v.bits j i ∙ elsewhere j i q)
  ];
}

-- What `ensure` hands out: the bits of the key so far, in a map that is otherwise as before.
EnsuredBucket : ℕ → Text → (Text → ℕ → Bool) → Bitset × Dict Bitset → Type 0
EnsuredBucket size k f (b, m) =
    (length b ≡ size) × IsWords b × ((i : ℕ) → has_bit b i ≡ f k i) × Indexed size m f

ensure_lem :
    (m : Dict Bitset) (k : Text) (size : ℕ) (f : Text → ℕ → Bool)
    → Indexed size m f
    → EnsuredBucket size k f (ensure m k size)
unfolding ensure EnsuredBucket opt_bit
ensure_lem m k size f v = elim (Option-cases (lookup k m)) [
  | inl e ↦
      let empty : (i : ℕ) → false ≡ f k i = λ i. ground (arith, v.bits k i, e) in
      let zeros : (i : ℕ) → has_bit (replicate size 0) i ≡ f k i =
        λ i. has_bit-replicate size i ∙ empty i in
      rw (e, ensure, EnsuredBucket, fresh_bitset-eq size)
        (
          length-replicate size 0,
          IsWords-replicate size,
          zeros,
          insert-Indexed size k (replicate size 0) m f f v
              (length-replicate size 0, IsWords-replicate size) zeros (λ j i _. refl),
        )
  | inr (b, e) ↦
      let shape = AllSized-lookup size m k v.sizes e in
      rw (e, ensure, EnsuredBucket) (shape.0, shape.1, λ i. ground (arith, v.bits k i, e), v)
]

-- One more index under one key, and no other change.
pub index_under_lem :
    (m : Dict Bitset) (k : Text) (size i : ℕ) (f : Text → ℕ → Bool)
    → Indexed size m f
    → i < 64 * size
    → (m' : Dict Bitset) × (index_under m k size i ≡ some m')
      × Indexed size m' (λ j n. f j n || text_eq k j && i == n)
unfolding index_under EnsuredBucket
index_under_lem m k size i f v h =
    let (b, m') = ensure m k size in
    let (len, words, bits, v') = ensure_lem m k size f v in
    let (b', e, added, len', words') = set_bit_lem b i (rw len h) words in
    (
      insert k b' m',
      rw e refl,
      insert-Indexed size k b' m' f (λ j n. f j n || text_eq k j && i == n) v' (len' ∙ len, words')
          (λ n. added n ∙ ground (arith, bits n, text_eq_refl k))
          (λ j n ne. ground (arith, text_ne ne)),
    )

-- One more index under each key of a list.
index_keys_lem :
    (m : Dict Bitset) (ks : List Text) (size i : ℕ) (f : Text → ℕ → Bool)
    → Indexed size m f
    → i < 64 * size
    → (m' : Dict Bitset) × (index_keys m ks size i ≡ some m')
      × Indexed size m' (λ j n. f j n || member j ks && i == n)
unfolding index_keys member
index_keys_lem m [] size i f v h = (m, refl, Indexed-eq (λ j n. ground arith) v)
index_keys_lem m (k ∷ ks) size i f v h =
    let (m', e, v') = index_under_lem m k size i f v h in
    let (m'', e', v'') = index_keys_lem m' ks size i (λ j n. f j n || text_eq k j && i == n) v' h in
    (m'', rw e e', Indexed-eq (λ j n. ground arith) v'')

-- The keys that an ad's list stands for in the first pass.
abbrev pub bucket_keys : List Text → List Text
bucket_keys [] = wildcard_key ∷ []
bucket_keys (k ∷ ks) = k ∷ ks

abbrev pub is_wild : List Text → Bool
is_wild [] = true
is_wild (k ∷ ks) = false

-- One dimension of one ad: its keys get the index, and it is noted if it has no targets.
pub index_targets_lem :
    (m : Dict Bitset) (wild : List ℕ) (ks : List Text) (size i : ℕ) (f : Text → ℕ → Bool)
    → Indexed size m f
    → i < 64 * size
    → (m' : Dict Bitset) × (wild' : List ℕ) × (index_targets (m, wild) ks size i ≡ some (m', wild'))
      × Indexed size m' (λ j n. f j n || member j (bucket_keys ks) && i == n)
      × ((n : ℕ) → contains n wild' ≡ (contains n wild || is_wild ks && i == n))
unfolding index_targets member
index_targets_lem m wild [] size i f v h =
    let (m', e, v') = index_under_lem m wildcard_key size i f v h in
    (
      m',
      wild ++ i ∷ [],
      rw e refl,
      Indexed-eq (λ j n. ground arith) v',
      λ n. contains-snoc n i wild,
    )
index_targets_lem m wild (k ∷ ks) size i f v h =
    let (m', e, v') = index_keys_lem m (k ∷ ks) size i f v h in
    (m', wild, rw e refl, Indexed-eq (λ j n. ground arith) v', λ n. ground arith)

pub Indexed-empty : (size : ℕ) → Indexed size [] (λ k n. false)
unfolding lookup opt_bit
Indexed-empty size = record { sizes = tt; bits = λ k i. refl }
