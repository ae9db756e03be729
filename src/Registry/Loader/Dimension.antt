-- ===== src/Registry/Loader/Dimension.antt =====
-- One targeting dimension of a finished snapshot: what a request's key selects.
use openadsource.Common.{
  ℕ, ◌+◌, ◌≤◌, ◌≡◌, ◌≢◌, refl, Bool, true, false, Option, none, some, List, [], ◌∷◌, if◌then◌else◌,
  ◌&&◌, ◌||◌, not, Text, text_eq, length, arith, member, get_elem?, text_eq_refl, sym, ◌∙◌,
  Option-cases, text_cases, text_ne, inl, Bool-cases, inr, get_elem?-none,
}
use openadsource.Common.Dict.{Dict, lookup}
use openadsource.Registry.Bitset.{Bitset}
use openadsource.Registry.Snapshot.{wildcard_key, or_wildcard}
use openadsource.Registry.Loader.Buckets.{Indexed, bucket_keys, is_wild, opt_bit}
use openadsource.Registry.Loader.Loop.{
  posted, untargeted, posted-get_elem?, posted_past, untargeted-get_elem?, untargeted_past,
}
use openadsource.Registry.Loader.Wild.{has_key}
use openadsource.Common.Keep.{contains}

-- An allowlist lets a key through if it is empty or has the key.
unfoldable pub allows : List Text → Text → Bool
allows ks k = is_wild ks || member k ks

-- The allowlist names neither the wildcard nor the empty key.
abbrev pub IsPlain : List Text → Type 0
IsPlain ks = (member wildcard_key ks ≡ false) × (member [] ks ≡ false)

wild_member : (ks : List Text) → IsPlain ks → member wildcard_key (bucket_keys ks) ≡ is_wild ks
unfolding member
wild_member [] h = ground (arith, text_eq_refl wildcard_key)
wild_member (k ∷ ks) h = h.0

concrete_member :
    (k : Text) (ks : List Text)
    → k ≢ wildcard_key
    → (member k (bucket_keys ks) || is_wild ks) ≡ allows ks k
unfolding member allows
concrete_member k [] ne = ground arith
concrete_member k (j ∷ ks) ne = ground arith

absent_member :
    (k : Text) (ks : List Text) → member k (bucket_keys ks) ≡ false → allows ks k ≡ is_wild ks
unfolding allows member
absent_member k [] e = refl
absent_member k (j ∷ ks) e = e

empty_member : (ks : List Text) → IsPlain ks → allows ks [] ≡ is_wild ks
unfolding allows
empty_member ks h = ground (arith, h.1)

abbrev pub matching : Dict Bitset → Text → Option Bitset
matching m k = if text_eq k [] then lookup wildcard_key m else or_wildcard (lookup k m) m

has_key-some : (k : Text) (m : Dict Bitset) {b : Bitset} → lookup k m ≡ some b → has_key k m ≡ true
has_key-some k m e = rw (e, has_key)

opt_bit-none :
    (m : Dict Bitset) (k : Text) (i : ℕ) → lookup k m ≡ none → opt_bit (lookup k m) i ≡ false
unfolding opt_bit
opt_bit-none m k i e = rw e refl

module _ {A : Type 0} (targets : A → List Text) (out : List A) (size : ℕ) (m m' : Dict Bitset)
    (wild : List ℕ)
    (first : Indexed size m (λ k n. posted (λ a. bucket_keys (targets a)) 0 out k n))
    (free : (n : ℕ) → contains n wild ≡ untargeted targets 0 out n)
    (second : (k : Text) (i : ℕ)
      → opt_bit (lookup k m') i ≡ (
          opt_bit (lookup k m) i || has_key k m && not (text_eq k wildcard_key) && contains i wild))
    (keys : (k : Text) → has_key k m' ≡ has_key k m) where
  first_bit :
      (k : Text) (i : ℕ) {a : A}
      → get_elem? out i ≡ some a
      → opt_bit (lookup k m) i ≡ member k (bucket_keys (targets a))
  first_bit k i e =
      let z : i ≡ 0 + i = omega arith in
      first.bits k i ∙ rw z (posted-get_elem? (λ a. bucket_keys (targets a)) 0 i out k e)

  noted_bit : (i : ℕ) {a : A} → get_elem? out i ≡ some a → contains i wild ≡ is_wild (targets a)
  noted_bit i e =
      let z : i ≡ 0 + i = omega arith in free i ∙ rw z (untargeted-get_elem? targets 0 i out e)

  wildcard_bit :
      (i : ℕ) (a : A)
      → get_elem? out i ≡ some a
      → IsPlain (targets a)
      → opt_bit (lookup wildcard_key m') i ≡ is_wild (targets a)
  wildcard_bit i a e plain = ground (
    arith,
    second wildcard_key i,
    first_bit wildcard_key i e,
    text_eq_refl wildcard_key,
    wild_member (targets a) plain,
  )

  concrete_bit :
      (k : Text) (i : ℕ) (a : A)
      → get_elem? out i ≡ some a
      → k ≢ wildcard_key
      → has_key k m' ≡ true
      → opt_bit (lookup k m') i ≡ allows (targets a) k
  concrete_bit k i a e ne present =
      let here : has_key k m ≡ true = sym (keys k) ∙ present in
      second k i
      ∙ rw (first_bit k i e, noted_bit i e, here, text_ne ne) (concrete_member k (targets a) ne)

  -- For an ad that is there, the selected bit is what its allowlist says.
  matching_bit :
      (k : Text) (i : ℕ) (a : A)
      → get_elem? out i ≡ some a
      → IsPlain (targets a)
      → k ≢ wildcard_key
      → opt_bit (matching m' k) i ≡ allows (targets a) k
  unfolding or_wildcard
  matching_bit k i a e plain ne = elim (text_cases k []) [
    | inl (z, t) ↦ rw t (wildcard_bit i a e plain ∙ sym (rw z (empty_member (targets a) plain)))
    | inr (_, t) ↦ elim (Option-cases (lookup k m')) [
      | inl none_here ↦
          let no_bits = opt_bit-none m' k i none_here in
          let no_bit : member k (bucket_keys (targets a)) ≡ false =
            ground (arith, first_bit k i e, second k i, no_bits) in
          rw (t, none_here, or_wildcard)
            (wildcard_bit i a e plain ∙ sym (absent_member k (targets a) no_bit))
      | inr (b, here) ↦
          let present = has_key-some k m' here in
          rw (t, here, or_wildcard) (rw (← here) (concrete_bit k i a e ne present))
    ]
  ]

  past_bit : (k : Text) (i : ℕ) → length out ≤ i → opt_bit (lookup k m') i ≡ false
  past_bit k i h = ground (
    arith,
    second k i,
    first.bits k i,
    free i,
    posted_past (λ a. bucket_keys (targets a)) 0 out k i,
    untargeted_past targets 0 out i,
  )

  -- Past the last ad no bit is selected.
  matching_past : (k : Text) (i : ℕ) → length out ≤ i → opt_bit (matching m' k) i ≡ false
  unfolding or_wildcard
  matching_past k i h = elim (Bool-cases (text_eq k [])) [
    | inl t ↦ rw t (past_bit wildcard_key i h)
    | inr t ↦ elim (Option-cases (lookup k m')) [
      | inl none_here ↦ rw (t, none_here, or_wildcard) (past_bit wildcard_key i h)
      | inr (b, here) ↦ rw (t, here, or_wildcard) (rw (← here) (past_bit k i h))
    ]
  ]

  -- The selected bit is the allowlist's answer, for each ad and no further.
  pub matching_lem :
      (k : Text) (i : ℕ)
      → ((a : A) → get_elem? out i ≡ some a → IsPlain (targets a))
      → k ≢ wildcard_key
      → opt_bit (matching m' k) i
        ≡ elim (get_elem? out i) [ none ↦ false | some a ↦ allows (targets a) k ]
  matching_lem k i plain ne = elim (Option-cases (get_elem? out i)) [
    | inl e ↦ rw e (matching_past k i (get_elem?-none out i e))
    | inr (a, e) ↦ rw e (matching_bit k i a e (plain a e) ne)
  ]
