-- ===== src/Selection/Eligible.antt =====
-- Lemmas on selection/select.go: what it means that an ad may be served.
use openadsource.Common.{
  ℕ, zero, suc, ◌<◌, ◌≡◌, refl, Bool, true, false, Option, none, some, List, [], ◌∷◌, ◌&&◌, arith,
  length, get_elem?, In, inl, inr, Text, text_eq, Option-cases, Bool-cases, lt-get_elem?,
}
use openadsource.Common.Int.{◌≤ℤ◌, IsInt32}
use openadsource.Common.Dict.{Dict, lookup}
use openadsource.Registry.Bitset.{Bitset}
use openadsource.Registry.Bitset.Sets.{IsWords}
use openadsource.Registry.Snapshot.{Ad, Snapshot, wildcard_key, or_wildcard}
use openadsource.Registry.Loader.{position_key}
use openadsource.Registry.Loader.Buckets.{AllSized, AllSized-lookup}
use openadsource.Registry.Loader.Dimension.{allows, matching}
use openadsource.Registry.Loader.Built.{on_ad}
use openadsource.Selection.{Request}
use openadsource.Selection.Candidates.{admitted, AllIndices}
use openadsource.Selection.Rank.{priority_of}

pub matching-sized :
    (size : ℕ) (m : Dict Bitset) (k : Text) {b : Bitset}
    → AllSized size m
    → matching m k ≡ some b
    → (length b ≡ size) × IsWords b
unfolding or_wildcard
matching-sized size m k {b} h e = elim (Bool-cases (text_eq k [])) [
  | inl t ↦ AllSized-lookup size m wildcard_key h (ground (arith, t, e))
  | inr t ↦ elim (Option-cases (lookup k m)) [
    | inl q ↦ AllSized-lookup size m wildcard_key h (ground (arith, t, q, e))
    | inr (c, q) ↦ AllSized-lookup size m k h (ground (arith, t, q, e))
  ]
]

module _ {F : Type 0} where
  -- Ad i may be served: its row admits the position, country and device of the request, it is not
  -- excluded, and a mid-roll is near the requested offset.
  unfoldable pub eligible : Snapshot F → Request → ℕ → Bool
  eligible snap req i = on_ad snap.ads i λ ad.
      (text_eq (position_key ad.position_type) req.position
        && allows ad.countries req.country
        && allows ad.devices req.device)
      && admitted req i ad

  -- A best choice: an eligible ad of the highest priority, or none where no ad is eligible.
  abbrev pub IsBest : Snapshot F → Request → Option ℕ → Type 0
  IsBest snap req none = (j : ℕ) → eligible snap req j ≡ false
  IsBest snap req (some i) =
      (eligible snap req i ≡ true)
      × ((j : ℕ) → eligible snap req j ≡ true → priority_of snap.ads j ≤ℤ priority_of snap.ads i)

  abbrev pub AllInt32 : List (Ad F) → Type 0
  AllInt32 [] = Unit
  AllInt32 (ad ∷ ads) = IsInt32 ad.priority × AllInt32 ads

  pub AllInt32-priority_of :
      (ads : List (Ad F)) (i : ℕ) → AllInt32 ads → IsInt32 (priority_of ads i)
  AllInt32-priority_of [] i h = omega arith
  AllInt32-priority_of (ad ∷ ads) zero h = h.0
  AllInt32-priority_of (ad ∷ ads) (suc i) h = AllInt32-priority_of ads i h.1

  pub eligible-lt :
      (snap : Snapshot F) (req : Request) (i : ℕ) → eligible snap req i ≡ true → i < length snap.ads
  unfolding eligible
  eligible-lt snap req i h = elim (Option-cases (get_elem? snap.ads i)) [
    | inl e ↦ absurd (ground (arith, e))
    | inr (ad, e) ↦ lt-get_elem? snap.ads i e
  ]

  pub on_ad-lt :
      (ads : List (Ad F)) (i : ℕ) (test : Ad F → Bool) → on_ad ads i test ≡ true → i < length ads
  on_ad-lt ads i test h = elim (Option-cases (get_elem? ads i)) [
    | inl e ↦ absurd (ground (arith, e))
    | inr (ad, e) ↦ lt-get_elem? ads i e
  ]

  pub AllIndices-In :
      (ads : List (Ad F)) (xs : List ℕ) → ((i : ℕ) → In i xs → i < length ads) → AllIndices ads xs
  AllIndices-In ads [] h = tt
  AllIndices-In ads (x ∷ xs) h = (h x (inl refl), AllIndices-In ads xs (λ i m. h i (inr m)))

  pub In-AllIndices :
      (ads : List (Ad F)) (xs : List ℕ) (i : ℕ) → AllIndices ads xs → In i xs → i < length ads
  In-AllIndices ads [] i h m = absurd m
  In-AllIndices ads (x ∷ xs) i h (inl e) = rw e h.0
  In-AllIndices ads (x ∷ xs) i h (inr m) = In-AllIndices ads xs i h.1 m
