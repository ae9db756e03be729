-- ===== src/Selection/Candidates.antt =====
-- The candidates that the callback collects.
use openadsource.Common.{
  ℕ, ◌<◌, ◌≡◌, refl, Bool, false, not, none, some, List, [], ◌∷◌, ◌&&◌, ◌||◌, arith, length,
  get_elem?, text_eq, codes, get_elem?-lt,
}
use openadsource.Common.Keep.{keep, contains}
use openadsource.Registry.Snapshot.{Ad}
use openadsource.Selection.{Request, admits, collect, in_window}

module _ {F : Type 0} where
  -- What the request asks of an ad beyond the three sets.
  pub admitted : Request → ℕ → Ad F → Bool
  admitted req idx ad =
      not (contains idx req.exclude)
      && (not (text_eq req.position (codes "mid")) || in_window ad.mid_roll_offset req.offset)

  abbrev pub admits_at : List (Ad F) → Request → ℕ → Bool
  admits_at ads req idx = elim (get_elem? ads idx) [ none ↦ false | some ad ↦ admitted req idx ad ]

  admits_lem :
      (ads : List (Ad F)) (req : Request) (idx : ℕ)
      → idx < length ads
      → admits ads req idx ≡ some (admits_at ads req idx)
  unfolding admits admitted
  admits_lem ads req idx h = let (ad, e) = get_elem?-lt ads idx h in ground (arith, e)

  abbrev pub AllIndices : List (Ad F) → List ℕ → Type 0
  AllIndices ads [] = Unit
  AllIndices ads (i ∷ is) = (i < length ads) × AllIndices ads is

  -- Over indices of ads the callback does not fail, and keeps the admitted ones in their order.
  pub collect_lem :
      (ads : List (Ad F)) (req : Request) (idxs : List ℕ)
      → AllIndices ads idxs
      → collect ads req idxs ≡ some (keep (admits_at ads req) idxs)
  unfolding collect
  collect_lem ads req [] h = refl
  collect_lem ads req (i ∷ is) h =
      rw (admits_lem ads req i h.0) (rw (collect_lem ads req is h.1) (ground arith))
