-- ===== src/Selection/Pick.antt =====
-- Lemmas on selection/select.go: the weighted draw.
use openadsource.Common.{
  ℕ, zero, suc, ◌-◌, ◌≡◌, refl, some, List, [], ◌∷◌, arith, length, get_elem?, ap, if◌then◌else◌,
  get_elem?-lt, In, inl, inr, leb,
}
use openadsource.Common.Int.{pos}
use openadsource.Common.Float.{Float64}
use openadsource.Registry.Snapshot.{Ad}
use openadsource.Selection.{cum_weights, search_floats, pick}
use openadsource.Selection.Candidates.{AllIndices}

In-get_elem? : (xs : List ℕ) (i : ℕ) {x : ℕ} → get_elem? xs i ≡ some x → In x xs
In-get_elem? [] i e = ground arith
In-get_elem? (y ∷ ys) zero e = inl (ground (arith, e))
In-get_elem? (y ∷ ys) (suc i) e = inr (In-get_elem? ys i e)

module _ (fl : Float64) where
  open fl use {F, of_int, add, mul, le}

  cum_weights_total :
      (ads : List (Ad F)) (idxs : List ℕ) (total : F)
      → AllIndices ads idxs
      → (ws : List F) × (sum : F) × (cum_weights fl ads idxs total ≡ some (ws, sum))
        × (length ws ≡ length idxs)
  unfolding cum_weights
  cum_weights_total ads [] total h = ([], total, refl, refl)
  cum_weights_total ads (i ∷ is) total h =
      let (ad, e) = get_elem?-lt ads i h.0 in
      let next =
        add total
          (if le ad.pacing_weight (of_int (pos 0)) then of_int (pos 1) else ad.pacing_weight) in
      let (ws, sum, q, len) = cum_weights_total ads is next h.1 in
      (next ∷ ws, sum, rw e (rw q refl), ap suc len)

  -- From a bucket of ads that is not empty, the draw does not fail and returns one of the bucket,
  -- whatever the random number and the weights.
  pub pick_lem :
      (ads : List (Ad F)) (idx : ℕ) (rest : List ℕ) (roll : F)
      → AllIndices ads (idx ∷ rest)
      → (i : ℕ) × (pick fl ads (idx ∷ rest) roll ≡ some (some i)) × In i (idx ∷ rest)
  unfolding pick
  pick_lem ads idx [] roll h = (idx, refl, inl refl)
  pick_lem ads idx (next ∷ rest) roll h =
      let (ws, sum, e, len) = cum_weights_total ads (idx ∷ next ∷ rest) (of_int (pos 0)) h in
      let i = search_floats fl ws (mul roll sum) in
      let bound = length (idx ∷ next ∷ rest) in
      let at : ℕ = if leb bound i then bound - 1 else i in
      let (x, q) = get_elem?-lt (idx ∷ next ∷ rest) at (ground arith) in
      (x, rw e (rw q refl), In-get_elem? (idx ∷ next ∷ rest) at q)
