-- ===== src/Selection/Rank.antt =====
-- Lemmas on selection/rank.go: the top bucket.
use openadsource.Common.{
  ℕ, ◌≡◌, refl, none, some, List, [], ◌∷◌, arith, get_elem?, if◌then◌else◌, get_elem?-lt, In, inl,
  inr, ◌⊎◌, Bool-cases, ◌∙◌, sym,
}
use openadsource.Common.Int.{
  ℤ, negsuc, pos, ◌≤ℤ◌, ltb_ℤ, eqb_ℤ, eqb_ℤ-eq, IsInt32, eqb_ℤ-refl, ≤ℤ_antisym,
}
use openadsource.Registry.Snapshot.{Ad}
use openadsource.Selection.{max_priority, with_priority, top_priority}
use openadsource.Selection.Candidates.{AllIndices}

module _ {F : Type 0} where
  abbrev pub priority_of : List (Ad F) → ℕ → ℤ
  priority_of ads i = elim (get_elem? ads i) [ none ↦ pos 0 | some ad ↦ ad.priority ]

  -- The scan's result is at least each priority, and is the start or one of them.
  max_priority_lem :
      (ads : List (Ad F)) (idxs : List ℕ) (start : ℤ)
      → AllIndices ads idxs
      → (best : ℤ) × (max_priority ads idxs start ≡ some best)
        × (start ≤ℤ best)
        × ((i : ℕ) → In i idxs → priority_of ads i ≤ℤ best)
        × ((start ≡ best) ⊎ ((i : ℕ) × In i idxs × (priority_of ads i ≡ best)))
  unfolding max_priority
  max_priority_lem ads [] start h = (start, refl, omega arith, λ i m. absurd m, inl refl)
  max_priority_lem ads (i ∷ is) start h =
      let (ad, e) = get_elem?-lt ads i h.0 in
      let next = if ltb_ℤ start ad.priority then ad.priority else start in
      let (best, q, above, all, from) = max_priority_lem ads is next h.1 in
      let here : priority_of ads i ≡ ad.priority = rw (e, priority_of) refl in
      (
        best,
        rw e q,
        ground (arith, above),
        λ j m. elim m [ inl s ↦ rw s (rw here (ground (arith, above))) | inr r ↦ all j r ],
        elim (Bool-cases (ltb_ℤ start ad.priority)) [
          | inl up ↦ elim from [
            | inl t ↦ inr (i, inl refl, here ∙ ground (arith, t, up))
            | inr (j, m, t) ↦ inr (j, inr m, t)
          ]
          | inr stay ↦ elim from [
            | inl t ↦ inl (ground (arith, t, stay))
            | inr (j, m, t) ↦ inr (j, inr m, t)
          ]
        ],
      )

  with_priority_lem :
      (ads : List (Ad F)) (best : ℤ) (idxs : List ℕ)
      → AllIndices ads idxs
      → (out : List ℕ) × (with_priority ads best idxs ≡ some out)
        × ((i : ℕ) → In i out → In i idxs × (priority_of ads i ≡ best))
        × ((i : ℕ) → In i idxs → priority_of ads i ≡ best → In i out)
  unfolding with_priority
  with_priority_lem ads best [] h = ([], refl, λ i m. absurd m, λ i m e. m)
  with_priority_lem ads best (i ∷ is) h =
      let (ad, e) = get_elem?-lt ads i h.0 in
      let (out, q, sound, complete) = with_priority_lem ads best is h.1 in
      let here : priority_of ads i ≡ ad.priority = rw (e, priority_of) refl in
      elim (Bool-cases (eqb_ℤ ad.priority best)) [
        | inl same ↦ (
          i ∷ out,
          rw e (rw q (rw same refl)),
          λ j m. elim m [
            | inl t ↦ (inl t, rw t (here ∙ eqb_ℤ-eq ad.priority best same))
            | inr r ↦ let old = sound j r in (inr old.0, old.1)
          ],
          λ j m p. elim m [ inl t ↦ inl t | inr r ↦ inr (complete j r p) ],
        )
        | inr other ↦ (
          out,
          rw e (rw q (rw other refl)),
          λ j m. let r = sound j m in (inr r.0, r.1),
          λ j m p. elim m [
            | inl t ↦
                let top : priority_of ads i ≡ best = rw (← t) p in
                let equal : ad.priority ≡ best = sym here ∙ top in
                absurd (ground (arith, other, eqb_ℤ-refl best, equal))
            | inr r ↦ complete j r p
          ],
        )
      ]

  -- From candidates that are ads with int32 priorities, the top bucket is found without a fault. It
  -- is not empty unless they are, it holds candidates, and no candidate ranks above one of them.
  pub top_priority_lem :
      (ads : List (Ad F)) (idx : ℕ) (rest : List ℕ)
      → AllIndices ads (idx ∷ rest)
      → IsInt32 (priority_of ads idx)
      → (first : ℕ) × (others : List ℕ) × (top_priority ads (idx ∷ rest) ≡ some (first ∷ others))
        × ((i : ℕ)
            → In i (first ∷ others)
            → In i (idx ∷ rest)
              × ((j : ℕ) → In j (idx ∷ rest) → priority_of ads j ≤ℤ priority_of ads i))
  unfolding top_priority
  top_priority_lem ads idx rest h range =
      let (best, e, above, all, from) = max_priority_lem ads (idx ∷ rest) (negsuc 2147483647) h in
      let (out, q, sound, complete) = with_priority_lem ads best (idx ∷ rest) h in
      let witness : (i : ℕ) × In i (idx ∷ rest) × (priority_of ads i ≡ best) = elim from [
        | inl t ↦ (idx, inl refl, ≤ℤ_antisym _ _ (all idx (inl refl)) (rw (← t) range.0))
        | inr w ↦ w
      ] in
      rw e (rw q (split best out sound witness.0 (complete witness.0 witness.1 witness.2) all))
    where
      split :
          (best : ℤ) (out : List ℕ)
          → ((i : ℕ) → In i out → In i (idx ∷ rest) × (priority_of ads i ≡ best))
          → (w : ℕ) → In w out
          → ((i : ℕ) → In i (idx ∷ rest) → priority_of ads i ≤ℤ best)
          → (first : ℕ) × (others : List ℕ) × (some out ≡ some (first ∷ others))
            × ((i : ℕ)
                → In i (first ∷ others)
                → In i (idx ∷ rest)
                  × ((j : ℕ) → In j (idx ∷ rest) → priority_of ads j ≤ℤ priority_of ads i))
      split best [] sound w m all = absurd m
      split best (first ∷ others) sound w m all =
          (first, others, refl, λ i k. let own = sound i k in (own.0, λ j r. rw own.1 (all j r)))
