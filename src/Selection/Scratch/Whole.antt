-- ===== src/Selection/Scratch/Whole.antt =====
-- Lemmas on selection/pool.go: Select with any buffers, beside Select with fresh lists.
use mathlib.Core.Path.{subst}
use openadsource.Common.{
  ℕ, ◌≤◌, ◌≡◌, refl, sym, ap, ◌∙◌, Option, none, some, List, [], ◌++◌, ◌>>=◌, length, arith, inl,
  inr, Bool-cases, Option-cases, length-replicate, length-append, ltb, replicate, ◌==◌,
}
use openadsource.Common.Agree.{Agree, Agree-bind, Agree-map_right, Agree-eq}
use openadsource.Common.Float.{Float64}
use openadsource.Common.Int.{pos}
use openadsource.Common.Slices.{Slice, view, take, drop, take-append}
use openadsource.Registry.Bitset.{Bitset, for_each}
use openadsource.Registry.Snapshot.{Snapshot, matching_position, matching_country, matching_device}
use openadsource.Selection.{Request, select, from_sets, collect, intersect, choose}
use openadsource.Selection.Scratch.{
  Scratch, zeroed, reset, and_over, collect_over, choose_over, from_sets_over, select_over,
  put_scratch, room_for,
}
use openadsource.Selection.Scratch.Buffers.{and_over-intersect, Gained, collect_over-collect}
use openadsource.Selection.Scratch.Same.{SameAd, choose_over-choose}

zeroed_room :
    (n : ℕ) (cells : List ℕ) → (n ≤ length (zeroed n cells).cells) × ((zeroed n cells).len ≡ n)
zeroed_room n cells = elim (Bool-cases (ltb (length cells) n)) [
  | inl e ↦ rw e (omega (arith, length-replicate {A = ℕ} n 0), refl)
  | inr e ↦ rw e (
    omega (arith, length-append (replicate n 0) (drop n cells), length-replicate {A = ℕ} n 0),
    refl,
  )
]

room_empty : (z n : ℕ) (cells : List ℕ) → (room_for z n cells).len ≡ 0
room_empty z n cells = elim (Bool-cases (ltb (length cells) n)) [
  | inl e ↦ rw e refl
  | inr e ↦ rw e refl
]

take_front : (n : ℕ) (m rest over : List ℕ) → over ≡ m ++ rest → length m ≡ n → take n over ≡ m
take_front n m rest over e f =
    ap (λ l. take n l) e ∙ ap (λ i. take i (m ++ rest)) (sym f) ∙ take-append m rest

module _ (fl : Float64) (spare : ℕ → List ℕ) (spare_weights : ℕ → List fl.F) where
  open fl use {F, of_int}

  -- The end of Select, from the intersection on.
  abbrev collected : Snapshot F → Request → F → Scratch F → Slice ℕ → Option (Option ℕ × Scratch F)
  collected snap req roll s both = do
    found ← collect_over spare snap.ads req (for_each (view both)) s.indices
    chosen ←
        choose_over fl spare spare_weights snap.ads roll
          record s { intersect = both; indices = found }
    some (chosen.0, put_scratch chosen.1)

  collected_same :
      (snap : Snapshot F) (req : Request) (roll : F) (s : Scratch F) (both : Slice ℕ)
      → s.indices.len ≡ 0
      → Agree SameAd
          (collect snap.ads req (for_each (view both)) >>= λ cands. choose fl snap.ads cands roll)
          (collected snap req roll s both)
  collected_same snap req roll s both h =
      let empty : view s.indices ≡ [] = ap (λ i. take i s.indices.cells) h in
      Agree-bind (Gained s.indices) SameAd (collect snap.ads req (for_each (view both))) _ _ _
        (collect_over-collect spare snap.ads req (for_each (view both)) s.indices
          (omega (arith, h)))
        (λ l found g.
          Agree-map_right SameAd SameAd (choose fl snap.ads l roll) _ _
            (choose_over-choose fl spare spare_weights snap.ads l roll
              record s { intersect = both; indices = found } (g.0 ∙ ap (λ v. v ++ l) empty, g.1))
            (λ o r e. e))

  from_sets_over-from_sets :
      (snap : Snapshot F) (req : Request) (roll : F) (scratch : Scratch F) (ps cs ds : Bitset)
      → Agree SameAd
          (from_sets fl snap req roll ps cs ds)
          (from_sets_over fl spare spare_weights snap req roll scratch ps cs ds)
  unfolding from_sets_over from_sets reset
  from_sets_over-from_sets snap req roll scratch ps cs ds =
      let n = snap.bitset_size in
      let s = reset (of_int (pos 0)) n (length snap.ads) scratch in
      let (room, size) = zeroed_room n scratch.intersect.cells in
      Agree-bind _ SameAd (intersect n ps cs ds) (and_over n ps cs ds s.intersect.cells) _ _
        (and_over-intersect n ps cs ds s.intersect.cells room)
        (λ m over e.
          let both : Slice ℕ = record { cells = over; len = s.intersect.len } in
          let same : view both ≡ m =
            ap (λ i. take i over) size ∙ take_front n m (drop n s.intersect.cells) over e.0 e.1 in
          subst
            (λ (l : List ℕ).
              Agree SameAd
                (collect snap.ads req (for_each l) >>= λ cands. choose fl snap.ads cands roll)
                (collected snap req roll s both))
            same
            (collected_same snap req roll s both
              (room_empty 0 (length snap.ads) scratch.indices.cells)))

  select_over-Agree :
      (scratch : Scratch F) (snap : Option (Snapshot F)) (req : Request) (roll : F)
      → Agree SameAd
          (select fl snap req roll)
          (select_over fl spare spare_weights scratch snap req roll)
  unfolding select_over select
  select_over-Agree scratch none req roll = refl
  select_over-Agree scratch (some snap) req roll = elim (Bool-cases (length snap.ads == 0)) [
    | inl e ↦ rw e refl
    | inr e ↦ elim (Option-cases (matching_position snap req.position)) [
      | inl p ↦ rw (e, p) refl
      | inr (ps, p) ↦ elim (Option-cases (matching_country snap req.country)) [
        | inl c ↦ rw (e, p, c) refl
        | inr (cs, c) ↦ elim (Option-cases (matching_device snap req.device)) [
          | inl d ↦ rw (e, p, c, d) refl
          | inr (ds, d) ↦ rw (e, p, c, d) (from_sets_over-from_sets snap req roll scratch ps cs ds)
        ]
      ]
    ]
  ]

  -- Select with any buffers, whatever an earlier request left in them, and with its in-place
  -- compaction, returns the same ad, or fails the same, as with fresh lists.
  pub select-eq-select_over :
      (scratch : Scratch F) (snap : Option (Snapshot F)) (req : Request) (roll : F)
      → select fl snap req roll
        ≡ (select_over fl spare spare_weights scratch snap req roll >>= λ r. some r.0)
  select-eq-select_over scratch snap req roll =
      Agree-eq (select fl snap req roll) (select_over fl spare spare_weights scratch snap req roll)
        (λ r. r.0) (select_over-Agree scratch snap req roll)
