-- ===== src/Selection/Scratch.antt =====
-- server/internal/selection/pool.go, and select.go and rank.go with the buffers that they reuse:
-- the same selection, with its writes into the arrays of a Scratch.
pub mod Buffers
pub mod Same
pub mod Whole
use openadsource.Common.{
  ℕ, zero, suc, ◌-◌, bit_and, Bool, true, false, Option, none, some, List, [], ◌∷◌, ◌++◌, ◌>>=◌,
  if◌then◌else◌, leb, ltb, ◌==◌, length, get_elem?, set, replicate,
}
use openadsource.Common.Int.{ℤ, pos, negsuc, eqb_ℤ}
use openadsource.Common.Float.{Float64}
use openadsource.Common.Slices.{Slice, view, drop, append, emptied}
use openadsource.Registry.Bitset.{Bitset, for_each}
use openadsource.Registry.Snapshot.{
  Ad, Snapshot, matching_position, matching_country, matching_device,
}
use openadsource.Selection.{Request, admits, max_priority, search_floats}

pub record Scratch (F : Type 0) : Type 0 where
  pub intersect : Slice ℕ
  pub indices : Slice ℕ
  pub cum_weight : Slice F

-- s[:n] with zeroes, or a new slice of that length.
abbrev pub zeroed : ℕ → List ℕ → Slice ℕ
zeroed n cells =
    if ltb (length cells) n
    then record { cells = replicate n 0; len = n }
    else record { cells = replicate n 0 ++ drop n cells; len = n }

-- s[:0], or a new slice with that capacity; `z` is the zero of the type.
abbrev pub room_for {ℓ} : {A : Type ℓ} → A → ℕ → List A → Slice A
room_for z n cells =
    if ltb (length cells) n
    then record { cells = replicate n z; len = 0 }
    else record { cells = cells; len = 0 }

unfoldable pub reset : {F : Type 0} → F → ℕ → ℕ → Scratch F → Scratch F
reset z words ads s = record {
  intersect = zeroed words s.intersect.cells;
  indices = room_for 0 ads s.indices.cells;
  cum_weight = room_for z ads s.cum_weight.cells;
}

-- What putScratch puts back.
unfoldable pub put_scratch : {F : Type 0} → Scratch F → Scratch F
put_scratch s = record {
  intersect = s.intersect;
  indices = emptied s.indices;
  cum_weight = emptied s.cum_weight;
}

-- The three-way AND, written over the first `size` cells.
unfoldable pub and_over : ℕ → Bitset → Bitset → Bitset → List ℕ → Option (List ℕ)
and_over zero p c d cells = some cells
and_over (suc n) (x ∷ p) (y ∷ c) (z ∷ d) (old ∷ cells) = do
  rest ← and_over n p c d cells
  some (bit_and (bit_and x y) z ∷ rest)
and_over (suc n) p c d cells = none

-- The cells that a growing append adds are `spare`; the runtime chooses them.
module _ {F : Type 0} (spare : ℕ → List ℕ) where
  unfoldable pub collect_over : List (Ad F) → Request → List ℕ → Slice ℕ → Option (Slice ℕ)
  collect_over ads req [] s = some s
  collect_over ads req (idx ∷ rest) s = do
    keeps ← admits ads req idx
    collect_over ads req rest (if keeps then append (spare s.len) idx s else s)

-- The second loop of topPriority: it reads cell i, and writes cell n, which is not after it.
unfoldable pub compact : {F : Type 0} → List (Ad F) → ℤ → ℕ → ℕ → ℕ → List ℕ → Option (List ℕ × ℕ)
compact ads best zero i n cells = some (cells, n)
compact ads best (suc left) i n cells = do
  idx ← get_elem? cells i
  ad ← get_elem? ads idx
  elim (eqb_ℤ ad.priority best) [
    | true ↦ compact ads best left (suc i) (suc n) (set cells n idx)
    | false ↦ compact ads best left (suc i) n cells
  ]

unfoldable pub top_over : {F : Type 0} → List (Ad F) → Slice ℕ → Option (Slice ℕ)
unfolding compact
top_over ads s = elim (view s) [
  | [] ↦ some s
  | idx ∷ rest ↦ do
    best ← max_priority ads (idx ∷ rest) (negsuc 2147483647)
    done ← compact ads best s.len 0 0 s.cells
    some record { cells = done.0; len = done.1 }
]

module _ (fl : Float64) (spare : ℕ → List ℕ) (spare_weights : ℕ → List fl.F) where
  open fl use {F, of_int, add, mul, le}

  unfoldable pub weigh_over : List (Ad F) → List ℕ → F → Slice F → Option (Slice F × F)
  weigh_over ads [] total s = some (s, total)
  weigh_over ads (idx ∷ rest) total s = do
    ad ← get_elem? ads idx
    let w = if le ad.pacing_weight (of_int (pos 0)) then of_int (pos 1) else ad.pacing_weight
    let sum = add total w
    weigh_over ads rest sum (append (spare_weights s.len) sum s)

  -- The end of Select: one of the bucket, and the table of weights.
  unfoldable pub pick_over : List (Ad F) → List ℕ → F → Slice F → Option (Option ℕ × Slice F)
  unfolding weigh_over
  pick_over ads [] roll s = none
  pick_over ads (idx ∷ []) roll s = some (some idx, s)
  pick_over ads (idx ∷ next ∷ rest) roll s = do
    weighed ← weigh_over ads (idx ∷ next ∷ rest) (of_int (pos 0)) (emptied s)
    let i = search_floats fl (view weighed.0) (mul roll weighed.1)
    let bound = length (idx ∷ next ∷ rest)
    chosen ← get_elem? (idx ∷ next ∷ rest) (if leb bound i then bound - 1 else i)
    some (some chosen, weighed.0)

  unfoldable pub choose_over : List (Ad F) → F → Scratch F → Option (Option ℕ × Scratch F)
  unfolding pick_over top_over
  choose_over ads roll s = elim (view s.indices) [
    | [] ↦ some (none, s)
    | idx ∷ rest ↦ do
      top ← top_over ads s.indices
      chosen ← pick_over ads (view top) roll s.cum_weight
      some (chosen.0, record s { indices = top; cum_weight = chosen.1 })
  ]

  unfoldable pub from_sets_over :
      Snapshot F
      → Request
      → F
      → Scratch F
      → Bitset
      → Bitset
      → Bitset
      → Option (Option ℕ × Scratch F)
  unfolding choose_over reset put_scratch and_over collect_over
  from_sets_over snap req roll scratch ps cs ds = do
    let s = reset (of_int (pos 0)) snap.bitset_size (length snap.ads) scratch
    mask ← and_over snap.bitset_size ps cs ds s.intersect.cells
    let both : Slice ℕ = record { cells = mask; len = s.intersect.len }
    found ← collect_over spare snap.ads req (for_each (view both)) s.indices
    chosen ← choose_over snap.ads roll record s { intersect = both; indices = found }
    some (chosen.0, put_scratch chosen.1)

  -- Select, with the buffers that getScratch gave it; the ones that it gives back.
  unfoldable pub select_over :
      Scratch F → Option (Snapshot F) → Request → F → Option (Option ℕ × Scratch F)
  unfolding from_sets_over
  select_over scratch none req roll = some (none, scratch)
  select_over scratch (some snap) req roll =
      if length snap.ads == 0
      then some (none, scratch)
      else elim (matching_position snap req.position) [
        | none ↦ some (none, scratch)
        | some ps ↦ elim (matching_country snap req.country) [
          | none ↦ some (none, scratch)
          | some cs ↦ elim (matching_device snap req.device) [
            | none ↦ some (none, scratch)
            | some ds ↦ from_sets_over snap req roll scratch ps cs ds
          ]
        ]
      ]
