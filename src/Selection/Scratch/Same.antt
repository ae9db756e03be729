-- ===== src/Selection/Scratch/Same.antt =====
-- Lemmas on selection/pool.go: the selection with reused buffers, beside the one with fresh lists.
use mathlib.Core.Path.{subst}
use mathlib.Core.List.{append-nil}
use openadsource.Common.{
  ℕ, ◌≡◌, refl, sym, ap, ◌∙◌, Option, none, some, List, [], ◌∷◌, ◌>>=◌, if◌then◌else◌, length,
  get_elem?, arith, ap₂, leb, ◌-◌,
}
use openadsource.Common.Agree.{Agree, Agree-bind, Agree-map, Agree-then, Agree-map_right}
use openadsource.Common.Float.{Float64}
use openadsource.Common.Int.{ℤ, pos, negsuc}
use openadsource.Common.Slices.{Slice, view, Fits, append, append-view, emptied}
use openadsource.Registry.Snapshot.{Ad}
use openadsource.Selection.{
  choose, pick, cum_weights, top_priority, with_priority, max_priority, search_floats,
}
use openadsource.Selection.Scratch.{Scratch, compact, top_over, weigh_over, pick_over, choose_over}
use openadsource.Selection.Scratch.Buffers.{Gained, Gained-append, Compacted, compact-with_priority}

-- A slice that holds a list.
abbrev pub IsView : {A : Type 0} → List A → Slice A → Type 0
IsView l s = (view s ≡ l) × Fits s

module _ {F : Type 0} where
  top_over-top_priority :
      (ads : List (Ad F)) (s : Slice ℕ)
      → Fits s
      → Agree IsView (top_priority ads (view s)) (top_over ads s)
  unfolding top_over top_priority
  top_over-top_priority ads s h = by_view (view s) refl
    where
      finished :
          (best : ℤ)
          → Agree IsView (with_priority ads best (view s)) (
              compact ads best s.len 0 0 s.cells >>= λ done.
              some record { cells = done.0; len = done.1 })
      finished best =
          Agree-map_right (Compacted 0 s.cells) IsView (with_priority ads best (view s))
            (compact ads best s.len 0 0 s.cells) _
            (compact-with_priority ads best s.len 0 0 s.cells (omega arith) (omega (arith, h)))
            (λ r over g. g)

      by_view :
          (l : List ℕ)
          → view s ≡ l
          → Agree IsView (top_priority ads l) (elim l [
            | [] ↦ some s
            | idx ∷ rest ↦ (do
              best ← max_priority ads (idx ∷ rest) (negsuc 2147483647)
              done ← compact ads best s.len 0 0 s.cells
              some record { cells = done.0; len = done.1 })
          ])
      by_view [] e = (e, h)
      by_view (idx ∷ rest) e =
          Agree-then IsView (max_priority ads (idx ∷ rest) (negsuc 2147483647)) _ _ (λ best.
            subst
              (λ (o : Option (List ℕ)). Agree IsView o (
                compact ads best s.len 0 0 s.cells >>= λ done.
                some record { cells = done.0; len = done.1 }))
              (ap (λ l. with_priority ads best l) e) (finished best))

-- The same ad, beside what else is returned.
abbrev pub SameAd : {B : Type 0} → Option ℕ → Option ℕ × B → Type 0
SameAd o r = o ≡ r.0

module _ (fl : Float64) (spare : ℕ → List ℕ) (spare_weights : ℕ → List fl.F) where
  open fl use {F, of_int, le, add, mul}

  -- A table of weights and its total, beside a slice of them.
  abbrev Weighed : Slice F → List F × F → Slice F × F → Type 0
  Weighed s x y = Gained s x.0 y.0 × (x.1 ≡ y.1)

  weigh_over-cum_weights :
      (ads : List (Ad F)) (idxs : List ℕ) (total : F) (s : Slice F)
      → Fits s
      → Agree
          (Weighed s)
          (cum_weights fl ads idxs total)
          (weigh_over fl spare spare_weights ads idxs total s)
  unfolding weigh_over cum_weights
  weigh_over-cum_weights ads [] total s h = ((sym (append-nil (view s)), h), refl)
  weigh_over-cum_weights ads (idx ∷ idxs) total s h =
      Agree-then (Weighed s) (get_elem? ads idx) _ _ (λ ad.
        let w = if le ad.pacing_weight (of_int (pos 0)) then of_int (pos 1) else ad.pacing_weight in
        let sum = add total w in
        let s' = append (spare_weights s.len) sum s in
        Agree-map (Weighed s') (Weighed s) (cum_weights fl ads idxs sum) _ _
          (weigh_over-cum_weights ads idxs sum s' (append-view (spare_weights s.len) sum s h).1)
          (λ l t g. (Gained-append (spare_weights s.len) sum s t.0 l.0 h g.0, g.1)))

  -- The index of the draw.
  abbrev place : F → ℕ → List F → F → ℕ
  place roll bound weights total =
      let i = search_floats fl weights (mul roll total) in if leb bound i then bound - 1 else i

  pick_over-pick :
      (ads : List (Ad F)) (top : List ℕ) (roll : F) (s : Slice F)
      → Agree SameAd (pick fl ads top roll) (pick_over fl spare spare_weights ads top roll s)
  unfolding pick_over pick
  pick_over-pick ads [] roll s = tt
  pick_over-pick ads (idx ∷ []) roll s = refl
  pick_over-pick ads (idx ∷ next ∷ rest) roll s =
      Agree-bind (Weighed (emptied s)) SameAd
        (cum_weights fl ads (idx ∷ next ∷ rest) (of_int (pos 0)))
        (weigh_over fl spare spare_weights ads (idx ∷ next ∷ rest) (of_int (pos 0)) (emptied s)) _ _
        (weigh_over-cum_weights ads (idx ∷ next ∷ rest) (of_int (pos 0)) (emptied s) (omega arith))
        (λ x y g.
          let idxs = idx ∷ next ∷ rest in
          subst
            (λ (i : ℕ).
              Agree SameAd
                (get_elem? idxs (place roll (length idxs) x.0 x.1) >>= λ c. some (some c))
                (get_elem? idxs i >>= λ c. some (some c, y.0)))
            (ap₂ (place roll (length idxs)) (sym g.0.0) g.1)
            (Agree-then SameAd (get_elem? idxs (place roll (length idxs) x.0 x.1)) _ _ (λ c. refl)))

  pub choose_over-choose :
      (ads : List (Ad F)) (cands : List ℕ) (roll : F) (s : Scratch F)
      → IsView cands s.indices
      → Agree SameAd (choose fl ads cands roll) (choose_over fl spare spare_weights ads roll s)
  unfolding choose_over choose
  choose_over-choose ads cands roll s h = by_view (view s.indices) cands h.0 refl
    where
      picked :
          (l : List ℕ)
          → view s.indices ≡ l
          → Agree SameAd (top_priority ads l >>= λ top. pick fl ads top roll) (
              top_over ads s.indices >>= λ top.
              pick_over fl spare spare_weights ads (view top) roll s.cum_weight >>= λ chosen.
              some (chosen.0, record s { indices = top; cum_weight = chosen.1 }))
      picked l e =
          subst
            (λ (m : List ℕ). Agree SameAd (top_priority ads m >>= λ top. pick fl ads top roll) (
              top_over ads s.indices >>= λ top.
              pick_over fl spare spare_weights ads (view top) roll s.cum_weight >>= λ chosen.
              some (chosen.0, record s { indices = top; cum_weight = chosen.1 })))
            e
            (Agree-bind IsView SameAd (top_priority ads (view s.indices)) (top_over ads s.indices) _
              _ (top_over-top_priority ads s.indices h.1)
              (λ m top v.
                Agree-map_right SameAd SameAd (pick fl ads m roll) _ _
                  (subst
                    (λ (x : List ℕ).
                      Agree SameAd (pick fl ads x roll)
                        (pick_over fl spare spare_weights ads (view top) roll s.cum_weight))
                    v.0 (pick_over-pick ads (view top) roll s.cum_weight))
                  (λ o r g. g)))

      by_view :
          (l m : List ℕ)
          → l ≡ m
          → view s.indices ≡ l
          → Agree SameAd (choose fl ads m roll) (elim l [
            | [] ↦ some (none, s)
            | idx ∷ rest ↦ (do
              top ← top_over ads s.indices
              chosen ← pick_over fl spare spare_weights ads (view top) roll s.cum_weight
              some (chosen.0, record s { indices = top; cum_weight = chosen.1 }))
          ])
      by_view [] [] e f = refl
      by_view [] (y ∷ m) e f = ground (arith, e)
      by_view (x ∷ l) [] e f = ground (arith, e)
      by_view (x ∷ l) (y ∷ m) e f = picked (y ∷ m) (f ∙ e)
