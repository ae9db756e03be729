-- ===== src/Selection/Scratch/Buffers.antt =====
-- Lemmas on selection/pool.go: each loop over a buffer, beside the loop over a list.
use mathlib.Core.Path.{subst}
use mathlib.Core.List.{append_assoc, append-nil}
use openadsource.Common.{
  ℕ, zero, suc, ◌+◌, ◌≤◌, ◌<◌, ◌≡◌, refl, sym, ap, ◌∙◌, true, false, Option, some, List, [], ◌∷◌,
  ◌++◌, ◌>>=◌, if◌then◌else◌, length, get_elem?, set, arith, length-set, bit_and, Bool,
}
use openadsource.Common.Agree.{Agree, Agree-bind, Agree-map, Agree-then}
use openadsource.Common.Int.{ℤ, eqb_ℤ}
use openadsource.Common.Slices.{
  Slice, view, Fits, take, drop, append, append-view, take_suc-set, drop-set_lt,
}
use openadsource.Registry.Bitset.{Bitset}
use openadsource.Registry.Snapshot.{Ad}
use openadsource.Selection.{Request, admits, collect, intersect, with_priority}
use openadsource.Selection.Scratch.{and_over, collect_over, compact}

pub and_over-intersect :
    (n : ℕ) (p c d : Bitset) (cells : List ℕ)
    → n ≤ length cells
    → Agree
        (λ m over. (over ≡ m ++ drop n cells) × (length m ≡ n))
        (intersect n p c d)
        (and_over n p c d cells)
unfolding and_over intersect
and_over-intersect zero p c d cells h = (refl, refl)
and_over-intersect (suc n) [] c d cells h = tt
and_over-intersect (suc n) (x ∷ p) [] d cells h = tt
and_over-intersect (suc n) (x ∷ p) (y ∷ c) [] cells h = tt
and_over-intersect (suc n) (x ∷ p) (y ∷ c) (z ∷ d) [] h = absurd (omega arith)
and_over-intersect (suc n) (x ∷ p) (y ∷ c) (z ∷ d) (old ∷ cells) h =
    Agree-bind _ _ (intersect n p c d) (and_over n p c d cells) _ _
      (and_over-intersect n p c d cells (omega arith))
      (λ m over e. (ap (λ l. bit_and (bit_and x y) z ∷ l) e.0, ap suc e.1))

-- A slice that has gained a list.
abbrev pub Gained : {A : Type 0} → Slice A → List A → Slice A → Type 0
Gained s l s' = (view s' ≡ view s ++ l) × Fits s'

pub Gained-append :
    {A : Type 0} (spare : List A) (x : A) (s s' : Slice A) (l : List A)
    → Fits s
    → Gained (append spare x s) l s'
    → Gained s (x ∷ l) s'
Gained-append spare x s s' l h g =
    (g.0 ∙ ap (λ v. v ++ l) (append-view spare x s h).0 ∙ append_assoc (view s) (x ∷ []) l, g.1)

-- An element that is appended or not, before what the rest of a loop appends.
append_rest :
    (b : Bool) (spare : List ℕ) (x : ℕ) (s : Slice ℕ) (rest : Option (List ℕ))
    (over : Slice ℕ → Option (Slice ℕ))
    → Fits s
    → ((t : Slice ℕ) → Fits t → Agree (Gained t) rest (over t))
    → Agree
        (Gained s)
        (rest >>= λ l. some (if b then x ∷ l else l))
        (over (if b then append spare x s else s))
append_rest true spare x s rest over h later =
    Agree-map (Gained (append spare x s)) (Gained s) rest _ _
      (later (append spare x s) (append-view spare x s h).1)
      (λ l t g. Gained-append spare x s t l h g)
append_rest false spare x s rest over h later =
    Agree-map (Gained s) (Gained s) rest _ _ (later s h) (λ l t g. g)

drop_step :
    (i left : ℕ) (cells : List ℕ)
    → suc i ≤ length cells
    → (x : ℕ) × (get_elem? cells i ≡ some x)
      × (take (suc left) (drop i cells) ≡ x ∷ take left (drop (suc i) cells))
drop_step i left [] h = absurd (omega arith)
drop_step zero left (x ∷ cells) h = (x, refl, refl)
drop_step (suc i) left (x ∷ cells) h = drop_step i left cells (omega arith)

-- The cells before the write mark, and what the rest of the loop keeps.
abbrev pub Compacted : ℕ → List ℕ → List ℕ → List ℕ × ℕ → Type 0
Compacted n cells r (over, m) = (take m over ≡ take n cells ++ r) × (m ≤ length over)

keep_rest :
    (b : Bool) (x n : ℕ) (cells : List ℕ) (rest : Option (List ℕ))
    (kept skipped : Option (List ℕ × ℕ))
    → n < length cells
    → Agree (Compacted (suc n) (set cells n x)) rest kept
    → Agree (Compacted n cells) rest skipped
    → Agree
        (Compacted n cells)
        (rest >>= λ l. some (if b then x ∷ l else l))
        (elim b [ true ↦ kept | false ↦ skipped ])
keep_rest true x n cells rest kept skipped h p q =
    Agree-map (Compacted (suc n) (set cells n x)) (Compacted n cells) rest kept _ p (λ l over g. (
      g.0 ∙ ap (λ v. v ++ l) (take_suc-set n x cells h) ∙ append_assoc (take n cells) (x ∷ []) l,
      g.1,
    ))
keep_rest false x n cells rest kept skipped h p q =
    Agree-map (Compacted n cells) (Compacted n cells) rest skipped _ q (λ l over g. g)

module _ {F : Type 0} where
  pub collect_over-collect :
      (spare : ℕ → List ℕ) (ads : List (Ad F)) (req : Request) (idxs : List ℕ) (s : Slice ℕ)
      → Fits s
      → Agree (Gained s) (collect ads req idxs) (collect_over spare ads req idxs s)
  unfolding collect_over collect
  collect_over-collect spare ads req [] s h = (sym (append-nil (view s)), h)
  collect_over-collect spare ads req (idx ∷ idxs) s h =
      Agree-then (Gained s) (admits ads req idx) _ _ (λ keeps.
        append_rest keeps (spare s.len) idx s (collect ads req idxs)
          (collect_over spare ads req idxs) h
          (λ t fits. collect_over-collect spare ads req idxs t fits))

  pub compact-with_priority :
      (ads : List (Ad F)) (best : ℤ) (left i n : ℕ) (cells : List ℕ)
      → n ≤ i
      → i + left ≤ length cells
      → Agree
          (Compacted n cells)
          (with_priority ads best (take left (drop i cells)))
          (compact ads best left i n cells)
  unfolding compact with_priority
  compact-with_priority ads best zero i n cells h k =
      (sym (append-nil (take n cells)), omega (arith, h, k))
  compact-with_priority ads best (suc left) i n cells h k =
      let (x, e, split) = drop_step i left cells (omega (arith, k)) in
      let later = take left (drop (suc i) cells) in
      let kept = set cells n x in
      let unread = drop-set_lt (suc i) n x cells (omega (arith, h)) in
      rw (split, e)
        (Agree-then (Compacted n cells) (get_elem? ads x) _ _ (λ ad.
          keep_rest (eqb_ℤ ad.priority best) x n cells (with_priority ads best later)
            (compact ads best left (suc i) (suc n) kept) (compact ads best left (suc i) n cells)
            (omega (arith, h, k))
            (subst
              (λ (l : List ℕ).
                Agree (Compacted (suc n) kept) (with_priority ads best (take left l))
                  (compact ads best left (suc i) (suc n) kept))
              unread
              (compact-with_priority ads best left (suc i) (suc n) kept (omega (arith, h))
                (omega (arith, k, length-set cells n x))))
            (compact-with_priority ads best left (suc i) n cells (omega (arith, h))
              (omega (arith, k)))))
