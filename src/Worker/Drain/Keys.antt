-- ===== src/Worker/Drain/Keys.antt =====
-- Lemmas on worker/drainer.go: the keys of counters and of deltas, and the kinds of events.
use mathlib.Core.List.{append_cancel_left}
use openadsource.Common.{
  refl, some, ◌≡◌, ◌≢◌, Text, arith, codes, sym, Option, ◌∙◌, text_eq, ap, if◌then◌else◌,
  text_cases, inl, inr,
}
use openadsource.Worker.Drain.{
  Kind, impression, click, start, first_quartile, midpoint, third_quartile, complete, kind_of,
  Counts, add_kind,
}
use openadsource.Tracking.Track.{counter_key}
use openadsource.Common.Int.{ℤ, wrap64, ◌+ℤ◌}
use openadsource.Common.Separator.{Lacks, cut}

-- The text of an event.
unfoldable pub name : Kind → Text
name impression = codes "impression"
name click = codes "click"
name start = codes "start"
name first_quartile = codes "firstQuartile"
name midpoint = codes "midpoint"
name third_quartile = codes "thirdQuartile"
name complete = codes "complete"

pub name-Lacks : (k : Kind) → Lacks 58 (name k)
unfolding name
name-Lacks impression = ground arith
name-Lacks click = ground arith
name-Lacks start = ground arith
name-Lacks first_quartile = ground arith
name-Lacks midpoint = ground arith
name-Lacks third_quartile = ground arith
name-Lacks complete = ground arith

pub counter_key_inj :
    (a b : Text) (k j : Kind) (d e : Text)
    → Lacks 58 a
    → Lacks 58 b
    → counter_key a (name k) d ≡ counter_key b (name j) e
    → (a ≡ b) × (name k ≡ name j) × (d ≡ e)
counter_key_inj a b k j d e ha hb p =
    let (q, r) = cut 58 a b ha hb (append_cancel_left (codes "ad:") _ _ p) in
    let s = append_cancel_left (codes "event:") _ _ r in
    let (t, u) = cut 58 (name k) (name j) (name-Lacks k) (name-Lacks j) s in (q, t, u)

pub kind_of-name : (k : Kind) → kind_of (name k) ≡ some k
unfolding kind_of name text_eq
kind_of-name impression = refl
kind_of-name click = refl
kind_of-name start = refl
kind_of-name first_quartile = refl
kind_of-name midpoint = refl
kind_of-name third_quartile = refl
kind_of-name complete = refl

pub name_inj : (k j : Kind) → name k ≡ name j → k ≡ j
name_inj k j e = ground (arith, sym (kind_of-name k) ∙ ap kind_of e ∙ kind_of-name j)

first_word :
    (ev w : Text) (k : Kind) (rest : Option Kind) {j : Kind}
    → w ≡ name k
    → (if text_eq ev w then some k else rest) ≡ some j
    → (rest ≡ some j → ev ≡ name j)
    → ev ≡ name j
first_word ev w k rest {j} p e later = elim (text_cases ev w) [
  | inl (q, t) ↦ q ∙ p ∙ ap name (ground (arith, e, t))
  | inr (ne, f) ↦ later (ground (arith, e, f))
]

pub name-kind_of : (ev : Text) (k : Kind) → kind_of ev ≡ some k → ev ≡ name k
unfolding kind_of name
name-kind_of ev k e = first_word ev _ impression _ refl e λ e. first_word ev _ click _ refl e λ e.
    first_word ev _ start _ refl e λ e. first_word ev _ first_quartile _ refl e λ e.
      first_word ev _ midpoint _ refl e λ e.
        first_word ev _ third_quartile _ refl e
          λ e. first_word ev _ complete _ refl e λ e. ground arith

-- The counter of a kind.
unfoldable pub field : Kind → Counts → ℤ
field impression c = c.imps
field click c = c.clk
field start c = c.start
field first_quartile c = c.q25
field midpoint c = c.q50
field third_quartile c = c.q75
field complete c = c.complete

pub field-add_kind_self :
    (k : Kind) (v : ℤ) (c : Counts) → field k (add_kind k v c) ≡ wrap64 (field k c +ℤ v)
unfolding field add_kind
field-add_kind_self impression v c = refl
field-add_kind_self click v c = refl
field-add_kind_self start v c = refl
field-add_kind_self first_quartile v c = refl
field-add_kind_self midpoint v c = refl
field-add_kind_self third_quartile v c = refl
field-add_kind_self complete v c = refl

pub field-add_kind_other :
    (k j : Kind) (v : ℤ) (c : Counts) → k ≢ j → field j (add_kind k v c) ≡ field j c
unfolding field add_kind
field-add_kind_other k j v c ne = ground (arith, ne)
