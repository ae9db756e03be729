-- ===== src/Tests/Sets.antt =====
-- The registry and the selection at the two ads of the test data, and at small bitsets.
use mathlib.Core.Path.{subst}
use openadsource.Common.Int.{pos}
use openadsource.Common.{sym, refl, some, ◌≡◌, [], ◌∷◌, member, ℕ, text_eq, arith, ◌>>=◌}
use openadsource.Tests.Instances.{float, two_ads, two_ends, request}
use openadsource.Registry.Snapshot.{Snapshot}
use openadsource.Registry.Loader.Built.{IsIndexed, build_snapshot-IsIndexed, AllPlain}
use openadsource.Registry.Bitset.{for_each, is_set}
use openadsource.Selection.{select}
use openadsource.Common.Keep.{keep, range_from}
use openadsource.Registry.Bitset.Sets.{has_bit, is_set-has_bit}
use openadsource.Registry.Loader.{build_snapshot}
use openadsource.Selection.Eligible.{AllInt32}
use openadsource.Registry.Bitset.Visits.{for_each-eq-keep}
use openadsource.Selection.Scratch.{Scratch, select_over}
use openadsource.Selection.Scratch.Whole.{select-eq-select_over}
use openadsource.Registry.Loader.Loop.{weighed}

pub two_ads-AllPlain : AllPlain two_ads
unfolding member text_eq
two_ads-AllPlain = ((refl, refl), (refl, refl), ((refl, refl), (refl, refl), tt))

build_snapshot-IsIndexed_example :
    (s : Snapshot ℕ) × (build_snapshot float two_ads two_ends (pos 0) ≡ some s)
    × (s.ads ≡ weighed float two_ads two_ends (pos 0))
    × IsIndexed s
unfolding member text_eq
build_snapshot-IsIndexed_example =
    build_snapshot-IsIndexed float two_ads two_ends (pos 0) refl two_ads-AllPlain

-- The snapshot of the two ads.
abbrev pub shop : Snapshot ℕ
shop = (build_snapshot-IsIndexed float two_ads two_ends (pos 0) refl two_ads-AllPlain).0

pub shop-IsIndexed : IsIndexed shop
shop-IsIndexed = (build_snapshot-IsIndexed float two_ads two_ends (pos 0) refl two_ads-AllPlain).3

pub shop-AllInt32 : AllInt32 shop.ads
unfolding weighed
shop-AllInt32 =
    subst AllInt32
      (sym (build_snapshot-IsIndexed float two_ads two_ends (pos 0) refl two_ads-AllPlain).2)
      ((omega arith, omega arith), ((omega arith, omega arith), tt))

for_each-eq-keep_example : for_each (10 ∷ 1 ∷ []) ≡ keep (has_bit (10 ∷ 1 ∷ [])) (range_from 0 128)
for_each-eq-keep_example = for_each-eq-keep (10 ∷ 1 ∷ []) (omega arith, (omega arith, tt))

is_set-has_bit_example : is_set (10 ∷ 1 ∷ []) 64 ≡ some (has_bit (10 ∷ 1 ∷ []) 64)
is_set-has_bit_example = is_set-has_bit (10 ∷ 1 ∷ []) 64 (omega arith)

-- Buffers that an earlier request left full.
abbrev used : Scratch ℕ
used = record {
  intersect = record { cells = 7 ∷ 7 ∷ []; len = 2 };
  indices = record { cells = 5 ∷ 4 ∷ 3 ∷ []; len = 0 };
  cum_weight = record { cells = 9 ∷ []; len = 0 };
}

select-eq-select_over_example :
    select float (some shop) request 3
    ≡ (select_over float (λ n. []) (λ n. 0 ∷ []) used (some shop) request 3 >>= λ r. some r.0)
select-eq-select_over_example =
    select-eq-select_over float (λ n. []) (λ n. 0 ∷ []) used (some shop) request 3
