-- ===== src/Tests/Caps.antt =====
-- The budget and the frequency cap on a store of counters.
use openadsource.Common.{
  refl, true, some, ◌≡◌, [], ◌∷◌, ℕ, List, codes, arith, ◌⊎◌, max, ◌<◌, ◌+◌, ◌≤◌,
}
use openadsource.Common.Int.{pos}
use openadsource.Redis.{Transport, answered, no_script, reply_lost, refused}
use openadsource.Tests.Stores.{store, empty_store}
use openadsource.Capping.Budget.Bounds.{reserve_all, reserve_all-bounded, try_reserve-answered}
use openadsource.Capping.Budget.{try_reserve, reserved, budget_key, exhausted}
use openadsource.Capping.Frequency.{try_consume, consumed, frequency_key, exceeded}
use openadsource.Capping.Budget.Keys.{try_reserve-other}
use openadsource.Capping.Frequency.Window.{try_consume-no_window, try_consume-answered}

-- Four calls, of which one loses its answer.
abbrev calls : List (Transport × Transport)
calls =
    (answered, answered) ∷ (reply_lost, answered) ∷ (no_script, answered) ∷ (answered, refused) ∷ []

reserve_all-bounded_example :
    (m : ℕ) × (some
        ((reserve_all store calls (codes "c") (pos 2) empty_store).1.0 (budget_key (codes "c")))
      ≡ some m)
    × ((reserve_all store calls (codes "c") (pos 2) empty_store).0 + 0 ≤ m)
    × (m ≤ max 0 2)
reserve_all-bounded_example =
    reserve_all-bounded store calls (codes "c") 2 0 empty_store refl (omega arith) (omega arith)
      (omega arith)

try_reserve-answered_example :
    ((0 < 2)
      × ((try_reserve store true answered answered (codes "c") (pos 2) empty_store).0
          ≡ reserved (pos 1))
      × (some (
            (try_reserve store true answered answered (codes "c") (pos 2) empty_store).1.0
              (budget_key (codes "c")))
          ≡ some 1))
    ⊎ ((2 ≤ 0)
        × ((try_reserve store true answered answered (codes "c") (pos 2) empty_store).0 ≡ exhausted)
        × (some (
              (try_reserve store true answered answered (codes "c") (pos 2) empty_store).1.0
                (budget_key (codes "c")))
            ≡ some 0))
try_reserve-answered_example =
    try_reserve-answered store answered (codes "c") 2 0 empty_store refl (omega arith) (omega arith)

try_reserve-other_example :
    some (
      (try_reserve store true answered answered (codes "c") (pos 2) empty_store).1.0
        (budget_key (codes "d")))
    ≡ some 0
try_reserve-other_example =
    try_reserve-other store true answered answered (codes "c") (codes "d") (pos 2) empty_store
      (ground arith)

try_consume-answered_example :
    ((0 < 1)
      × ((try_consume store true answered answered
            (codes "u")
            (codes "a")
            (pos 1)
            (pos 60)
            empty_store).0
          ≡ consumed)
      × (some (
            (try_consume store true answered answered
                (codes "u")
                (codes "a")
                (pos 1)
                (pos 60)
                empty_store).1.0
              (frequency_key (codes "u") (codes "a")))
          ≡ some 1))
    ⊎ ((1 ≤ 0)
        × ((try_consume store true answered answered
              (codes "u")
              (codes "a")
              (pos 1)
              (pos 60)
              empty_store).0
            ≡ exceeded)
        × (some (
              (try_consume store true answered answered
                  (codes "u")
                  (codes "a")
                  (pos 1)
                  (pos 60)
                  empty_store).1.0
                (frequency_key (codes "u") (codes "a")))
            ≡ some 0))
try_consume-answered_example =
    try_consume-answered store answered (codes "u") (codes "a") 1 0 (pos 60) empty_store refl
      (omega arith) (omega arith) (omega arith)

try_consume-no_window_example :
    ((try_consume store true answered answered
        (codes "u")
        (codes "a")
        (pos 1)
        (pos 0)
        empty_store).0
      ≡ consumed)
    × (some (
          (try_consume store true answered answered
              (codes "u")
              (codes "a")
              (pos 1)
              (pos 0)
              empty_store).1.0
            (frequency_key (codes "u") (codes "a")))
        ≡ some 0)
try_consume-no_window_example =
    try_consume-no_window store answered (codes "u") (codes "a") 1 (pos 0) empty_store refl
      (omega arith) (omega arith)
