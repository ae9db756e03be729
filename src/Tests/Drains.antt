-- ===== src/Tests/Drains.antt =====
-- A drain and a tick over a store that has counted five clicks.
use mathlib.Core.List.{head-eq_of_cons-eq, tail-eq_of_cons-eq}
use openadsource.Common.{
  ℕ, ◌+◌, ◌<◌, ◌≡◌, ◌≢◌, refl, Bool, true, false, none, some, List, [], ◌∷◌, ap, ap₂, Text, codes,
  text_eq, inr, if◌then◌else◌, arith, length, member, map,
}
use openadsource.Common.Int.{pos, ◌+ℤ◌}
use openadsource.Redis.{answered}
use openadsource.Registry.Load.Rows.{load-IsIndexed}
use openadsource.Registry.Load.{Row, load}
use openadsource.Registry.Snapshot.{Snapshot}
use openadsource.Registry.Loader.Normalise.{normalise_countries}
use openadsource.Tracking.Track.{counter_key}
use openadsource.Tests.Instances.{ad, float, two_ads}
use openadsource.Tests.Stores.{Store, store}
use openadsource.Worker.Drain.{Kind, no_counts, Table, drain_ads, upsert_deltas}
use openadsource.Worker.Drain.Keys.{name, field}
use openadsource.Worker.Drain.Cell.{room}
use openadsource.Worker.Drain.Conserved.{upsert_deltas-drain_ads}
use openadsource.Worker.Tick.{Calls, World, tick, new_drainer, run_tick}
use openadsource.Worker.Tick.Composed.{tick-Ticked, Ticked, tracked_events-AllTracked}
use openadsource.Tracking.Events.{tracked_events}
use openadsource.Worker.Reconcile.{reconcile_budgets, active, completed}
use openadsource.Worker.Tick.Guarded.{run_tick-releases}
use openadsource.Worker.Reconcile.Published.{reconcile_budgets-publishes}
use openadsource.Worker.Lock.{Lock}
use openadsource.Common.Separator.{Lacks}

-- An identifier written without separators.
abbrev shift : Text → Text
shift [] = []
shift (c ∷ s) = (c + 200) ∷ shift s

shift-Lacks : (n : ℕ) → n < 200 → (s : Text) → Lacks n (shift s)
shift-Lacks n h [] = tt
shift-Lacks n h (c ∷ s) = (λ e. omega (arith, h, e), shift-Lacks n h s)

shift_clean : (s : Text) → Lacks 58 (shift s) × Lacks 124 (shift s)
shift_clean s = (shift-Lacks 58 (omega arith) s, shift-Lacks 124 (omega arith) s)

shift_inj : (a b : Text) → shift a ≡ shift b → a ≡ b
shift_inj [] [] e = refl
shift_inj [] (y ∷ b) e = ground (arith, e)
shift_inj (x ∷ a) [] e = ground (arith, e)
shift_inj (x ∷ a) (y ∷ b) e =
    ap₂ ◌∷◌ (omega (arith, head-eq_of_cons-eq e)) (shift_inj a b (tail-eq_of_cons-eq e))

-- Five clicks on an ad on a day.
abbrev clicked : Store
clicked = (
  λ key. if text_eq key (counter_key (shift (codes "a")) (codes "click") (codes "d")) then 5 else 0,
  λ key. none,
  λ key. none,
)

abbrev clicks : Text → Text → Kind → ℕ
clicks a day k = clicked.0 (counter_key (shift a) (name k) day)

clicks-lt : (a day : Text) (k : Kind) → clicks a day k < room
clicks-lt a day k = few (
    text_eq (counter_key (shift a) (name k) day)
      (counter_key (shift (codes "a")) (codes "click") (codes "d")))
  where
    few : (b : Bool) → (if b then 5 else 0) < room
    few true = omega arith
    few false = omega arith

abbrev empty_table : Table
empty_table ad day = no_counts

upsert_deltas-drain_ads_example :
    let (deltas, db') =
      drain_ads store shift tracked_events
        (λ key. answered)
        two_ads
        (codes "d" ∷ [])
        ([], clicked) in
    let (ok, table') = upsert_deltas (λ key. true) deltas empty_table in
    (ok ≡ true)
    × ((a day : Text) (k : Kind)
        → (m : ℕ) × (n : ℕ) × (field k (table' a day) ≡ field k no_counts +ℤ pos m)
          × (store.count db' (counter_key (shift a) (name k) day) ≡ some n)
          × (m + n ≡ clicks a day k))
upsert_deltas-drain_ads_example =
    upsert_deltas-drain_ads store shift tracked_events (λ key. answered) clicks
      (λ key e. ground (arith, e)) clicks-lt shift_clean shift_inj tracked_events-AllTracked two_ads
      (codes "d" ∷ []) clicked (λ key. true) empty_table (λ key. refl) (λ a day k. refl)

abbrev calls : Calls
calls = record {
  drains = λ key. answered;
  reads = λ key. answered;
  upserts = λ key. true;
  updates = λ c. true;
  canceled = false;
}

abbrev world : World store
world = record { db = clicked; table = empty_table; statuses = λ c. codes "active" }

abbrev rows : List (Row ℕ)
rows = (ad (codes "a") [] (codes " il" ∷ []) (codes "TV" ∷ []) (pos 1), none) ∷ []

rows_loaded :
    (s : Snapshot ℕ) × (load float (some (map some rows, true)) (pos 0) ≡ inr (some s))
    × (s.ads ≢ [])
unfolding member text_eq normalise_countries
rows_loaded =
    let (s, e, n, each, ok) = load-IsIndexed float rows (pos 0) (refl, tt) in
    (s, e, λ p. ground (arith, n, ap (λ l. length l) p))

tick-Ticked_example :
    Ticked store shift
      (λ t. codes "d")
      clicks
      rows_loaded.0.ads
      (pos 9)
      world
      (tick store shift
        (λ t. codes "d")
        float
        (new_drainer tracked_events)
        calls
        (some (map some rows, true))
        (pos 0)
        (pos 9)
        world)
tick-Ticked_example =
    tick-Ticked store shift (λ t. codes "d") calls clicks (λ key. refl) (λ key. refl) (λ key. refl)
      (λ c. refl) clicks-lt shift_clean shift_inj float (some (map some rows, true)) (pos 0) (pos 9)
      world rows_loaded.0 rows_loaded.1 rows_loaded.2 (λ a day k. refl)

-- A counter at the budget of its campaign.
abbrev used_up : Store
used_up = (λ key. 2, λ key. none, λ key. none)

reconcile_budgets-publishes_example :
    let statuses = λ (c : Text). codes "active" in
    let (statuses', published) =
      reconcile_budgets store shift (λ key. answered) (λ c. true) used_up two_ads statuses in
    (published ≡ true → (c : Text) × (statuses c ≡ active) × (statuses' c ≡ completed))
    × (published ≡ false → (c : Text) → statuses' c ≡ statuses c)
reconcile_budgets-publishes_example =
    reconcile_budgets-publishes store shift (λ key. answered) (λ c. true) used_up two_ads
      (λ c. codes "active")

abbrev lock : Lock
lock = record { ttl = pos 60000; id = codes "a" }

run_tick-releases_example :
    let cell =
      (run_tick store shift
        (λ t. codes "d")
        float
        (some lock)
        (new_drainer tracked_events)
        calls
        answered
        answered
        (λ c. c)
        (some (map some rows, true))
        (pos 0)
        (pos 9)
        (none, world)).1.0 in
    (some (codes "a") ≡ some (codes "a") → cell ≡ none)
    × ((other : Text) → some (codes "a") ≡ some other → other ≢ codes "a" → cell ≡ some other)
run_tick-releases_example =
    run_tick-releases store shift (λ t. codes "d") float (new_drainer tracked_events) calls lock
      (λ c. c) (some (map some rows, true)) (pos 0) (pos 9) world
