-- ===== src/Worker/Tick.antt =====
-- server/internal/worker/drainer.go, Tick, and server/cmd/worker/main.go, runTick. The rows of a
-- query, the layout of a date and the fate of each call are arguments.
pub mod Guarded
pub mod Composed
use openadsource.Common.{
  Bool, true, false, Option, none, some, List, [], ◌∷◌, Text, codes, ◌⊎◌, inl, inr, if◌then◌else◌,
}
use openadsource.Common.Int.{ℤ, pos, ◌-ℤ◌}
use openadsource.Common.Float.{Float64}
use openadsource.Redis.{Redis, Transport}
use openadsource.Registry.Snapshot.{Ad, Snapshot}
use openadsource.Registry.Load.{LoadError, Row, load}
use openadsource.Worker.Lock.{Lock, try_acquire, release}
use openadsource.Worker.Drain.{Table, drain_ads, upsert_deltas}
use openadsource.Worker.Reconcile.{Statuses, reconcile_budgets}

-- The events that a Drainer takes in, and its two stores: Redis, and the two tables.
pub record Drainer : Type 0 where
  pub events : List Text

unfoldable pub new_drainer : List Text → Drainer
new_drainer events = record { events = events }

-- A day in nanoseconds.
abbrev pub day_ns : ℤ
day_ns = pos 86400000000000

-- datesToDrain, in UTC, where every day is as long; `format` writes a time as a date.
unfoldable pub dates_to_drain : (ℤ → Text) → ℤ → List Text
dates_to_drain format now = format now ∷ format (now -ℤ day_ns) ∷ []

-- What becomes of the calls of a tick, and whether an error of it is context.Canceled.
pub record Calls : Type 0 where
  pub drains : Text → Transport
  pub reads : Text → Transport
  pub upserts : Text → Bool
  pub updates : Text → Bool
  pub canceled : Bool

-- How a tick ends; after one that is done, whether an invalidation was published.
pub data TickEnd : Type 0 where
  load_failed : LoadError → TickEnd
  crashed no_ads upsert_failed : TickEnd
  ticked : Bool → TickEnd

-- The label of the counter of ticks.
unfoldable pub result_of : Bool → TickEnd → Text
result_of canceled (load_failed e) = if canceled then codes "ok" else codes "error"
result_of canceled upsert_failed = if canceled then codes "ok" else codes "error"
result_of canceled crashed = codes "ok"
result_of canceled no_ads = codes "ok"
result_of canceled (ticked published) = codes "ok"

-- The result of a query: `none`, or its rows and whether the cursor ended without an error.
abbrev pub Query : Type 0 → Type 0
Query F = Option (List (Option (Row F)) × Bool)

module _ (redis : Redis) where
  open redis use {Db}

  pub record World : Type 0 where
    pub db : Db
    pub table : Table
    pub statuses : Statuses

  module _ (show : Text → Text) (format : ℤ → Text) where
    -- The work on the ads of a snapshot.
    unfoldable pub tick_ads :
        {F : Type 0} → Drainer → Calls → List (Ad F) → ℤ → World → TickEnd × World
    tick_ads d calls [] now w = (no_ads, w)
    tick_ads d calls (ad ∷ ads) now w =
        let dates = dates_to_drain format now in
        let (deltas, db') =
          drain_ads redis show d.events calls.drains (ad ∷ ads) dates ([], w.db) in
        let (ok, table') = upsert_deltas calls.upserts deltas w.table in
        let (statuses', published) =
          reconcile_budgets redis show calls.reads calls.updates db' (ad ∷ ads) w.statuses in
        if ok
        then (ticked published, record { db = db'; table = table'; statuses = statuses' })
        else (upsert_failed, record { db = db'; table = table'; statuses = w.statuses })

    module _ (fl : Float64) where
      open fl use {F}

      -- Tick. The clock is read once for the load and once for the dates.
      unfoldable pub tick : Drainer → Calls → Query F → ℤ → ℤ → World → TickEnd × World
      unfolding tick_ads
      tick d calls query at now w = elim (load fl query at) [
        | inl e ↦ (load_failed e, w)
        | inr none ↦ (crashed, w)
        | inr (some snap) ↦ tick_ads d calls snap.ads now w
      ]

      -- runTick: the result, the key of the lock and the world. `acquiring` and `releasing` are
      -- the fates of the calls of the lock, `meanwhile` is what others do to its key during the
      -- work.
      unfoldable pub run_tick :
          Option Lock
          → Drainer
          → Calls
          → Transport
          → Transport
          → (Option Text → Option Text)
          → Query F
          → ℤ
          → ℤ
          → Option Text × World
          → Text × (Option Text × World)
      unfolding tick result_of
      run_tick lock d calls acquiring releasing meanwhile query at now (cell, w) =
          let (won, cell') = try_acquire lock acquiring cell in
          elim won [
            | none ↦ (codes "error", (cell', w))
            | some false ↦ (codes "locked", (cell', w))
            | some true ↦
                let (end, w') = tick d calls query at now w in
                (result_of calls.canceled end, (release lock releasing (meanwhile cell'), w'))
          ]
