-- ===== src/Registry/Refresher.antt =====
-- server/internal/registry/refresher.go: the live snapshot and its reloads. What the query of a
-- load returns is an argument; `none` for a snapshot is nil.
pub mod Indexed
use openadsource.Common.{
  Bool, true, false, Option, none, some, List, Text, ◌⊎◌, inl, inr, if◌then◌else◌, ◌≢◌, ◌≡◌,
}
use openadsource.Common.Int.{ℤ, pos, leb_ℤ}
use openadsource.Common.Float.{Float64}
use openadsource.Registry.Snapshot.{Snapshot}
use openadsource.Registry.Load.{LoadError, Row, load}

-- `subscribes` says whether there is a Redis client; `ready` whether the channel is closed.
pub record Refresher (F : Type 0) : Type 0 where
  pub interval : ℤ
  pub subscribes : Bool
  pub snapshot : Option (Snapshot F)
  pub ready : Bool

unfoldable pub new_refresher : {F : Type 0} → ℤ → Bool → Refresher F
new_refresher interval subscribes = record {
  interval = if leb_ℤ interval (pos 0) then pos 30000000000 else interval;
  subscribes = subscribes;
  snapshot = none;
  ready = false;
}

-- Get.
unfoldable pub get : {F : Type 0} → Refresher F → Option (Snapshot F)
get r = r.snapshot

-- WaitReady at one moment: whether it returns, and with what. When both channels are ready the
-- runtime picks.
pub data Waited : Type 0 where
  blocked : Waited
  is_ready : Waited
  canceled : Waited

unfoldable pub wait_ready : {F : Type 0} → Refresher F → Bool → Bool → Waited
wait_ready r done first =
    if r.ready
    then (if done then (if first then is_ready else canceled) else is_ready)
    else (if done then canceled else blocked)

-- How a reload ends: `crashed` is a panic.
pub data Reloaded : Type 0 where
  reloaded : Reloaded
  failed : LoadError → Reloaded
  crashed : Reloaded

module _ (fl : Float64) where
  open fl use {F}

  abbrev pub Query : Type 0
  Query = Option (List (Option (Row F)) × Bool)

  unfoldable pub reload : Query → ℤ → Refresher F → Reloaded × Refresher F
  reload query now r = elim (load fl query now) [
    | inl e ↦ (failed e, r)
    | inr none ↦ (crashed, r)
    | inr (some snap) ↦ (reloaded, record r { snapshot = some snap; ready = true })
  ]

  -- The loop of Run: the refresher, and whether the channel of messages is not nil.
  abbrev pub Running : Type 0
  Running = Refresher F × Bool

  -- `Answers` says what the database may answer.
  module _ (Answers : Query → Type 0) where
    -- One turn of the select. The ticker fires; a message comes, whatever it says; or the channel
    -- of messages is closed, and is nil from then on. A crash would end the process.
    pub data Turn : Running → Running → Type 0 where
      scheduled :
          {r : Refresher F} {messages : Bool} (query : Query) (now : ℤ)
          → Answers query
          → (reload query now r).0 ≢ crashed
          → Turn (r, messages) ((reload query now r).1, messages)
      invalidated :
          {r : Refresher F} (query : Query) (now : ℤ)
          → Answers query
          → (reload query now r).0 ≢ crashed
          → Turn (r, true) ((reload query now r).1, true)
      closed : {r : Refresher F} → Turn (r, true) (r, false)

    -- Run up to some turn of its loop: the first reload has succeeded.
    pub data Runs : Refresher F → Running → Type 0 where
      begun :
          {r : Refresher F} (query : Query) (now : ℤ)
          → Answers query
          → (reload query now r).0 ≡ reloaded
          → Runs r ((reload query now r).1, r.subscribes)
      turned : {r : Refresher F} {s t : Running} → Runs r s → Turn s t → Runs r t
