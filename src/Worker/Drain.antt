-- ===== src/Worker/Drain.antt =====
-- server/internal/worker/drainer.go: the drain of the event counters into the daily rows. The
-- Postgres table is a function from ads and dates to counts; the upsert adds to a row.
pub mod Keys
pub mod Cell
pub mod Keyed
pub mod Upsert
pub mod Conserved
pub mod Preserved
pub mod Emptied
pub mod Exact
use openadsource.Common.{
  Bool, true, false, Option, none, some, List, [], ◌∷◌, ◌++◌, if◌then◌else◌, Text, codes, text_eq,
  ◌&&◌,
}
use openadsource.Common.Int.{ℤ, pos, ◌+ℤ◌, ltb_ℤ, wrap64}
use openadsource.Common.Dict.{Dict, lookup, insert}
use openadsource.Redis.{
  Redis, Got, absent, number, garbled, Transport, answered, no_script, refused, reply_lost,
}
use openadsource.Registry.Snapshot.{Ad}
use openadsource.Tracking.Track.{counter_key}

-- The seven counters of statsDelta, int64 numbers, and of a row, whose columns are INTEGER.
pub record Counts : Type 0 where
  pub imps : ℤ
  pub clk : ℤ
  pub start : ℤ
  pub q25 : ℤ
  pub q50 : ℤ
  pub q75 : ℤ
  pub complete : ℤ

abbrev pub no_counts : Counts
no_counts = record {
  imps = pos 0;
  clk = pos 0;
  start = pos 0;
  q25 = pos 0;
  q50 = pos 0;
  q75 = pos 0;
  complete = pos 0;
}

-- statsDelta.
pub record Delta : Type 0 where
  pub campaign_id : Text
  pub ad_id : Text
  pub date : Text
  pub counts : Counts

unfoldable pub any_non_zero : Counts → Bool
any_non_zero c = ltb_ℤ (pos 0) (
    wrap64 (
      wrap64
        (wrap64 (wrap64 (wrap64 (wrap64 (c.imps +ℤ c.clk) +ℤ c.start) +ℤ c.q25) +ℤ c.q50) +ℤ c.q75)
      +ℤ c.complete))

-- The cases of the switch on an event.
pub data Kind : Type 0 where
  impression click start first_quartile midpoint third_quartile complete : Kind

unfoldable pub kind_of : Text → Option Kind
kind_of ev =
    if text_eq ev (codes "impression")
    then some impression
    else if text_eq ev (codes "click")
    then some click
    else if text_eq ev (codes "start")
    then some start
    else if text_eq ev (codes "firstQuartile")
    then some first_quartile
    else if text_eq ev (codes "midpoint")
    then some midpoint
    else if text_eq ev (codes "thirdQuartile")
    then some third_quartile
    else if text_eq ev (codes "complete")
    then some complete
    else none

unfoldable pub add_kind : Kind → ℤ → Counts → Counts
add_kind impression v c = record c { imps = wrap64 (c.imps +ℤ v) }
add_kind click v c = record c { clk = wrap64 (c.clk +ℤ v) }
add_kind start v c = record c { start = wrap64 (c.start +ℤ v) }
add_kind first_quartile v c = record c { q25 = wrap64 (c.q25 +ℤ v) }
add_kind midpoint v c = record c { q50 = wrap64 (c.q50 +ℤ v) }
add_kind third_quartile v c = record c { q75 = wrap64 (c.q75 +ℤ v) }
add_kind complete v c = record c { complete = wrap64 (c.complete +ℤ v) }

-- The switch.
unfoldable pub add_event : Text → ℤ → Counts → Counts
unfolding kind_of add_kind
add_event ev v c = elim (kind_of ev) [ none ↦ c | some k ↦ add_kind k v c ]

-- What is counted after a GETDEL; `none` is an error of the call.
unfoldable pub add_reply : Text → Option Got → Counts → Counts
unfolding add_event
add_reply ev none c = c
add_reply ev (some absent) c = c
add_reply ev (some garbled) c = c
add_reply ev (some (number v)) c = add_event ev v c

-- The key of a delta in the map.
abbrev pub delta_key : Text → Text → Text
delta_key ad date = ad ++ 124 ∷ date

-- The delta of an ad and a date, or a new one.
abbrev pub delta_of : Option Delta → Text → Text → Text → Delta
delta_of (some d) campaign ad date = d
delta_of none campaign ad date = record {
  campaign_id = campaign;
  ad_id = ad;
  date = date;
  counts = no_counts;
}

module _ (redis : Redis) where
  open redis use {Db, get_del}

  unfoldable pub take_counter : Transport → Text → Db → Option Got × Db
  take_counter answered key db = let (got, db') = get_del key db in (some got, db')
  take_counter no_script key db = (none, db)
  take_counter refused key db = (none, db)
  take_counter reply_lost key db = (none, (get_del key db).1)

  -- The loop over the events; `fate` is what becomes of the GETDEL of a key.
  unfoldable pub drain_events :
      (Text → Transport) → Text → Text → List Text → Counts → Db → Counts × Db
  unfolding take_counter add_reply
  drain_events fate ad date [] c db = (c, db)
  drain_events fate ad date (ev ∷ events) c db =
      let key = counter_key ad ev date in
      let (reply, db') = take_counter (fate key) key db in
      drain_events fate ad date events (add_reply ev reply c) db'

  module _ (show : Text → Text) (events : List Text) (fate : Text → Transport) where
    -- One date of one ad. uuid.UUID.String is `show`.
    unfoldable pub drain_date : Text → Text → Text → Dict Delta × Db → Dict Delta × Db
    unfolding drain_events
    drain_date campaign ad date (deltas, db) =
        let key = delta_key (show ad) date in
        let d = delta_of (lookup key deltas) campaign ad date in
        let (c, db') = drain_events fate (show ad) date events d.counts db in
        (insert key (record d { counts = c }) deltas, db')

    unfoldable pub drain_dates : Text → Text → List Text → Dict Delta × Db → Dict Delta × Db
    unfolding drain_date
    drain_dates campaign ad [] s = s
    drain_dates campaign ad (date ∷ dates) s =
        drain_dates campaign ad dates (drain_date campaign ad date s)

    unfoldable pub drain_ads :
        {F : Type 0} → List (Ad F) → List Text → Dict Delta × Db → Dict Delta × Db
    unfolding drain_dates
    drain_ads [] dates s = s
    drain_ads (ad ∷ ads) dates s = drain_ads ads dates (drain_dates ad.campaign_id ad.id dates s)

-- The rows of daily_stats.
abbrev pub Table : Type 0
Table = Text → Text → Counts

abbrev pub add_counts : Counts → Counts → Counts
add_counts c d = record {
  imps = c.imps +ℤ d.imps;
  clk = c.clk +ℤ d.clk;
  start = c.start +ℤ d.start;
  q25 = c.q25 +ℤ d.q25;
  q50 = c.q50 +ℤ d.q50;
  q75 = c.q75 +ℤ d.q75;
  complete = c.complete +ℤ d.complete;
}

-- upsertSQL.
unfoldable pub upsert : Delta → Table → Table
upsert d table ad date =
    if text_eq d.ad_id ad && text_eq d.date date
    then add_counts (table ad date) d.counts
    else table ad date

-- upsertDeltas; `runs` says whether the statement for a key succeeds, which it does only if its sums
-- fit the INTEGER columns. Whether all did, and the table.
unfoldable pub upsert_deltas : (Text → Bool) → Dict Delta → Table → Bool × Table
unfolding any_non_zero upsert
upsert_deltas runs [] table = (true, table)
upsert_deltas runs ((key, d) ∷ deltas) table = elim (any_non_zero d.counts) [
  | false ↦ upsert_deltas runs deltas table
  | true ↦ elim (runs key) [
    | false ↦ (false, table)
    | true ↦ upsert_deltas runs deltas (upsert d table)
  ]
]
