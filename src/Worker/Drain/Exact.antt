-- ===== src/Worker/Drain/Exact.antt =====
-- Lemmas on worker/drainer.go: a drain in which every call is answered.
use mathlib.Core.List.{Memᴰ}
use openadsource.Common.{true, some, [], ◌≡◌, ◌≢◌, Text, ℕ, arith, List, ◌<◌, ◌∙◌, ap, sym, Bool}
use openadsource.Common.Separator.{Lacks}
use openadsource.Common.Int.{pos, ◌+ℤ◌}
use openadsource.Redis.{Redis, Transport, answered, reply_lost}
use openadsource.Registry.Snapshot.{Ad}
use openadsource.Worker.Drain.{Kind, Table, drain_ads, upsert_deltas}
use openadsource.Worker.Drain.Keys.{field, name}
use openadsource.Worker.Drain.Cell.{room, AllTracked}
use openadsource.Worker.Drain.Conserved.{upsert_deltas-drain_ads}
use openadsource.Worker.Drain.Emptied.{drain_ads-zero}
use openadsource.Tracking.Track.{counter_key}

pub answered_kept : (t : Transport) → t ≡ answered → t ≢ reply_lost
answered_kept t e = ground (arith, e)

module _ (redis : Redis) (show : Text → Text) (events : List Text) (fate : Text → Transport)
    (total : Text → Text → Kind → ℕ) (ok : (key : Text) → fate key ≡ answered)
    (small : (a day : Text) (k : Kind) → total a day k < room)
    (clean : (a : Text) → Lacks 58 (show a) × Lacks 124 (show a))
    (inj : (a b : Text) → show a ≡ show b → a ≡ b) (tracked : AllTracked events) where
  open redis use {Db, count}

  -- When every GETDEL is answered and every upsert succeeds, the row of every listed ad on every
  -- listed date gains the whole count of each event that is drained, and the counter is empty
  -- after it. The counts are below 2^60, and ids are written one to one and without ':' and '|'.
  pub drain_ads-exact :
      {F : Type 0} (ads : List (Ad F)) (dates : List Text) (db : Db) (runs : Text → Bool)
      (table : Table) (ad : Ad F) (day : Text) (k : Kind)
      → ((key : Text) → runs key ≡ true)
      → ((a day : Text) (k : Kind)
          → count db (counter_key (show a) (name k) day) ≡ some (total a day k))
      → Memᴰ ad ads
      → Memᴰ day dates
      → Memᴰ (name k) events
      → let (deltas, db') = drain_ads redis show events fate ads dates ([], db) in
        let (done, table') = upsert_deltas runs deltas table in
        (field k (table' ad.id day) ≡ field k (table ad.id day) +ℤ pos (total ad.id day k))
        × (count db' (counter_key (show ad.id) (name k) day) ≡ some 0)
  drain_ads-exact ads dates db runs table ad day k run counts m today heard =
      let kept = λ (key : Text). answered_kept (fate key) (ok key) in
      let (m', n, row, left, sum) =
        (upsert_deltas-drain_ads redis show events fate total kept small clean inj tracked ads dates
            db runs table run counts).1
          ad.id day k in
      let empty =
        drain_ads-zero redis show events fate (name k) heard ad day ads dates ([], db)
          (total ad.id day k) m today (ok _) (counts ad.id day k) in
      let whole : m' ≡ total ad.id day k = ground (arith, sum, sym left ∙ empty) in
      (row ∙ ap (λ (i : ℕ). field k (table ad.id day) +ℤ pos i) whole, empty)
