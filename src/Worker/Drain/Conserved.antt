-- ===== src/Worker/Drain/Conserved.antt =====
-- Lemmas on worker/drainer.go: the drain of every ad on every date, and the upsert after it.
use mathlib.Core.Path.{subst}
use openadsource.Common.{
  refl, true, some, none, [], ◌∷◌, ◌≡◌, ◌≢◌, inl, inr, Text, ℕ, arith, List, ◌<◌, ◌+◌, ◌∙◌, ap, sym,
  Option, text_cases, ◌⊎◌, ap₂, Bool,
}
use openadsource.Common.Dict.{Dict, lookup, insert, lookup-insert_other, lookup-insert_self}
use openadsource.Common.Int.{ℤ, pos, ◌+ℤ◌}
use openadsource.Redis.{Redis, Transport, reply_lost}
use openadsource.Registry.Snapshot.{Ad}
use openadsource.Worker.Drain.{
  Kind, Counts, Delta, Table, delta_key, delta_of, drain_events, drain_date, drain_dates, drain_ads,
  upsert_deltas,
}
use openadsource.Worker.Drain.Keys.{field, name}
use openadsource.Worker.Drain.Cell.{room, AllTracked, Holds, drain_events-Holds, drain_events-other}
use openadsource.Worker.Drain.Keyed.{counts_of, Keyed, lookup-Keyed, insert-Keyed}
use openadsource.Worker.Drain.Upsert.{upsert_deltas-Adds, field-no_counts}
use openadsource.Tracking.Track.{counter_key}
use openadsource.Common.Separator.{Lacks, cut}

delta_of-counts :
    (o : Option Delta) (campaign ad date : Text)
    → (delta_of o campaign ad date).counts ≡ counts_of o
delta_of-counts none campaign ad date = refl
delta_of-counts (some d) campaign ad date = refl

delta_of-key :
    (show : Text → Text) (campaign ad date : Text) (deltas : Dict Delta)
    → Keyed show deltas
    → let key = delta_key (show ad) date in
      let d = delta_of (lookup key deltas) campaign ad date in key ≡ delta_key (show d.ad_id) d.date
delta_of-key show campaign ad date deltas keyed =
    elim (look (lookup (delta_key (show ad) date) deltas)) [
      | inl e ↦ rw e refl
      | inr (d, e) ↦ rw e (lookup-Keyed show (delta_key (show ad) date) deltas d keyed e)
    ]
  where
    look : (o : Option Delta) → (o ≡ none) ⊎ ((d : Delta) × (o ≡ some d))
    look none = inl refl
    look (some d) = inr (d, refl)

module _ (redis : Redis) (show : Text → Text) (events : List Text) (fate : Text → Transport)
    (total : Text → Text → Kind → ℕ) (kept : (key : Text) → fate key ≢ reply_lost)
    (small : (a day : Text) (k : Kind) → total a day k < room)
    (clean : (a : Text) → Lacks 58 (show a) × Lacks 124 (show a))
    (inj : (a b : Text) → show a ≡ show b → a ≡ b) (tracked : AllTracked events) where
  open redis use {Db, count}

  -- For every ad, date and kind, what the map has drained and what is still counted add up.
  abbrev Cells : Dict Delta × Db → Type 0
  Cells (deltas, db) =
      (a day : Text)
      → Holds redis (total a day) (show a) day (counts_of (lookup (delta_key (show a) day) deltas))
          db

  moved :
      (ad a date day : Text) (deltas : Dict Delta) (d : Delta) (db : Db)
      → ad ≡ a
      → date ≡ day
      → Holds redis (total ad date) (show ad) date d.counts db
      → Holds redis
          (total a day)
          (show a)
          day
          (counts_of (lookup (delta_key (show a) day) (insert (delta_key (show ad) date) d deltas)))
          db
  moved ad a date day deltas d db p q h =
      subst
        (λ (w : Text × Text).
          Holds redis (total w.0 w.1) (show w.0) w.1
            (counts_of
              (lookup (delta_key (show w.0) w.1) (insert (delta_key (show ad) date) d deltas)))
            db)
        (ap₂ (λ (x y : Text). (x, y)) p q)
        (subst (λ (o : Option Delta). Holds redis (total ad date) (show ad) date (counts_of o) db)
          (sym (lookup-insert_self (delta_key (show ad) date) d deltas)) h)

  drain_date-keeps :
      (campaign ad date : Text) (s : Dict Delta × Db)
      → Keyed show s.0
      → Cells s
      → let s' = drain_date redis show events fate campaign ad date s in Keyed show s'.0 × Cells s'
  unfolding drain_date
  drain_date-keeps campaign ad date (deltas, db) keyed cells =
      let key = delta_key (show ad) date in
      let d = delta_of (lookup key deltas) campaign ad date in
      let same = delta_of-counts (lookup key deltas) campaign ad date in
      let after =
        drain_events-Holds redis fate (total ad date) (show ad) date events d.counts db kept
          (small ad date) (clean ad).0 tracked
          (subst (λ (c : Counts). Holds redis (total ad date) (show ad) date c db) (sym same)
            (cells ad date)) in
      let (c', db') = drain_events redis fate (show ad) date events d.counts db in
      let d' : Delta = record d { counts = c' } in
      (
        insert-Keyed show key d' deltas (delta_of-key show campaign ad date deltas keyed)
            (λ k. let (m, n, f, e, s) = after k in (m, f, omega (arith, s, small ad date k))) keyed,
        λ a day. elim (text_cases key (delta_key (show a) day)) [
          | inl (q, t) ↦
              let (x, y) = cut 124 (show ad) (show a) (clean ad).1 (clean a).1 q in
              moved ad a date day deltas d' db' (inj ad a x) y after
          | inr (ne, t) ↦ λ k.
              let (m, n, f, e, s) = cells a day k in
              (
                m,
                n,
                ap (λ (o : Option Delta). field k (counts_of o))
                      (lookup-insert_other key (delta_key (show a) day) d' deltas ne)
                    ∙ f,
                drain_events-other redis fate (show ad) date (show a) day k events d.counts db
                      (clean ad).0 (clean a).0 tracked (λ x y. ne (ap₂ delta_key x y))
                    ∙ e,
                s,
              )
        ],
      )

  drain_dates-keeps :
      (campaign ad : Text) (dates : List Text) (s : Dict Delta × Db)
      → Keyed show s.0
      → Cells s
      → let s' = drain_dates redis show events fate campaign ad dates s in
        Keyed show s'.0 × Cells s'
  unfolding drain_dates
  drain_dates-keeps campaign ad [] s keyed cells = (keyed, cells)
  drain_dates-keeps campaign ad (date ∷ dates) s keyed cells =
      let (k, c) = drain_date-keeps campaign ad date s keyed cells in
      drain_dates-keeps campaign ad dates _ k c

  drain_ads-keeps :
      {F : Type 0} (ads : List (Ad F)) (dates : List Text) (s : Dict Delta × Db)
      → Keyed show s.0
      → Cells s
      → let s' = drain_ads redis show events fate ads dates s in Keyed show s'.0 × Cells s'
  unfolding drain_ads
  drain_ads-keeps [] dates s keyed cells = (keyed, cells)
  drain_ads-keeps (ad ∷ ads) dates s keyed cells =
      let (k, c) = drain_dates-keeps ad.campaign_id ad.id dates s keyed cells in
      drain_ads-keeps ads dates _ k c

  nothing_drained :
      (db : Db)
      → ((a day : Text) (k : Kind)
          → count db (counter_key (show a) (name k) day) ≡ some (total a day k))
      → Cells ([], db)
  unfolding lookup
  nothing_drained db counts a day k =
      (0, total a day k, field-no_counts k, counts a day k, omega arith)

  -- No count is lost and none is counted twice: when all ads have been drained on all dates and
  -- every upsert succeeds, the count of every counter is split between its row of daily_stats,
  -- which has gained the part that was read, and the counter, which still holds the rest. No
  -- reply of a GETDEL is lost, the counts are below 2^60, and ids are written one to one and
  -- without ':' and '|'.
  pub upsert_deltas-drain_ads :
      {F : Type 0} (ads : List (Ad F)) (dates : List Text) (db : Db) (runs : Text → Bool)
      (table : Table)
      → ((key : Text) → runs key ≡ true)
      → ((a day : Text) (k : Kind)
          → count db (counter_key (show a) (name k) day) ≡ some (total a day k))
      → let (deltas, db') = drain_ads redis show events fate ads dates ([], db) in
        let (ok, table') = upsert_deltas runs deltas table in
        (ok ≡ true)
        × ((a day : Text) (k : Kind)
            → (m : ℕ) × (n : ℕ) × (field k (table' a day) ≡ field k (table a day) +ℤ pos m)
              × (count db' (counter_key (show a) (name k) day) ≡ some n)
              × (m + n ≡ total a day k))
  upsert_deltas-drain_ads ads dates db runs table ok counts =
      let (keyed, cells) = drain_ads-keeps ads dates ([], db) tt (nothing_drained db counts) in
      let (done, adds) = upsert_deltas-Adds show runs _ table inj (λ a. (clean a).1) ok keyed in
      (
        done,
        λ a day k.
            let (m, n, f, e, s) = cells a day k in
            (m, n, adds a day k ∙ ap (λ (z : ℤ). field k (table a day) +ℤ z) f, e, s),
      )
