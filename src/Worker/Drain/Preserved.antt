-- ===== src/Worker/Drain/Preserved.antt =====
-- Lemmas on worker/drainer.go: what a drain cannot break, since it only deletes event counters.
use openadsource.Common.{[], ◌∷◌, Text, List}
use openadsource.Common.Dict.{Dict, lookup}
use openadsource.Redis.{Redis, Transport, answered, no_script, refused, reply_lost}
use openadsource.Registry.Snapshot.{Ad}
use openadsource.Worker.Drain.{
  Counts, Delta, delta_key, delta_of, take_counter, add_reply, drain_events, drain_date,
  drain_dates, drain_ads,
}
use openadsource.Tracking.Track.{counter_key}

module _ (redis : Redis) (P : redis.Db → Type 0)
    (keeps : (ad ev date : Text) (db : redis.Db)
      → P db
      → P (redis.get_del (counter_key ad ev date) db).1) where
  open redis use {Db}

  pub take_counter-preserves :
      (t : Transport) (ad ev date : Text) (db : Db)
      → P db
      → P (take_counter redis t (counter_key ad ev date) db).1
  unfolding take_counter
  take_counter-preserves answered ad ev date db h = keeps ad ev date db h
  take_counter-preserves no_script ad ev date db h = h
  take_counter-preserves refused ad ev date db h = h
  take_counter-preserves reply_lost ad ev date db h = keeps ad ev date db h

  pub drain_events-preserves :
      (fate : Text → Transport) (ad date : Text) (events : List Text) (c : Counts) (db : Db)
      → P db
      → P (drain_events redis fate ad date events c db).1
  unfolding drain_events
  drain_events-preserves fate ad date [] c db h = h
  drain_events-preserves fate ad date (ev ∷ events) c db h =
      let j = counter_key ad ev date in
      let (reply, db') = take_counter redis (fate j) j db in
      drain_events-preserves fate ad date events (add_reply ev reply c) db'
        (take_counter-preserves (fate j) ad ev date db h)

  module _ (show : Text → Text) (events : List Text) (fate : Text → Transport) where
    pub drain_date-preserves :
        (campaign ad date : Text) (s : Dict Delta × Db)
        → P s.1
        → P (drain_date redis show events fate campaign ad date s).1
    unfolding drain_date
    drain_date-preserves campaign ad date (deltas, db) h =
        drain_events-preserves fate (show ad) date events
          (delta_of (lookup (delta_key (show ad) date) deltas) campaign ad date).counts db h

    pub drain_dates-preserves :
        (campaign ad : Text) (dates : List Text) (s : Dict Delta × Db)
        → P s.1
        → P (drain_dates redis show events fate campaign ad dates s).1
    unfolding drain_dates
    drain_dates-preserves campaign ad [] s h = h
    drain_dates-preserves campaign ad (date ∷ dates) s h =
        drain_dates-preserves campaign ad dates _ (drain_date-preserves campaign ad date s h)

    pub drain_ads-preserves :
        {F : Type 0} (ads : List (Ad F)) (dates : List Text) (s : Dict Delta × Db)
        → P s.1
        → P (drain_ads redis show events fate ads dates s).1
    unfolding drain_ads
    drain_ads-preserves [] dates s h = h
    drain_ads-preserves (ad ∷ ads) dates s h =
        drain_ads-preserves ads dates _ (drain_dates-preserves ad.campaign_id ad.id dates s h)
