-- ===== src/Worker/Drain/Emptied.antt =====
-- Lemmas on worker/drainer.go: the counters that a drain has read.
use mathlib.Core.List.{Memᴰ}
use mathlib.Core.List.Memᴰ
use mathlib.Core.Path.{subst}
use openadsource.Common.{some, [], ◌∷◌, ◌≡◌, inl, inr, Text, ℕ, arith, List, ◌∙◌, text_cases, ap}
use openadsource.Common.Dict.{Dict, lookup}
use openadsource.Redis.{Redis, Transport, answered, no_script, refused, reply_lost}
use openadsource.Registry.Snapshot.{Ad}
use openadsource.Worker.Drain.{
  Counts, Delta, delta_key, delta_of, take_counter, add_reply, drain_events, drain_date,
  drain_dates, drain_ads,
}
use openadsource.Worker.Drain.Preserved.{
  take_counter-preserves, drain_events-preserves, drain_date-preserves, drain_dates-preserves,
  drain_ads-preserves,
}
use openadsource.Tracking.Track.{counter_key}

module _ (redis : Redis) where
  open redis use {Db, count, get_del}

  -- The key reads as a number, or as zero.
  abbrev Readable : Text → Db → Type 0
  Readable key db = (n : ℕ) × (count db key ≡ some n)

  get_del-Readable :
      (key ad ev date : Text) (db : Db)
      → Readable key db
      → Readable key (get_del (counter_key ad ev date) db).1
  get_del-Readable key ad ev date db (n, h) =
      let j = counter_key ad ev date in
      elim (text_cases j key) [
        | inl (e, t) ↦ (
          0,
          subst (λ (k : Text). count (get_del j db).1 k ≡ some 0) e
              (redis.count-get_del j db n (ap (count db) e ∙ h)),
        )
        | inr (ne, t) ↦ (n, redis.count-get_del_other j key db ne ∙ h)
      ]

  abbrev IsZero : Text → Db → Type 0
  IsZero key db = count db key ≡ some 0

  get_del-IsZero :
      (key ad ev date : Text) (db : Db)
      → IsZero key db
      → IsZero key (get_del (counter_key ad ev date) db).1
  get_del-IsZero key ad ev date db h =
      let j = counter_key ad ev date in
      elim (text_cases j key) [
        | inl (e, t) ↦
            subst (λ (k : Text). count (get_del j db).1 k ≡ some 0) e
              (redis.count-get_del j db 0 (ap (count db) e ∙ h))
        | inr (ne, t) ↦ redis.count-get_del_other j key db ne ∙ h
      ]

  take_counter-zero :
      (t : Transport) (key : Text) (db : Db) (n : ℕ)
      → t ≡ answered
      → count db key ≡ some n
      → count (take_counter redis t key db).1 key ≡ some 0
  unfolding take_counter
  take_counter-zero answered key db n e h = redis.count-get_del key db n h
  take_counter-zero no_script key db n e h = ground arith
  take_counter-zero refused key db n e h = ground arith
  take_counter-zero reply_lost key db n e h = ground arith

  drain_events-zero :
      (fate : Text → Transport) (ad date ev : Text) (events : List Text) (c : Counts) (db : Db)
      (n : ℕ)
      → fate (counter_key ad ev date) ≡ answered
      → Memᴰ ev events
      → count db (counter_key ad ev date) ≡ some n
      → count (drain_events redis fate ad date events c db).1 (counter_key ad ev date) ≡ some 0
  unfolding drain_events
  drain_events-zero fate ad date ev [] c db n ok m h = absurd (Memᴰ.not-nil m)
  drain_events-zero fate ad date ev (w ∷ events) c db n ok m h =
      let key = counter_key ad ev date in
      let j = counter_key ad w date in
      let (reply, db') = take_counter redis (fate j) j db in
      elim (Memᴰ.cases_cons m) [
        | inl e ↦
            drain_events-preserves redis (IsZero key) (get_del-IsZero key) fate ad date events
              (add_reply w reply c) db'
              (subst
                (λ (v : Text).
                  count
                    (take_counter redis (fate (counter_key ad v date)) (counter_key ad v date) db).1
                    key
                  ≡ some 0)
                e (take_counter-zero (fate key) key db n ok h))
        | inr later ↦
            let (i, f) =
              take_counter-preserves redis (Readable key) (get_del-Readable key) (fate j) ad w date
                db (n, h) in
            drain_events-zero fate ad date ev events (add_reply w reply c) db' i ok later f
      ]

  module _ (show : Text → Text) (events : List Text) (fate : Text → Transport) where
    module _ (ev : Text) (heard : Memᴰ ev events) where
      drain_date-zero :
          (campaign ad date : Text) (s : Dict Delta × Db) (n : ℕ)
          → fate (counter_key (show ad) ev date) ≡ answered
          → count s.1 (counter_key (show ad) ev date) ≡ some n
          → count
              (drain_date redis show events fate campaign ad date s).1
              (counter_key (show ad) ev date)
            ≡ some 0
      unfolding drain_date
      drain_date-zero campaign ad date (deltas, db) n ok h =
          drain_events-zero fate (show ad) date ev events
            (delta_of (lookup (delta_key (show ad) date) deltas) campaign ad date).counts db n ok
            heard h

      drain_dates-zero :
          (campaign ad day : Text) (dates : List Text) (s : Dict Delta × Db) (n : ℕ)
          → Memᴰ day dates
          → fate (counter_key (show ad) ev day) ≡ answered
          → count s.1 (counter_key (show ad) ev day) ≡ some n
          → count
              (drain_dates redis show events fate campaign ad dates s).1
              (counter_key (show ad) ev day)
            ≡ some 0
      unfolding drain_dates
      drain_dates-zero campaign ad day [] s n m ok h = absurd (Memᴰ.not-nil m)
      drain_dates-zero campaign ad day (date ∷ dates) s n m ok h =
          let key = counter_key (show ad) ev day in
          let s' = drain_date redis show events fate campaign ad date s in
          elim (Memᴰ.cases_cons m) [
            | inl e ↦
                drain_dates-preserves redis (IsZero key) (get_del-IsZero key) show events fate
                  campaign ad dates s'
                  (subst
                    (λ (d : Text).
                      count (drain_date redis show events fate campaign ad d s).1 key ≡ some 0)
                    e (drain_date-zero campaign ad day s n ok h))
            | inr later ↦
                let (i, f) =
                  drain_date-preserves redis (Readable key) (get_del-Readable key) show events fate
                    campaign ad date s (n, h) in
                drain_dates-zero campaign ad day dates s' i later ok f
          ]

      pub drain_ads-zero :
          {F : Type 0} (ad : Ad F) (day : Text) (ads : List (Ad F)) (dates : List Text)
          (s : Dict Delta × Db) (n : ℕ)
          → Memᴰ ad ads
          → Memᴰ day dates
          → fate (counter_key (show ad.id) ev day) ≡ answered
          → count s.1 (counter_key (show ad.id) ev day) ≡ some n
          → count (drain_ads redis show events fate ads dates s).1 (counter_key (show ad.id) ev day)
            ≡ some 0
      unfolding drain_ads
      drain_ads-zero {F} ad day [] dates s n m n' ok h = absurd (Memᴰ.not-nil m)
      drain_ads-zero {F} ad day (b ∷ ads) dates s n m today ok h =
          let key = counter_key (show ad.id) ev day in
          let s' = drain_dates redis show events fate b.campaign_id b.id dates s in
          elim (Memᴰ.cases_cons m) [
            | inl e ↦
                drain_ads-preserves redis (IsZero key) (get_del-IsZero key) show events fate ads
                  dates s'
                  (subst
                    (λ (a : Ad F).
                      count (drain_dates redis show events fate a.campaign_id a.id dates s).1 key
                      ≡ some 0)
                    e (drain_dates-zero ad.campaign_id ad.id day dates s n today ok h))
            | inr later ↦
                let (i, f) =
                  drain_dates-preserves redis (Readable key) (get_del-Readable key) show events fate
                    b.campaign_id b.id dates s (n, h) in
                drain_ads-zero ad day ads dates s' i later today ok f
          ]
