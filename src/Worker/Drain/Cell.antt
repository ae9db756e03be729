-- ===== src/Worker/Drain/Cell.antt =====
-- Lemmas on worker/drainer.go: the counters of one ad on one date while their events are drained.
use mathlib.Core.Path.{subst}
use openadsource.Common.{
  refl, some, [], ◌∷◌, ◌≡◌, ◌≢◌, Text, ℕ, arith, List, ◌<◌, ◌+◌, ◌∙◌, ap, sym, text_eq,
}
use openadsource.Common.Int.{ℤ, pos, wrap64, ◌+ℤ◌}
use openadsource.Redis.{
  Got, absent, number, garbled, answered, no_script, refused, reply_lost, got_value, Redis,
  Transport,
}
use openadsource.Worker.Drain.{
  Kind, impression, click, start, first_quartile, midpoint, third_quartile, complete, add_kind,
  Counts, add_reply, kind_of, add_event, take_counter, drain_events, add_kind,
}
use openadsource.Worker.Drain.Keys.{
  field, name, name_inj, name-kind_of, counter_key_inj, field-add_kind_other, field-add_kind_self,
}
use openadsource.Tracking.Track.{counter_key}
use openadsource.Common.Separator.{Lacks}

Kind-discrete : Discrete Kind
Kind-discrete = hlevel

-- Far from the end of an int64.
abbrev pub room : ℕ
room = 1152921504606846976

abbrev pub AllTracked : List Text → Type 0
AllTracked [] = Unit
AllTracked (ev ∷ events) = ((k : Kind) × (kind_of ev ≡ some k)) × AllTracked events

sum_lem : (m n : ℕ) → m + n < room → wrap64 (pos m +ℤ pos n) ≡ pos (m + n)
unfolding wrap64 ◌+ℤ◌
sum_lem m n h = ground arith

add_event-name : (j : Kind) (v : ℤ) (c : Counts) → add_event (name j) v c ≡ add_kind j v c
unfolding add_event kind_of text_eq name
add_event-name impression v c = refl
add_event-name click v c = refl
add_event-name start v c = refl
add_event-name first_quartile v c = refl
add_event-name midpoint v c = refl
add_event-name third_quartile v c = refl
add_event-name complete v c = refl

reply_self :
    (got : Got) (j : Kind) (c : Counts) (m n : ℕ)
    → got_value got ≡ some (pos n)
    → field j c ≡ pos m
    → m + n < room
    → field j (add_reply (name j) (some got) c) ≡ pos (m + n)
unfolding add_reply
reply_self absent j c m n e f h = f ∙ ap pos (ground (arith, e))
reply_self garbled j c m n e f h = ground arith
reply_self (number v) j c m n e f h =
    let v_is : v ≡ pos n = ground (arith, e) in
    rw (add_event-name j v c, field-add_kind_self j v c, f, v_is) (sum_lem m n h)

reply_other :
    (got : Got) (j k : Kind) (c : Counts)
    → j ≢ k
    → field k (add_reply (name j) (some got) c) ≡ field k c
unfolding add_reply
reply_other absent j k c ne = refl
reply_other garbled j k c ne = refl
reply_other (number v) j k c ne = rw (add_event-name j v c) (field-add_kind_other j k v c ne)

module _ (redis : Redis) where
  open redis use {Db, count, get_del}

  -- Of each kind, what is drained and what is still counted add up to the total.
  abbrev pub Holds : (Kind → ℕ) → Text → Text → Counts → Db → Type 0
  Holds total ad date c db =
      (k : Kind)
      → (m : ℕ) × (n : ℕ) × (field k c ≡ pos m)
        × (count db (counter_key ad (name k) date) ≡ some n)
        × (m + n ≡ total k)

  answered_lem :
      (total : Kind → ℕ) (ad date : Text) (j : Kind) (c : Counts) (db : Db)
      → ((k : Kind) → total k < room)
      → Lacks 58 ad
      → Holds total ad date c db
      → let key = counter_key ad (name j) date in
        Holds total ad date (add_reply (name j) (some (get_del key db).0) c) (get_del key db).1
  answered_lem total ad date j c db small clean h k =
      let key = counter_key ad (name j) date in
      let (m, n, f, e, s) = h k in
      elim (Kind-discrete j k) [
        | yes p ↦
            subst
              (λ (i : Kind).
                (m' : ℕ) × (n' : ℕ) × (field i (add_reply (name j) (some (get_del key db).0) c)
                  ≡ pos m')
                × (count (get_del key db).1 (counter_key ad (name i) date) ≡ some n')
                × (m' + n' ≡ total i))
              p
              (let (m2, n2, f2, e2, s2) = h j in
                (
                  m2 + n2,
                  0,
                  reply_self (get_del key db).0 j c m2 n2 (redis.get_del-reply key db n2 e2) f2
                      (omega (arith, s2, small j)),
                  redis.count-get_del key db n2 e2,
                  omega (arith, s2),
                ))
        | no ne ↦
            let other = λ (q : key ≡ counter_key ad (name k) date).
              ne (name_inj j k (counter_key_inj ad ad j k date date clean clean q).1) in
            (
              m,
              n,
              reply_other (get_del key db).0 j k c ne ∙ f,
              redis.count-get_del_other key (counter_key ad (name k) date) db other ∙ e,
              s,
            )
      ]

  event_lem :
      (t : Transport) (total : Kind → ℕ) (ad date ev : Text) (c : Counts) (db : Db)
      → t ≢ reply_lost
      → ((k : Kind) → total k < room)
      → Lacks 58 ad
      → ((k : Kind) × (kind_of ev ≡ some k))
      → Holds total ad date c db
      → let (reply, db') = take_counter redis t (counter_key ad ev date) db in
        Holds total ad date (add_reply ev reply c) db'
  unfolding take_counter add_reply
  event_lem answered total ad date ev c db kept small clean (j, e) h =
      subst
        (λ (w : Text).
          let key = counter_key ad w date in
          Holds total ad date (add_reply w (some (get_del key db).0) c) (get_del key db).1)
        (sym (name-kind_of ev j e)) (answered_lem total ad date j c db small clean h)
  event_lem no_script total ad date ev c db kept small clean (j, e) h = h
  event_lem refused total ad date ev c db kept small clean (j, e) h = h
  event_lem reply_lost total ad date ev c db kept small clean (j, e) h = absurd (kept refl)

  pub drain_events-Holds :
      (fate : Text → Transport) (total : Kind → ℕ) (ad date : Text) (events : List Text)
      (c : Counts) (db : Db)
      → ((key : Text) → fate key ≢ reply_lost)
      → ((k : Kind) → total k < room)
      → Lacks 58 ad
      → AllTracked events
      → Holds total ad date c db
      → let (c', db') = drain_events redis fate ad date events c db in Holds total ad date c' db'
  unfolding drain_events
  drain_events-Holds fate total ad date [] c db kept small clean all h = h
  drain_events-Holds fate total ad date (ev ∷ events) c db kept small clean all h =
      let key = counter_key ad ev date in
      let (reply, db') = take_counter redis (fate key) key db in
      drain_events-Holds fate total ad date events (add_reply ev reply c) db' kept small clean all.1
        (event_lem (fate key) total ad date ev c db (kept key) small clean all.0 h)

  -- The counters of another ad or date stay.
  pub drain_events-other :
      (fate : Text → Transport) (ad date other day : Text) (k : Kind) (events : List Text)
      (c : Counts) (db : Db)
      → Lacks 58 ad
      → Lacks 58 other
      → AllTracked events
      → ((ad ≡ other) → (date ≡ day) → ⊥)
      → count (drain_events redis fate ad date events c db).1 (counter_key other (name k) day)
        ≡ count db (counter_key other (name k) day)
  unfolding drain_events
  drain_events-other fate ad date other day k [] c db clean clean' all ne = refl
  drain_events-other fate ad date other day k (ev ∷ events) c db clean clean' ((j, e), all) ne =
      let key = counter_key ad ev date in
      let (reply, db') = take_counter redis (fate key) key db in
      let differ = λ (q : key ≡ counter_key other (name k) day).
        let same =
          counter_key_inj ad other j k date day clean clean'
            (ap (λ (w : Text). counter_key ad w date) (sym (name-kind_of ev j e)) ∙ q) in
        ne same.0 same.2 in
      drain_events-other fate ad date other day k events (add_reply ev reply c) db' clean clean' all
        ne
      ∙ take_other (fate key) key (counter_key other (name k) day) db differ
    where
      take_other :
          (t : Transport) (key j : Text) (db : Db)
          → key ≢ j
          → count (take_counter redis t key db).1 j ≡ count db j
      take_other answered key j db ne = redis.count-get_del_other key j db ne
      take_other no_script key j db ne = refl
      take_other refused key j db ne = refl
      take_other reply_lost key j db ne = redis.count-get_del_other key j db ne
