-- ===== src/Tracking/Track/Claimed.antt =====
-- Lemmas on tracking/handler.go, ServeTrack: the claim of a free pair, and its time.
use openadsource.Common.{
  none, some, arith, ◌⊎◌, inl, inr, ◌≡◌, ◌≢◌, ℕ, suc, ◌≤◌, ◌<◌, Text, codes, text_cases, ◌∙◌, sym,
}
use openadsource.Redis.{Redis, Transport, answered, no_script, refused, reply_lost, max_counter}
use openadsource.Tracking.Track.{
  Hit, claim, bump, claim_key, counter_key, idempotency_ttl, record_hit,
}

module _ (redis : Redis) where
  open redis use {Db, count, held, ttl, incr, set_nx}

  -- The pair is claimed for longer than `rest` milliseconds, and at most one is counted.
  abbrev pub Claimed : ℕ → Text → Text → ℕ → Db → Type 0
  Claimed rest key counter n db =
      (w : Text) × (r m : ℕ) × (held db key ≡ some w)
      × (ttl db key ≡ some r)
      × (rest < r)
      × (count db counter ≡ some m)
      × (n ≤ m)
      × (m ≤ suc n)

  -- Either nothing is counted yet, or the pair is claimed; and the counter does not expire.
  abbrev pub AtMostOne : ℕ → Text → Text → ℕ → Db → Type 0
  AtMostOne rest key counter n db =
      (ttl db counter ≡ none) × ((count db counter ≡ some n) ⊎ Claimed rest key counter n db)

  incr-Claimed :
      (rest : ℕ) (imp event ad date : Text) (counter : Text) (n r : ℕ) (db : Db) {w : Text}
      → held db (claim_key imp event) ≡ some w
      → ttl db (claim_key imp event) ≡ some r
      → rest < r
      → count db counter ≡ some n
      → n < max_counter
      → Claimed rest (claim_key imp event) counter n (incr (counter_key ad event date) db).1
  incr-Claimed rest imp event ad date counter n r db {w} h t l e m =
      let k = counter_key ad event date in
      let still = redis.held-incr_other k (claim_key imp event) db (ground arith) ∙ h in
      let expires = redis.ttl-incr k (claim_key imp event) db ∙ t in
      elim (text_cases k counter) [
        | inl (p, _) ↦
            let here : count (incr k db).1 counter ≡ some (suc n) =
              rw (sym p) (redis.count-incr k db n (rw p e) m) in
            (w, r, suc n, still, expires, l, here, omega arith, omega arith)
        | inr (ne, _) ↦
            let here = redis.count-incr_other k counter db ne ∙ e in
            (w, r, n, still, expires, l, here, omega arith, omega arith)
      ]

  bump-AtMostOne :
      (t : Transport) (rest : ℕ) (imp event ad date : Text) (counter : Text) (n r : ℕ) (db : Db)
      {w : Text}
      → held db (claim_key imp event) ≡ some w
      → ttl db (claim_key imp event) ≡ some r
      → rest < r
      → ttl db counter ≡ none
      → count db counter ≡ some n
      → n < max_counter
      → AtMostOne rest (claim_key imp event) counter n (bump redis t (counter_key ad event date) db)
  unfolding bump
  bump-AtMostOne answered rest imp event ad date counter n r db h t l s e m = (
    redis.ttl-incr (counter_key ad event date) counter db ∙ s,
    inr (incr-Claimed rest imp event ad date counter n r db h t l e m),
  )
  bump-AtMostOne no_script rest imp event ad date counter n r db h t l s e m = (s, inl e)
  bump-AtMostOne refused rest imp event ad date counter n r db h t l s e m = (s, inl e)
  bump-AtMostOne reply_lost rest imp event ad date counter n r db h t l s e m = (
    redis.ttl-incr (counter_key ad event date) counter db ∙ s,
    inr (incr-Claimed rest imp event ad date counter n r db h t l e m),
  )

  -- A free pair is claimed for 24 hours.
  pub record_hit-AtMostOne :
      (first second : Transport) (rest : ℕ) (h : Hit) (date counter : Text) (n : ℕ) (db : Db)
      → rest < 86400000
      → held db (claim_key h.imp h.event) ≡ none
      → ttl db counter ≡ none
      → count db counter ≡ some n
      → n < max_counter
      → claim_key h.imp h.event ≢ counter
      → AtMostOne rest
          (claim_key h.imp h.event)
          counter
          n
          (record_hit redis first second h date db).1
  unfolding record_hit claim
  record_hit-AtMostOne answered second rest h date counter n db l free s e m ne =
      let key = claim_key h.imp h.event in
      let (won, claimed, expires) =
        redis.set_nx-free key (codes "1") idempotency_ttl db (omega arith) free in
      let before = redis.count-set_nx_other key counter (codes "1") idempotency_ttl db ne ∙ e in
      let stays = redis.ttl-set_nx_other key counter (codes "1") idempotency_ttl db ne ∙ s in
      let db' = (set_nx key (codes "1") idempotency_ttl db).1 in
      rw won (
        bump-AtMostOne second rest h.imp h.event h.ad date counter n 86400000 db' claimed expires l
          stays before m)
  record_hit-AtMostOne no_script second rest h date counter n db l free s e m ne = (s, inl e)
  record_hit-AtMostOne refused second rest h date counter n db l free s e m ne = (s, inl e)
  record_hit-AtMostOne reply_lost second rest h date counter n db l free s e m ne =
      let key = claim_key h.imp h.event in
      let before = redis.count-set_nx_other key counter (codes "1") idempotency_ttl db ne ∙ e in
      let stays = redis.ttl-set_nx_other key counter (codes "1") idempotency_ttl db ne ∙ s in
      (stays, inl before)
