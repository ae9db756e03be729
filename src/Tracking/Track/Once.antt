-- ===== src/Tracking/Track/Once.antt =====
-- Lemmas on tracking/handler.go, ServeTrack: the claim of an impression and event.
use openadsource.Common.{
  refl, true, false, Bool, Option, none, some, arith, ◌≡◌, ◌≢◌, ℕ, suc, ◌<◌, Text, codes, ◌∙◌,
}
use openadsource.Common.Int.{ℤ}
use openadsource.Common.Dict.{Dict}
use openadsource.Redis.{Redis, Transport, answered, no_script, refused, reply_lost, max_counter}
use openadsource.Tracking.Sign.{Crypto, Signer}
use openadsource.Tracking.Track.{
  Hit, ok, write_gif, read_hit, malformed, forged, claim, bump, claim_key, counter_key,
  idempotency_ttl, record_hit, serve_track,
}

module _ (redis : Redis) where
  open redis use {Db, count, held, incr, set_nx}

  claim-taken :
      (t : Transport) (key : Text) (db : Db) {w : Text}
      → held db key ≡ some w
      → ((claim redis t key db).1 ≡ db) × ((claim redis t key db).0 ≢ some true)
  unfolding claim
  claim-taken answered key db h =
      let taken = redis.set_nx-taken key (codes "1") idempotency_ttl db h in rw taken ground arith
  claim-taken no_script key db h = ground arith
  claim-taken refused key db h = ground arith
  claim-taken reply_lost key db h =
      let taken = redis.set_nx-taken key (codes "1") idempotency_ttl db h in rw taken ground arith

  record_hit-duplicate :
      (first second : Transport) (h : Hit) (date : Text) (db : Db) {w : Text}
      → held db (claim_key h.imp h.event) ≡ some w
      → (record_hit redis first second h date db).1 ≡ db
  unfolding record_hit
  record_hit-duplicate first second h date db e =
      let (same, lost) = claim-taken first (claim_key h.imp h.event) db e in
      ground (arith, same, lost)

  -- A request whose impression and event are claimed already changes nothing in Redis, whoever
  -- signed it and whatever becomes of its commands.
  pub serve_track-duplicate :
      (crypto : Crypto) (signer : Option Signer) (client : Bool) (first second : Transport)
      (q : Dict Text) (now : ℤ) (date : Text) (db : Db) {w : Text}
      → held db (claim_key (read_hit q).imp (read_hit q).event) ≡ some w
      → (serve_track redis crypto signer client first second q now date db).1 ≡ db
  unfolding serve_track
  serve_track-duplicate crypto signer client first second q now date db e =
      let same = record_hit-duplicate first second (read_hit q) date db e in ground (arith, same)

  -- The first good request for an impression and an event is answered with the pixel, counts one
  -- for the ad on the date, and leaves the pair claimed.
  pub serve_track-first :
      (crypto : Crypto) (signer : Option Signer) (q : Dict Text) (now : ℤ) (date : Text) (n : ℕ)
      (db : Db)
      → malformed (read_hit q) ≡ false
      → forged crypto signer (read_hit q) now ≡ false
      → held db (claim_key (read_hit q).imp (read_hit q).event) ≡ none
      → count db (counter_key (read_hit q).ad (read_hit q).event date) ≡ some n
      → n < max_counter
      → let (r, db') = serve_track redis crypto signer true answered answered q now date db in
        (r ≡ write_gif ok 200)
        × (count db' (counter_key (read_hit q).ad (read_hit q).event date) ≡ some (suc n))
        × (held db' (claim_key (read_hit q).imp (read_hit q).event) ≡ some (codes "1"))
  unfolding serve_track record_hit claim bump
  serve_track-first crypto signer q now date n db good signed free e m =
      let h = read_hit q in
      let key = claim_key h.imp h.event in
      let counter = counter_key h.ad h.event date in
      let (won, claimed, expires) =
        redis.set_nx-free key (codes "1") idempotency_ttl db (omega arith) free in
      let db' = (set_nx key (codes "1") idempotency_ttl db).1 in
      let before =
        redis.count-set_nx_other key counter (codes "1") idempotency_ttl db (ground arith) ∙ e in
      let after = redis.count-incr counter db' n before m in
      let still = redis.held-incr_other counter key db' (ground arith) ∙ claimed in
      rw (good, signed, won) (refl, after, still)
