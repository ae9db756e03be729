-- ===== src/Tracking/Track.antt =====
-- server/internal/tracking/handler.go, ServeTrack, and userid.go, Resolve. The writes of the
-- response are its status and whether the pixel is its body; the metric is the label it counts.
pub mod Once
pub mod Claimed
pub mod Replay
use openadsource.Common.{
  ℕ, Bool, true, false, not, Option, none, some, List, [], ◌∷◌, ◌++◌, if◌then◌else◌, ◌||◌, Text,
  codes, text_eq, ◌==◌,
}
use openadsource.Common.Int.{ℤ, pos, eqb_ℤ}
use openadsource.Common.Dict.{Dict, lookup}
use openadsource.Redis.{Redis, Transport, answered, no_script, refused, reply_lost}
use openadsource.Tracking.Events.{is_tracked}
use openadsource.Tracking.Expiry.{parse_unix}
use openadsource.Tracking.Sign.{Crypto, Signer, verify}

-- url.Values.Get: the value of a parameter, empty if it is missing.
abbrev pub get : Text → Dict Text → Text
get name q = elim (lookup name q) [ none ↦ [] | some v ↦ v ]

pub data Label : Type 0 where
  invalid ok duplicate : Label

-- What is answered: the label, the status and whether the pixel is the body.
pub record Response : Type 0 where
  pub label : Label
  pub status : ℕ
  pub pixel : Bool

-- writeGIF.
abbrev pub write_gif : Label → ℕ → Response
write_gif label status = record { label = label; status = status; pixel = status == 200 }

-- 24 hours in milliseconds.
abbrev pub idempotency_ttl : ℕ
idempotency_ttl = 86400000

abbrev pub claim_key : Text → Text → Text
claim_key imp event = codes "track:" ++ (imp ++ (codes ":" ++ event))

abbrev pub counter_key : Text → Text → Text → Text
counter_key ad event date =
    codes "ad:" ++ (ad ++ (codes ":event:" ++ (event ++ (codes ":" ++ date))))

-- The parameters of a request.
pub record Hit : Type 0 where
  pub event : Text
  pub ad : Text
  pub imp : Text
  pub sig : Text
  pub exp : ℤ

unfoldable pub read_hit : Dict Text → Hit
read_hit q = record {
  event = get (codes "event") q;
  ad = get (codes "ad_id") q;
  imp = get (codes "imp_id") q;
  sig = get (codes "sig") q;
  exp = parse_unix (get (codes "exp") q);
}

-- The first guard.
unfoldable pub malformed : Hit → Bool
malformed h =
    not (is_tracked h.event)
    || text_eq h.ad []
    || text_eq h.imp []
    || text_eq h.sig []
    || eqb_ℤ h.exp (pos 0)

module _ (crypto : Crypto) where
  -- The second guard, which a handler without a signer skips.
  unfoldable pub forged : Option Signer → Hit → ℤ → Bool
  forged none h now = false
  forged (some s) h now = elim (verify crypto s h.ad h.imp h.event h.sig h.exp now) [
    | none ↦ false
    | some e ↦ true
  ]

module _ (redis : Redis) where
  open redis use {Db, incr, set_nx}

  -- SETNX as its caller sees it; `none` is an error.
  unfoldable pub claim : Transport → Text → Db → Option Bool × Db
  claim answered key db =
      let (free, db') = set_nx key (codes "1") idempotency_ttl db in (some free, db')
  claim no_script key db = (none, db)
  claim refused key db = (none, db)
  claim reply_lost key db = (none, (set_nx key (codes "1") idempotency_ttl db).1)

  -- INCR, whose error is only logged.
  unfoldable pub bump : Transport → Text → Db → Db
  bump answered key db = (incr key db).1
  bump no_script key db = db
  bump refused key db = db
  bump reply_lost key db = (incr key db).1

  -- The part that a handler with a client runs; `first` and `second` are what becomes of SETNX and
  -- of INCR.
  unfoldable pub record_hit : Transport → Transport → Hit → Text → Db → Response × Db
  unfolding claim bump
  record_hit first second h date db =
      let (reply, db') = claim first (claim_key h.imp h.event) db in
      elim reply [
        | none ↦ (write_gif ok 200, db')
        | some free ↦
            if free
            then (write_gif ok 200, bump second (counter_key h.ad h.event date) db')
            else (write_gif duplicate 204, db')
      ]

  -- ServeTrack, with the client present or not, the time, and the date of the counter.
  unfoldable pub serve_track :
      Crypto
      → Option Signer
      → Bool
      → Transport
      → Transport
      → Dict Text
      → ℤ
      → Text
      → Db
      → Response × Db
  unfolding record_hit malformed forged read_hit
  serve_track crypto signer client first second q now date db =
      let h = read_hit q in
      if malformed h
      then (write_gif invalid 204, db)
      else if forged crypto signer h now
      then (write_gif invalid 204, db)
      else if client
      then record_hit first second h date db
      else (write_gif ok 200, db)
