-- ===== src/Tests/Serving.antt =====
-- The selection loop and the endpoint for pixels at the test data.
use openadsource.Common.{
  refl, true, some, ◌≡◌, [], ◌∷◌, Text, codes, arith, text_eq, member, false, none,
}
use openadsource.Common.Int.{pos, wrap64, ◌*ℤ◌, ◌+ℤ◌}
use openadsource.Common.Dict.{Dict, lookup}
use openadsource.Redis.{answered, reply_lost}
use openadsource.Tests.Instances.{handler, signer}
use openadsource.Tests.Stores.{store, empty_store}
use openadsource.Tests.Signatures.{toy_crypto, toy_body}
use openadsource.Delivery.{Handler}
use openadsource.Tracking.Track.Replay.{Visit}
use openadsource.Tracking.Track.{
  malformed, serve_track, read_hit, forged, counter_key, write_gif, ok, claim_key,
}
use openadsource.Tracking.Track.Once.{serve_track-duplicate, serve_track-first}
use openadsource.Tracking.Sign.{verify}
use openadsource.Tracking.Events.{is_tracked}
use openadsource.Tracking.Expiry.{parse_unix, parse_from, format_unix, format_digits}
use openadsource.Delivery.Handle.{Services, HttpRequest}
use openadsource.Storage.{new_resolver}

-- A server without Redis.
abbrev alone : Handler
alone = record { has_budget = false; has_freq = false; uuid_string = λ id. id }

abbrev services : Services
services = record {
  handler = handler;
  resolver = new_resolver (codes "https://c") (λ key. none);
  base_url = codes "https://b";
  signer = signer;
  parse = λ s. none;
  parse_uuid = λ s. none;
  matches = λ class ua. false;
  fresh_uid = codes "u";
  imp_id = codes "i";
  now = pos 3000000000;
}

abbrev http_request : HttpRequest
http_request = record {
  query = (codes "device", codes "desktop") ∷ [];
  user_agent = [];
  cookie = none;
  located = codes "IL";
}

-- A request for the start of impression "i" of ad "a".
abbrev query : Dict Text
query =
    (codes "event", codes "start")
    ∷ (codes "ad_id", codes "a")
    ∷ (codes "imp_id", codes "i")
    ∷ (codes "exp", codes "90000")
    ∷ (codes "sig", 48 ∷ toy_body (codes "ka|i|start|90000"))
    ∷ []

abbrev visit : Visit
visit = record {
  gap = 3600000;
  query = query;
  now = pos 3000000000;
  date = codes "2024-01-01";
  first = answered;
  second = reply_lost;
}

serve_track-first_example :
    let (r, db) =
      serve_track store toy_crypto
        (some signer)
        true
        answered
        answered
        query
        (pos 3000000000)
        (codes "2024-01-01")
        empty_store in
    (r ≡ write_gif ok 200)
    × (some (db.0 (counter_key (codes "a") (codes "start") (codes "2024-01-01"))) ≡ some 1)
    × (db.1 (claim_key (codes "i") (codes "start")) ≡ some (codes "1"))
unfolding malformed forged read_hit verify is_tracked member text_eq lookup parse_unix parse_from
    format_unix format_digits wrap64 ◌*ℤ◌ ◌+ℤ◌
serve_track-first_example =
    serve_track-first store toy_crypto (some signer) query (pos 3000000000) (codes "2024-01-01") 0
      empty_store refl refl refl refl (omega arith)

serve_track-duplicate_example :
    (serve_track store toy_crypto
      (some signer)
      true
      answered
      answered
      query
      (pos 3000000000)
      (codes "2024-01-01")
      (λ k. 0, λ k. some (codes "1"), λ k. some 1000)).1
    ≡ (λ k. 0, λ k. some (codes "1"), λ k. some 1000)
serve_track-duplicate_example =
    serve_track-duplicate store toy_crypto (some signer) true answered answered query
      (pos 3000000000) (codes "2024-01-01") (λ k. 0, λ k. some (codes "1"), λ k. some 1000) refl
