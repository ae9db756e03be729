-- ===== src/Tracking/Track/Replay.antt =====
-- Lemmas on tracking/handler.go: sequences of requests for one impression and event.
use openadsource.Common.{true, Option, List, [], ◌∷◌, ◌≡◌, ℕ, Text, ◌+◌}
use openadsource.Common.Int.{ℤ}
use openadsource.Common.Dict.{Dict}
use openadsource.Redis.{Redis, Transport}
use openadsource.Tracking.Sign.{Crypto, Signer}
use openadsource.Tracking.Track.{read_hit, serve_track}

-- One request: the milliseconds since the one before, its query, its time and date, and what becomes of its two commands.
pub record Visit : Type 0 where
  pub gap : ℕ
  pub query : Dict Text
  pub now : ℤ
  pub date : Text
  pub first : Transport
  pub second : Transport

-- The milliseconds that all requests take.
unfoldable pub span : List Visit → ℕ
span [] = 0
span (v ∷ visits) = v.gap + span visits

-- Every request is for the same pair.
abbrev pub AllFor : Text → Text → List Visit → Type 0
AllFor imp event [] = Unit
AllFor imp event (v ∷ visits) =
    ((read_hit v.query).imp ≡ imp) × ((read_hit v.query).event ≡ event) × AllFor imp event visits

module _ (redis : Redis) where
  open redis use {Db, count, held, ttl, pass, incr, set_nx}

  -- The requests one after another.
  unfoldable pub serve_all : Crypto → Option Signer → List Visit → Db → Db
  serve_all crypto signer [] db = db
  serve_all crypto signer (v ∷ visits) db =
      let (r, db') =
        serve_track redis crypto signer true v.first v.second v.query v.now v.date
          (pass v.gap db) in
      serve_all crypto signer visits db'
