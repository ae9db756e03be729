-- ===== src/Delivery/Handle/Answered.antt =====
-- Lemmas on delivery/handler.go: what a request to /vast is answered with.
use openadsource.Common.{ℕ, ◌≡◌, Option, none, some, [], Text, get_elem?, if◌then◌else◌, false}
use openadsource.Common.Float.{Float64}
use openadsource.Redis.{Redis}
use openadsource.Registry.Snapshot.{Ad, Snapshot}
use openadsource.Tracking.Sign.{Crypto}
use openadsource.Tracking.User.{resolve_user, Cookie, uid_cookie}
use openadsource.Vast.{Vast, build_empty}
use openadsource.Delivery.{Chance}
use openadsource.Delivery.Loop.{IsAnswer}
use openadsource.Delivery.Serve.{serve_ad}
use openadsource.Delivery.Handle.{HttpRequest, Services, VastReply, read_request}

module _ (fl : Float64) (redis : Redis) (crypto : Crypto) (sv : Services) (snap : Snapshot fl.F)
    (r : HttpRequest) (chances : ℕ → Chance fl.F) where
  open fl use {F}
  open redis use {Db}

  abbrev user : Text
  user = (resolve_user r.query r.cookie sv.fresh_uid).0

  -- The document for what the loop chose: the empty one, or that of the ad.
  abbrev Written : Option ℕ → Vast → Type 0
  Written none doc = doc ≡ build_empty
  Written (some c) doc =
      (ad : Ad F) × (get_elem? snap.ads c ≡ some ad)
      × (doc
          ≡ serve_ad crypto sv.resolver sv.base_url sv.signer ad (sv.handler.uuid_string ad.id)
              sv.imp_id sv.now)

  -- The cookie for the visitor, if the identifier is a fresh one.
  abbrev Cookies : Option Cookie → Type 0
  Cookies cookie = cookie ≡ (
      if (resolve_user r.query r.cookie sv.fresh_uid).1 then some (uid_cookie user false) else none)

  -- What the loop may choose at the store `db` in five attempts, written, with the store it leaves.
  abbrev pub Answers : Db → VastReply → Db → Type 0
  Answers db reply db' =
      (choice : Option ℕ) × IsAnswer fl redis sv.handler snap (read_request sv r) user chances 5 0
        [] db (choice, db')
      × Written choice reply.document
      × Cookies reply.set_cookie
