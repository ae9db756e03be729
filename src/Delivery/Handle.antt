-- ===== src/Delivery/Handle.antt =====
-- server/internal/delivery/handler.go: ServeVAST from the request to the document. The parsers, the
-- expressions for user agents, and the country that GeoIP gives for the client are arguments.
pub mod Answered
use openadsource.Common.{
  not, Bool, Option, none, some, List, [], ◌>>=◌, if◌then◌else◌, Text, codes, text_eq, ℕ, get_elem?,
  false,
}
use openadsource.Common.Int.{ℤ, pos}
use openadsource.Common.Dict.{Dict}
use openadsource.Common.Float.{Float64}
use openadsource.Redis.{Redis}
use openadsource.Registry.Snapshot.{Snapshot}
use openadsource.Selection.{Request}
use openadsource.Storage.{Resolver}
use openadsource.Targeting.{request_device}
use openadsource.Tracking.Sign.{Crypto, Signer}
use openadsource.Tracking.Track.{get}
use openadsource.Tracking.User.{resolve_user, Cookie, uid_cookie}
use openadsource.Vast.{Vast, build_empty}
use openadsource.Delivery.{Handler, Chance, serve_vast}
use openadsource.Delivery.Serve.{default_str, serve_ad}

-- strconv.ParseInt into 32 bits is `parse`, none for an error.
unfoldable pub parse_int32 : (Text → Option ℤ) → Text → ℤ
parse_int32 parse s = if text_eq s [] then pos 0 else elim (parse s) [ none ↦ pos 0 | some n ↦ n ]

-- A request: its query, its user agent, its cookie oas_uid, and the country of its address.
pub record HttpRequest : Type 0 where
  pub query : Dict Text
  pub user_agent : Text
  pub cookie : Option Text
  pub located : Text

-- The parts of the handler, what it relies on, and the values that it draws: identifiers and a time.
pub record Services : Type 0 where
  pub handler : Handler
  pub resolver : Resolver
  pub base_url : Text
  pub signer : Signer
  pub parse : Text → Option ℤ
  pub parse_uuid : Text → Option Text
  pub matches : Text → Text → Bool
  pub fresh_uid : Text
  pub imp_id : Text
  pub now : ℤ

-- The document, and the cookie that is set.
pub record VastReply : Type 0 where
  pub document : Vast
  pub set_cookie : Option Cookie

unfoldable pub read_request : Services → HttpRequest → Request
unfolding parse_int32 default_str request_device
read_request sv r = record {
  position = default_str (get (codes "pos") r.query) (codes "pre");
  offset = parse_int32 sv.parse (get (codes "offset") r.query);
  country = default_str (get (codes "country") r.query) r.located;
  device = request_device sv.matches (get (codes "device") r.query) r.user_agent;
  exclude = [];
}

module _ (fl : Float64) (redis : Redis) (crypto : Crypto) where
  open fl use {F}
  open redis use {Db}

  -- writeEmpty, or serveAd for the chosen ad.
  unfoldable pub write_answer : Services → Snapshot F → Option ℕ → Option Vast
  write_answer sv snap none = some build_empty
  write_answer sv snap (some i) = do
    ad ← get_elem? snap.ads i
    some (
        serve_ad crypto sv.resolver sv.base_url sv.signer ad (sv.handler.uuid_string ad.id)
          sv.imp_id sv.now)

  -- ServeVAST, for the snapshot that Get returns.
  unfoldable pub handle :
      Services → Option (Snapshot F) → HttpRequest → (ℕ → Chance F) → Db → Option (VastReply × Db)
  unfolding read_request write_answer
  handle sv none r chances db = some (record { document = build_empty; set_cookie = none }, db)
  handle sv (some snap) r chances db = do
    let (uid, fresh) = resolve_user r.query r.cookie sv.fresh_uid
    let raw_id = get (codes "ad_id") r.query
    answer ←
        serve_vast fl redis sv.handler (some snap) (read_request sv r) uid chances raw_id
          (sv.parse_uuid raw_id) db
    document ← write_answer sv snap answer.0
    some (
      record {
        document = document;
        set_cookie = if fresh then some (uid_cookie uid false) else none;
      },
      answer.1,
    )
