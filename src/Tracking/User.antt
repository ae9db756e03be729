-- ===== src/Tracking/User.antt =====
-- server/internal/tracking/userid.go: the anonymous identity of a visitor. SHA-256 is a parameter.
use openadsource.Common.{
  Bool, true, false, not, if◌then◌else◌, List, [], ◌∷◌, ◌++◌, Option, none, some, Text, codes, ℕ,
  ◌*◌, text_eq, ◌≡◌, refl, arith,
}
use openadsource.Common.Dict.{Dict}
use openadsource.Common.Separator.{Lacks, cut}
use openadsource.Common.Slices.{take}
use openadsource.Tracking.Track.{get}

abbrev pub uid_cookie_name : Text
uid_cookie_name = codes "oas_uid"

-- A year, in seconds.
abbrev pub uid_cookie_max_age : ℕ
uid_cookie_max_age = 365 * 24 * 3600

-- The user identifier: the parameter, the cookie if there is one, or a fresh UUID; and whether the
-- cookie is to be set.
unfoldable pub resolve_user : Dict Text → Option Text → Text → Text × Bool
resolve_user q cookie fresh =
    let v = get (codes "user_id") q in
    if not (text_eq v []) then (v, false) else elim cookie [
      | none ↦ (fresh, true)
      | some c ↦ if not (text_eq c []) then (c, false) else (fresh, true)
    ]

-- What is hashed: the text of the address, a zero byte, and the user agent.
unfoldable pub fingerprint : Text → Text → Text
fingerprint ip user_agent = ip ++ 0 ∷ user_agent

-- FallbackHash, from the text of the address; `sha256` gives the digest in hexadecimal digits.
unfoldable pub fallback_hash : (Text → Text) → Text → Text → Text
fallback_hash sha256 ip user_agent = take 16 (sha256 (fingerprint ip user_agent))

pub data SameSite : Type 0 where
  default_mode lax_mode strict_mode none_mode : SameSite

pub record Cookie : Type 0 where
  pub name : Text
  pub value : Text
  pub path : Text
  pub max_age : ℕ
  pub http_only : Bool
  pub secure : Bool
  pub same_site : SameSite

-- The cookie that SetUIDCookie adds to the response.
abbrev pub uid_cookie : Text → Bool → Cookie
uid_cookie uid secure = record {
  name = uid_cookie_name;
  value = uid;
  path = codes "/";
  max_age = uid_cookie_max_age;
  http_only = true;
  secure = secure;
  same_site = lax_mode;
}

-- Request.Cookie: the first cookie of a name.
unfoldable pub find_cookie : List Cookie → Text → Option Text
find_cookie [] name = none
find_cookie (c ∷ jar) name =
    let later = find_cookie jar name in if text_eq c.name name then some c.value else later

find_cookie-append :
    (jar : List Cookie) (c : Cookie) (name : Text)
    → find_cookie jar name ≡ none
    → text_eq c.name name ≡ true
    → find_cookie (jar ++ c ∷ []) name ≡ some c.value
unfolding find_cookie
find_cookie-append [] c name h e = rw e refl
find_cookie-append (d ∷ jar) c name h e = ground (arith, e, h, find_cookie-append jar c name)

-- A visitor without the parameter and the cookie is given a fresh identifier, and with the cookie
-- that is then set the next request has the same identifier and sets none.
pub resolve_user-returning :
    (q : Dict Text) (jar : List Cookie) (secure : Bool) (fresh fresh' : Text)
    → get (codes "user_id") q ≡ []
    → find_cookie jar uid_cookie_name ≡ none
    → text_eq fresh [] ≡ false
    → (resolve_user q (find_cookie jar uid_cookie_name) fresh ≡ (fresh, true))
      × (resolve_user q (find_cookie (jar ++ uid_cookie fresh secure ∷ []) uid_cookie_name) fresh'
          ≡ (fresh, false))
unfolding resolve_user text_eq
resolve_user-returning q jar secure fresh fresh' e h f = (
  rw (e, h) refl,
  rw (e, find_cookie-append jar (uid_cookie fresh secure) uid_cookie_name h refl, f) refl,
)

-- The text of an address holds no zero byte, so what is hashed tells the address and the user agent
-- apart.
pub fingerprint_inj :
    (ip ip' ua ua' : Text)
    → Lacks 0 ip
    → Lacks 0 ip'
    → fingerprint ip ua ≡ fingerprint ip' ua'
    → (ip ≡ ip') × (ua ≡ ua')
unfolding fingerprint
fingerprint_inj ip ip' ua ua' h h' e = cut 0 ip ip' h h' e
