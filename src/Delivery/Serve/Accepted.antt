-- ===== src/Delivery/Serve/Accepted.antt =====
-- Lemmas on delivery/handler.go, signedTrackingURL, with tracking/handler.go, ServeTrack.
use mathlib.Core.Path.{subst}
use openadsource.Common.Int.{pos, ltb_ℤ, ◌+ℤ◌}
use openadsource.Common.{
  refl, ap, Option, true, false, some, none, ◌≡◌, [], text_eq, Text, ℕ, ◌≤◌, arith, sym,
}
use openadsource.Tracking.Track.{malformed, forged, read_hit}
use openadsource.Delivery.Serve.{signed_query, signed_tracking_url}
use openadsource.Tracking.Sign.{
  sign, Crypto, Signer, unix, message, verify_iff, compute, verify, SignError, format_int,
}
use openadsource.Common.Dict.{lookup}
use openadsource.Common.Int.{ℤ, pos}
use openadsource.Tracking.Events.{is_tracked}
use openadsource.Tracking.Expiry.{parse_unix, format_unix, parse_unix-format_unix}
use openadsource.Tracking.Query.Plain.{IsPlainText}
use openadsource.Tracking.Query.{url_query}
use openadsource.Common.Separator.{Lacks}
use openadsource.Tracking.Query.Words.{tracked-plain, format_unix-plain, IsHex-plain}
use openadsource.Delivery.Serve.Rendered.{url_query-render}

-- The parameters pass both guards of /track up to their expiry: for a counted event, identifiers that
-- are not empty, and an expiry of at most 2 ^ 62.
signed_query-accepted :
    (crypto : Crypto) (s : Signer) (ad imp event : Text) (now later : ℤ) (n : ℕ)
    → is_tracked event ≡ true
    → text_eq ad [] ≡ false
    → text_eq imp [] ≡ false
    → (sign crypto s ad imp event now).1 ≡ pos n
    → 1 ≤ n
    → n ≤ 4611686018427387904
    → ltb_ℤ (pos n) (unix later) ≡ false
    → (malformed (read_hit (signed_query crypto s ad imp event now)) ≡ false)
      × (forged crypto (some s) (read_hit (signed_query crypto s ad imp event now)) later ≡ false)
unfolding malformed forged read_hit signed_query sign lookup text_eq
signed_query-accepted crypto s ad imp event now later n t a i e l h fresh =
    let read : parse_unix (format_unix n) ≡ pos n = parse_unix-format_unix n l h in
    let mac = crypto.hmac s.key (message ad imp event (pos n)) in
    let sig = crypto.encode-nonempty mac in
    let signed = compute crypto s ad imp event (pos n) in
    let ok : verify crypto s ad imp event signed (pos n) later ≡ none =
      (verify_iff crypto s ad imp event signed (pos n) later).1
        (ground arith, crypto.decode-encode mac, fresh) in
    let passes = ap (λ (r : Option SignError). elim r [ none ↦ false | some err ↦ true ]) ok in
    (rw (malformed, e, read, t, a, i, sig) ground arith, rw (e, read) passes)

signed_query-fields :
    (crypto : Crypto) (s : Signer) (ad imp event : Text) (now : ℤ) (n : ℕ)
    → (sign crypto s ad imp event now).1 ≡ pos n
    → 1 ≤ n
    → n ≤ 4611686018427387904
    → let h = read_hit (signed_query crypto s ad imp event now) in
      (h.event ≡ event) × (h.ad ≡ ad) × (h.imp ≡ imp) × (h.exp ≡ pos n)
unfolding read_hit signed_query sign lookup text_eq
signed_query-fields crypto s ad imp event now n e l h =
    (refl, refl, refl, rw e (parse_unix-format_unix n l h))

-- The parameters are read back from the URL.
url_query-signed :
    (crypto : Crypto) (base : Text) (s : Signer) (ad imp event : Text) (now : ℤ) (n : ℕ)
    → Lacks 35 base
    → Lacks 63 base
    → IsPlainText ad
    → IsPlainText imp
    → IsPlainText event
    → (sign crypto s ad imp event now).1 ≡ pos n
    → url_query (signed_tracking_url crypto base s ad imp event now)
      ≡ signed_query crypto s ad imp event now
unfolding signed_tracking_url signed_query sign text_eq
url_query-signed crypto base s ad imp event now n b b' a i ev e =
    let exp : IsPlainText (format_int (unix (now +ℤ s.ttl))) =
      subst (λ (x : ℤ). IsPlainText (format_int x)) (sym e) (format_unix-plain n) in
    let mac = crypto.hmac s.key (message ad imp event (unix (now +ℤ s.ttl))) in
    let sig = IsHex-plain (crypto.encode mac) (crypto.encode-IsHex mac) in
    url_query-render base _ b b' (
      (
        refl,
        ground arith,
        ev,
        (
          refl,
          ground arith,
          a,
          (refl, ground arith, i, (refl, ground arith, exp, (refl, ground arith, sig, tt))),
        ),
      ))

-- A URL that serveAd signs under a base without '?' and '#' is read back by /track as the event and
-- the identifiers that it was signed for, and passes both guards up to its expiry: for a counted
-- event, identifiers that are not empty and have none of the bytes #%&+;=?, and an expiry from 1 to
-- 2 ^ 62.
pub signed_tracking_url-accepted :
    (crypto : Crypto) (base : Text) (s : Signer) (ad imp event : Text) (now later : ℤ) (n : ℕ)
    → Lacks 35 base
    → Lacks 63 base
    → IsPlainText ad
    → IsPlainText imp
    → is_tracked event ≡ true
    → text_eq ad [] ≡ false
    → text_eq imp [] ≡ false
    → (sign crypto s ad imp event now).1 ≡ pos n
    → 1 ≤ n
    → n ≤ 4611686018427387904
    → ltb_ℤ (pos n) (unix later) ≡ false
    → let h = read_hit (url_query (signed_tracking_url crypto base s ad imp event now)) in
      (h.event ≡ event)
      × (h.ad ≡ ad)
      × (h.imp ≡ imp)
      × (h.exp ≡ pos n)
      × (malformed h ≡ false)
      × (forged crypto (some s) h later ≡ false)
signed_tracking_url-accepted crypto base s ad imp event now later n b b' a i t ad_given imp_given e
      l h fresh =
    let q = url_query-signed crypto base s ad imp event now n b b' a i (tracked-plain event t) e in
    let (good, genuine) =
      signed_query-accepted crypto s ad imp event now later n t ad_given imp_given e l h fresh in
    let fields = signed_query-fields crypto s ad imp event now n e l h in
    rw q (fields.0, fields.1, fields.2, fields.3, good, genuine)
