-- ===== src/Tests/Pixels.antt =====
-- The signed URLs, the documents and the targeting at the test data.
use openadsource.Common.{
  refl, true, false, some, none, ◌≡◌, [], ◌∷◌, ℕ, Text, codes, arith, ◌⊎◌, ◌↔◌, map, Bool, ◌≢◌,
  text_eq, member, ◌++◌, Option, replicate,
}
use openadsource.Common.Int.{pos, ◌≤ℤ◌, ◌+ℤ◌, leb_ℤ, ltb_ℤ}
use openadsource.Tests.Instances.{signer, ad}
use openadsource.Tests.Signatures.{toy_crypto}
use openadsource.Tracking.Expiry.{parse_unix, format_unix, parse_unix-format_unix, format_digits}
use openadsource.Tracking.Sign.{sign, verify, verify-sign, message, unix, verify_iff}
use openadsource.Tracking.Events.{is_tracked}
use openadsource.Registry.Snapshot.{Ad, wildcard_key}
use openadsource.Vast.{build_linear, InlineInput, MediaFile}
use openadsource.Targeting.{
  request_device, is_trusted, resolve_ip, normalise_device, resolve_ip_lem, request_device_lem,
}
use openadsource.Delivery.Serve.{inline_input, signed_tracking_url}
use openadsource.Tracking.Sign.Binding.{pipes, verify-binding}
use openadsource.Tracking.Track.{malformed, read_hit, forged}
use openadsource.Vast.Linear.{build_linear-playable}
use openadsource.Delivery.Serve.Pixels.{inline_input-trackings}
use openadsource.Delivery.Serve.Accepted.{signed_tracking_url-accepted}
use openadsource.Tracking.Query.{url_query}
use openadsource.Storage.{new_resolver, trim_right, resolve_media_url}
use openadsource.Storage.Joined.{NoSlash, NoSlashAtEnd, resolve_media_url-joined}

parse_unix-format_unix_example : parse_unix (format_unix 1700000000) ≡ pos 1700000000
parse_unix-format_unix_example = parse_unix-format_unix 1700000000 (omega arith) (omega arith)

verify-sign_example :
    verify toy_crypto signer
      (codes "a")
      (codes "i")
      (codes "start")
      (sign toy_crypto signer (codes "a") (codes "i") (codes "start") (pos 3000000000)).0
      (sign toy_crypto signer (codes "a") (codes "i") (codes "start") (pos 3000000000)).1
      (pos 4000000000)
    ≡ none
unfolding sign ◌+ℤ◌
verify-sign_example =
    verify-sign toy_crypto signer (codes "a") (codes "i") (codes "start") (pos 3000000000)
      (pos 4000000000) refl refl

verify_iff_example :
    (verify toy_crypto signer
        (codes "a")
        (codes "i")
        (codes "start")
        (codes "x")
        (pos 90000)
        (pos 3000000000)
      ≡ none)
    ↔ ((leb_ℤ (pos 90000) (pos 0) ≡ false)
        × (some []
            ≡ some (codes "k" ++ message (codes "a") (codes "i") (codes "start") (pos 90000)))
        × (ltb_ℤ (pos 90000) (unix (pos 3000000000)) ≡ false))
verify_iff_example =
    verify_iff toy_crypto signer (codes "a") (codes "i") (codes "start") (codes "x") (pos 90000)
      (pos 3000000000)

verify-binding_example :
    ((codes "a" ≡ codes "a")
      × (codes "i" ≡ codes "i")
      × (codes "start" ≡ codes "start")
      × (◌≡◌ {A = ℕ} 90000 90000))
    ⊎ ((message (codes "a") (codes "i") (codes "start") (pos 90000)
          ≢ message (codes "a") (codes "i") (codes "start") (pos 90000))
        × (toy_crypto.hmac signer.key (message (codes "a") (codes "i") (codes "start") (pos 90000))
            ≡ toy_crypto.hmac signer.key
                (message (codes "a") (codes "i") (codes "start") (pos 90000))))
unfolding verify text_eq pipes format_unix format_digits
verify-binding_example =
    verify-binding toy_crypto signer (codes "a") (codes "i") (codes "start") (codes "a") (codes "i")
      (codes "start") 90000 90000 (pos 3000000000) refl refl refl refl (omega arith) (omega arith)
      (omega arith)

signed_tracking_url-accepted_example :
    let h = read_hit (
      url_query (
        signed_tracking_url toy_crypto
          (codes "https://s")
          signer
          (codes "a-1")
          (codes "i-2")
          (codes "start")
          (pos 3000000000))) in
    (h.event ≡ codes "start")
    × (h.ad ≡ codes "a-1")
    × (h.imp ≡ codes "i-2")
    × (h.exp ≡ pos 86403)
    × (malformed h ≡ false)
    × (forged toy_crypto (some signer) h (pos 4000000000) ≡ false)
unfolding is_tracked member text_eq sign ◌+ℤ◌
signed_tracking_url-accepted_example =
    signed_tracking_url-accepted toy_crypto (codes "https://s") signer (codes "a-1") (codes "i-2")
      (codes "start") (pos 3000000000) (pos 4000000000) 86403 (ground arith) (ground arith)
      (ground arith) (ground arith) refl refl refl refl (omega arith) (omega arith) refl

-- The first ad of the test data.
abbrev spot : Ad ℕ
spot = ad (codes "a") [] [] [] (pos 1)

inline_input-trackings_example :
    (build_linear (
      inline_input toy_crypto
        (codes "https://s")
        signer
        spot
        (codes "a")
        (codes "i")
        (codes "https://m")
        (pos 3000000000))).tracking_events
    ≡ some (
        map
          (λ ev. record {
            event = ev;
            url =
                signed_tracking_url toy_crypto
                  (codes "https://s")
                  signer
                  (codes "a")
                  (codes "i")
                  ev
                  (pos 3000000000);
          })
          (codes "start"
            ∷ codes "firstQuartile"
            ∷ codes "midpoint"
            ∷ codes "thirdQuartile"
            ∷ codes "complete"
            ∷ []))
inline_input-trackings_example =
    inline_input-trackings toy_crypto (codes "https://s") signer spot (codes "a") (codes "i")
      (codes "https://m") (pos 3000000000)

abbrev input : InlineInput
input =
    inline_input toy_crypto (codes "https://s") signer spot (codes "a") (codes "i")
      (codes "https://m") (pos 3000000000)

build_linear-playable_example :
    (file : MediaFile) × ((build_linear input).media_files ≡ file ∷ [])
    × (pos 1 ≤ℤ file.width)
    × (pos 1 ≤ℤ file.height)
    × (file.url ≡ input.media_url)
    × (text_eq (build_linear input).duration [] ≡ false)
build_linear-playable_example = build_linear-playable input

-- An expression that matches when the User-Agent is the name of the device.
abbrev same_name : Text → Text → Bool
same_name device ua = text_eq device ua

request_device_lem_example :
    (request_device same_name [] (codes "tablet") ≢ wildcard_key)
    × (normalise_device (request_device same_name [] (codes "tablet"))
        ≡ request_device same_name [] (codes "tablet"))
request_device_lem_example = request_device_lem same_name [] (codes "tablet")

resolve_ip_lem_example :
    ((is_trusted text_eq (codes "p" ∷ []) (codes "p") ≡ false)
      × (resolve_ip text_eq (codes "p" ∷ []) (some (codes "p")) (none ∷ some (codes "q") ∷ [])
          ≡ some (codes "p")))
    ⊎ ((is_trusted text_eq (codes "p" ∷ []) (codes "p") ≡ true)
        × (ip : Text) × (resolve_ip text_eq
              (codes "p" ∷ [])
              (some (codes "p"))
              (none ∷ some (codes "q") ∷ [])
            ≡ some ip)
        × ((ip ≡ codes "p") ⊎ (is_trusted text_eq (codes "p" ∷ []) ip ≡ false)))
resolve_ip_lem_example =
    resolve_ip_lem text_eq (codes "p" ∷ []) (codes "p") (none ∷ some (codes "q") ∷ [])

-- Presigning that always fails.
abbrev no_presign : Text → Option Text
no_presign key = none

resolve_media_url-joined_example :
    (m n : ℕ) × (root key : Text) × (codes "https://b//" ≡ root ++ replicate m 47)
    × (codes "/k" ≡ replicate n 47 ++ key)
    × NoSlashAtEnd root
    × NoSlash key
    × (resolve_media_url
          (new_resolver (codes "https://b//") no_presign)
          (codes "internal_s3")
          (codes "/k")
        ≡ some (root ++ codes "/" ++ key))
unfolding new_resolver trim_right text_eq
resolve_media_url-joined_example =
    resolve_media_url-joined (codes "https://b//") (codes "/k") no_presign refl

-- Escapes, a blank setting, one without a value, a bad one, and a fragment.
query_read :
    url_query (codes "https://s/track?a=%41+b&&c&d=1;2&e=%4&f=x=y#g=1")
    ≡ (codes "a", codes "A b") ∷ (codes "c", []) ∷ (codes "f", codes "x=y") ∷ []
unfolding url_query text_eq
query_read = refl
