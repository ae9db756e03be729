-- ===== src/Delivery/Serve.antt =====
-- server/internal/delivery/handler.go: serveAd and its signed URLs, and the reading of a request.
pub mod Rendered
pub mod Accepted
pub mod Pixels
use openadsource.Common.{
  ℕ, ◌+◌, ◌*◌, ◌/◌, ◌%◌, ◌≡◌, Bool, true, false, not, Option, none, some, List, [], ◌∷◌, ◌++◌,
  if◌then◌else◌, ltb, Text, codes, text_eq, map,
}
use openadsource.Common.Int.{ℤ, pos, negsuc}
use openadsource.Common.Dict.{Dict}
use openadsource.Registry.Snapshot.{Ad}
use openadsource.Tracking.Events.{event_impression, event_click, quartile_events_in_order}
use openadsource.Tracking.Expiry.{format_digits}
use openadsource.Tracking.Sign.{Crypto, Signer, sign, format_int}
use openadsource.Storage.{Resolver, resolve_media_url}
use openadsource.Vast.{Vast, InlineInput, build_inline, build_empty}

-- The parameters of a URL as text, in their order.
pub render : Dict Text → Text
render [] = []
render ((name, v) ∷ []) = name ++ (codes "=" ++ v)
render ((name, v) ∷ p ∷ q) = name ++ (codes "=" ++ (v ++ (codes "&" ++ render (p ∷ q))))

-- %02d of a number that is not negative.
unfoldable pub two_digits : ℕ → Text
unfolding format_digits
two_digits n = if ltb n 10 then 48 ∷ (48 + n) ∷ [] else format_digits 19 n

unfoldable pub format_duration : ℤ → Text
unfolding two_digits
format_duration (negsuc ms) = []
format_duration (pos ms) =
    let secs = ms / 1000 in
    if not (ltb 0 ms)
    then []
    else two_digits (secs / 3600)
      ++ (codes ":" ++ (two_digits (secs / 60 % 60) ++ (codes ":" ++ two_digits (secs % 60))))

unfoldable pub default_str : Text → Text → Text
default_str s fallback = if text_eq s [] then fallback else s

module _ (crypto : Crypto) where
  unfoldable pub signed_query : Signer → Text → Text → Text → ℤ → Dict Text
  unfolding sign
  signed_query s ad imp event now =
      let (sig, exp) = sign crypto s ad imp event now in
      (codes "event", event)
      ∷ (codes "ad_id", ad)
      ∷ (codes "imp_id", imp)
      ∷ (codes "exp", format_int exp)
      ∷ (codes "sig", sig)
      ∷ []

  unfoldable pub signed_tracking_url : Text → Signer → Text → Text → Text → ℤ → Text
  unfolding signed_query render
  signed_tracking_url base s ad imp event now =
      base ++ (codes "/track?" ++ render (signed_query s ad imp event now))

  -- What serveAd hands to the builder.
  unfoldable pub inline_input :
      {F : Type 0} → Text → Signer → Ad F → Text → Text → Text → ℤ → InlineInput
  unfolding signed_tracking_url format_duration
  inline_input base s ad ad_id imp media now = record {
    ad_id = ad_id;
    title = ad.name;
    impression_url = signed_tracking_url base s ad_id imp event_impression now;
    media_url = media;
    media_mime = ad.media_mime;
    media_width = ad.media_width;
    media_height = ad.media_height;
    media_bitrate = ad.media_bitrate;
    media_duration = format_duration ad.media_duration_ms;
    landing_url = ad.landing_page_url;
    quartile_urls =
        map (λ ev. (ev, signed_tracking_url base s ad_id imp ev now)) quartile_events_in_order;
    click_track_url = signed_tracking_url base s ad_id imp event_click now;
  }

  -- serveAd, with the media resolver, the identifiers as text and the time: the document before it
  -- is printed.
  unfoldable pub serve_ad : {F : Type 0} → Resolver → Text → Signer → Ad F → Text → Text → ℤ → Vast
  unfolding inline_input
  serve_ad r base s ad ad_id imp now = elim (resolve_media_url r ad.media_source ad.media_url) [
    | none ↦ build_empty
    | some media ↦ build_inline (inline_input base s ad ad_id imp media now)
  ]
