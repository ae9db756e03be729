-- ===== src/Vast.antt =====
-- server/internal/vast: the VAST 4.2 documents. encoding/xml, which prints them, is left out.
pub mod Linear
use openadsource.Common.{
  ℕ, Bool, true, false, not, Option, none, some, List, [], ◌∷◌, ◌++◌, if◌then◌else◌, ◌||◌, ◌&&◌,
  ltb, leb, ◌+◌, length, ◌==◌, Text, codes, text_eq, map,
}
use openadsource.Common.Ascii.{to_lower}
use openadsource.Common.Int.{ℤ, pos, leb_ℤ}
use openadsource.Common.Dict.{Dict, lookup}

-- types.go. A pointer that may be nil is an option.
pub record AdSystem : Type 0 where
  pub version : Text
  pub name : Text

-- An element with an identifier and a URL: Impression, ClickThrough and ClickTracking.
pub record Link : Type 0 where
  pub id : Text
  pub url : Text

pub record UniversalAdId : Type 0 where
  pub id_registry : Text
  pub value : Text

pub record Tracking : Type 0 where
  pub event : Text
  pub url : Text

pub record MediaFile : Type 0 where
  pub id : Text
  pub delivery : Text
  pub kind : Text
  pub width : ℤ
  pub height : ℤ
  pub bitrate : ℤ
  pub url : Text

pub record VideoClicks : Type 0 where
  pub click_throughs : List Link
  pub click_trackings : List Link

pub record LinearAd : Type 0 where
  pub duration : Text
  pub tracking_events : Option (List Tracking)
  pub media_files : List MediaFile
  pub video_clicks : Option VideoClicks

pub record Creative : Type 0 where
  pub id : Text
  pub sequence : ℤ
  pub universal_ad_id : UniversalAdId
  pub linear : Option LinearAd

pub record InLine : Type 0 where
  pub ad_system : AdSystem
  pub ad_title : Text
  pub impressions : List Link
  pub creatives : List Creative

pub record VastAd : Type 0 where
  pub id : Text
  pub in_line : Option InLine

pub record Vast : Type 0 where
  pub version : Text
  pub ads : List VastAd

-- builder.go.
pub record InlineInput : Type 0 where
  pub ad_id : Text
  pub title : Text
  pub impression_url : Text
  pub media_url : Text
  pub media_mime : Text
  pub media_width : ℤ
  pub media_height : ℤ
  pub media_bitrate : ℤ
  pub media_duration : Text
  pub landing_url : Text
  pub quartile_urls : Dict Text
  pub click_track_url : Text

abbrev pub version_text : Text
version_text = codes "4.2"

abbrev pub quartile_event_order : List Text
quartile_event_order =
    codes "start"
    ∷ codes "firstQuartile"
    ∷ codes "midpoint"
    ∷ codes "thirdQuartile"
    ∷ codes "complete"
    ∷ []

unfoldable pub delivery_for : Text → Text
delivery_for mime =
    let m = to_lower mime in
    if text_eq m (codes "application/x-mpegurl")
    then codes "streaming"
    else if text_eq m (codes "application/vnd.apple.mpegurl")
    then codes "streaming"
    else if text_eq m (codes "application/dash+xml")
    then codes "streaming"
    else codes "progressive"

-- The tracking of each event that has a URL that is not empty, in the order of the events.
unfoldable pub trackings : Dict Text → List Text → List Tracking
trackings urls [] = []
trackings urls (ev ∷ events) =
    let rest = trackings urls events in
    elim (lookup ev urls) [
      | none ↦ rest
      | some url ↦ if not (text_eq url []) then record { event = ev; url = url } ∷ rest else rest
    ]

unfoldable pub tracking_events : Dict Text → Option (List Tracking)
unfolding trackings
tracking_events urls =
    if ltb 0 (length urls)
    then (let ts = trackings urls quartile_event_order in
        if ltb 0 (length ts) then some ts else none)
    else none

unfoldable pub video_clicks : Text → Text → Option VideoClicks
video_clicks landing click =
    if not (text_eq landing []) || not (text_eq click [])
    then some (record {
      click_throughs =
          if not (text_eq landing [])
          then record { id = codes "click-0"; url = landing } ∷ []
          else [];
      click_trackings =
          if not (text_eq click [])
          then record { id = codes "clicktrk-0"; url = click } ∷ []
          else [];
    })
    else none

unfoldable pub build_linear : InlineInput → LinearAd
unfolding tracking_events video_clicks delivery_for
build_linear input = record {
  duration = if text_eq input.media_duration [] then codes "00:00:30" else input.media_duration;
  tracking_events = tracking_events input.quartile_urls;
  media_files =
      record {
        id = codes "media-0";
        delivery = delivery_for input.media_mime;
        kind = input.media_mime;
        width = if leb_ℤ input.media_width (pos 0) then pos 1280 else input.media_width;
        height = if leb_ℤ input.media_height (pos 0) then pos 720 else input.media_height;
        bitrate = input.media_bitrate;
        url = input.media_url;
      }
      ∷ [];
  video_clicks = video_clicks input.landing_url input.click_track_url;
}

-- BuildInline before it is printed.
unfoldable pub build_inline : InlineInput → Vast
unfolding build_linear
build_inline input = record {
  version = version_text;
  ads =
      record {
        id = input.ad_id;
        in_line = some (record {
          ad_system = record { version = codes "1.0"; name = codes "OpenAdSource" };
          ad_title = input.title;
          impressions = record { id = codes "imp-0"; url = input.impression_url } ∷ [];
          creatives =
              record {
                id = codes "creative-" ++ input.ad_id;
                sequence = pos 1;
                universal_ad_id = record { id_registry = codes "unknown"; value = codes "unknown" };
                linear = some (build_linear input);
              }
              ∷ [];
        });
      }
      ∷ [];
}

-- BuildEmpty before it is printed.
abbrev pub build_empty : Vast
build_empty = record { version = version_text; ads = [] }
