-- ===== src/Delivery/Serve/Pixels.antt =====
-- Lemmas on delivery/handler.go, serveAd: the URLs of the quartile events.
use openadsource.Common.{codes, refl, some, ◌≡◌, [], ◌∷◌, text_eq, Text, map}
use openadsource.Delivery.Serve.{signed_tracking_url, inline_input}
use openadsource.Vast.{build_linear, tracking_events, trackings}
use openadsource.Tracking.Sign.{Crypto, Signer}
use openadsource.Common.Dict.{lookup}
use openadsource.Common.Int.{ℤ}
use openadsource.Registry.Snapshot.{Ad}

-- The linear ad that serveAd builds tracks start, firstQuartile, midpoint, thirdQuartile and
-- complete, in this order and no other event, each at the URL signed for that event.
pub inline_input-trackings :
    {F : Type 0} (crypto : Crypto) (base : Text) (s : Signer) (ad : Ad F) (ad_id imp media : Text)
    (now : ℤ)
    → (build_linear (inline_input crypto base s ad ad_id imp media now)).tracking_events
      ≡ some (
          map
            (λ ev. record { event = ev; url = signed_tracking_url crypto base s ad_id imp ev now })
            (codes "start"
              ∷ codes "firstQuartile"
              ∷ codes "midpoint"
              ∷ codes "thirdQuartile"
              ∷ codes "complete"
              ∷ []))
unfolding build_linear tracking_events trackings inline_input signed_tracking_url lookup text_eq
inline_input-trackings crypto [] s ad ad_id imp media now = refl
inline_input-trackings crypto (c ∷ base) s ad ad_id imp media now = refl
