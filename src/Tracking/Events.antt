-- ===== src/Tracking/Events.antt =====
-- server/internal/tracking/events.go: the events that are signed and counted.
use openadsource.Common.{Bool, List, [], ◌∷◌, Text, codes, member}

abbrev pub event_impression : Text
event_impression = codes "impression"

abbrev pub event_click : Text
event_click = codes "click"

abbrev pub quartile_events_in_order : List Text
quartile_events_in_order =
    codes "start"
    ∷ codes "firstQuartile"
    ∷ codes "midpoint"
    ∷ codes "thirdQuartile"
    ∷ codes "complete"
    ∷ []

abbrev pub tracked_events : List Text
tracked_events =
    event_impression
    ∷ event_click
    ∷ codes "start"
    ∷ codes "firstQuartile"
    ∷ codes "midpoint"
    ∷ codes "thirdQuartile"
    ∷ codes "complete"
    ∷ []

unfoldable pub is_tracked : Text → Bool
is_tracked event = member event tracked_events
