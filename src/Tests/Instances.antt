-- ===== src/Tests/Instances.antt =====
-- Concrete instances of what the program relies on, and test data.
use openadsource.Common.{
  ◌*◌, ℕ, ◌+◌, ◌/◌, true, Option, none, some, List, [], ◌∷◌, ltb, leb, Text, codes, ◌*◌,
}
use openadsource.Common.Int.{ℤ, pos, pos_part}
use openadsource.Common.Float.{Float64}
use openadsource.Redis.{answered, no_script}
use openadsource.Registry.Snapshot.{Ad}
use openadsource.Selection.{Request}
use openadsource.Tracking.Sign.{Signer}
use openadsource.Delivery.{Handler, Chance}

-- Weights without a fraction.
abbrev pub float : Float64
float = record {
  F = ℕ;
  of_int = λ n. pos_part n;
  add = λ a b. a + b;
  mul = λ a b. a * b;
  div = λ a b. a / b;
  lt = ltb;
  le = leb;
  hours = λ n. pos_part n / 3600000000000;
}

abbrev pub ad : Text → Text → List Text → List Text → ℤ → Ad ℕ
ad id position countries devices priority = record {
  id = id;
  campaign_id = codes "c";
  name = codes "Spot";
  position_type = position;
  mid_roll_offset = pos 30;
  priority = priority;
  landing_page_url = codes "https://e";
  media_source = codes "external_url";
  media_url = codes "https://m";
  media_mime = codes "video/mp4";
  media_width = pos 640;
  media_height = pos 0;
  media_bitrate = pos 0;
  media_duration_ms = pos 15000;
  countries = countries;
  devices = devices;
  budget_total = pos 2;
  cap_max_impressions = pos 1;
  cap_time_window_secs = pos 60;
  pacing_weight = 0;
}

-- An ad for everyone, and a better one for desktops in Israel.
abbrev pub two_ads : List (Ad ℕ)
two_ads =
    ad (codes "a") [] [] [] (pos 1)
    ∷ ad (codes "b") (codes "pre") (codes "IL" ∷ []) (codes "desktop" ∷ []) (pos 7)
    ∷ []

abbrev pub two_ends : List (Option ℤ)
two_ends = none ∷ some (pos 7200000000000) ∷ []

abbrev pub request : Request
request = record {
  position = codes "pre";
  offset = pos 0;
  country = codes "IL";
  device = codes "desktop";
  exclude = [];
}

abbrev pub signer : Signer
signer = record { key = codes "k"; ttl = pos 86400000000000 }

abbrev pub handler : Handler
handler = record { has_budget = true; has_freq = true; uuid_string = λ id. id }

abbrev pub calm : Chance ℕ
calm = record {
  roll = 1;
  freq_first = answered;
  freq_second = answered;
  budget_first = no_script;
  budget_second = answered;
}
