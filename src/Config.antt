-- ===== src/Config.antt =====
-- server/internal/config/config.go: the configuration from the environment. The environment and
-- the parsers of strconv and time are parameters.
use openadsource.Common.{
  Bool, true, not, Option, none, some, [], ◌&&◌, if◌then◌else◌, Text, text_eq, codes,
}
use openadsource.Common.Int.{ℤ, pos}
use openadsource.Common.Float.{Float64}

pub record Config (F : Type 0) : Type 0 where
  pub port : Text
  pub log_level : Text
  pub database_url : Text
  pub public_base_url : Text
  pub s3_endpoint : Text
  pub s3_region : Text
  pub s3_bucket : Text
  pub s3_access_key_id : Text
  pub s3_secret_access_key : Text
  pub s3_force_path_style : Bool
  pub s3_public_base_url : Text
  pub redis_url : Text
  pub geo_ip_db_path : Text
  pub trusted_proxies : Text
  -- Durations in nanoseconds.
  pub registry_refresh_interval : ℤ
  pub tracking_secret : Text
  pub tracking_token_ttl : ℤ
  pub worker_interval : ℤ
  pub rate_limit_vast_rps : F
  pub rate_limit_vast_burst : F
  pub rate_limit_track_rps : F
  pub rate_limit_track_burst : F
  pub rate_limit_map_cap : ℤ
  pub metrics_port : Text

-- What Load relies on: LookupEnv, and the parsers, `none` for an error.
pub record Environment (F : Type 0) : Type 0 where
  pub lookup_env : Text → Option Text
  pub parse_float : Text → Option F
  pub parse_int : Text → Option ℤ
  pub parse_bool : Text → Option Bool
  pub parse_duration : Text → Option ℤ

abbrev pub half_minute : ℤ
half_minute = pos 30000000000

abbrev pub one_day : ℤ
one_day = pos 86400000000000

unfoldable pub s3_configured : {F : Type 0} → Config F → Bool
s3_configured c =
    not (text_eq c.s3_endpoint [])
    && not (text_eq c.s3_bucket [])
    && not (text_eq c.s3_access_key_id [])
    && not (text_eq c.s3_secret_access_key [])

-- A value that is parsed, or the fallback.
abbrev or_fallback {ℓ} : {A : Type ℓ} → Option A → A → A
or_fallback none fallback = fallback
or_fallback (some a) fallback = a

module _ (fl : Float64) (env : Environment fl.F) where
  open fl use {F, of_int}
  open env use {lookup_env, parse_float, parse_int, parse_bool, parse_duration}

  unfoldable pub getenv : Text → Text → Text
  getenv key fallback = elim (lookup_env key) [
    | none ↦ fallback
    | some v ↦ if text_eq v [] then fallback else v
  ]

  unfoldable pub getenv_float : Text → F → F
  getenv_float key fallback = elim (lookup_env key) [
    | none ↦ fallback
    | some v ↦ if text_eq v [] then fallback else or_fallback (parse_float v) fallback
  ]

  unfoldable pub getenv_int : Text → ℤ → ℤ
  getenv_int key fallback = elim (lookup_env key) [
    | none ↦ fallback
    | some v ↦ if text_eq v [] then fallback else or_fallback (parse_int v) fallback
  ]

  unfoldable pub getenv_bool : Text → Bool → Bool
  getenv_bool key fallback = elim (lookup_env key) [
    | none ↦ fallback
    | some v ↦ if text_eq v [] then fallback else or_fallback (parse_bool v) fallback
  ]

  unfoldable pub getenv_duration : Text → ℤ → ℤ
  getenv_duration key fallback = elim (lookup_env key) [
    | none ↦ fallback
    | some v ↦ if text_eq v [] then fallback else or_fallback (parse_duration v) fallback
  ]

  -- Load.
  unfoldable pub load_config : Config F
  unfolding getenv getenv_float getenv_int getenv_bool getenv_duration
  load_config = record {
    port = getenv (codes "PORT") (codes "8080");
    log_level = getenv (codes "LOG_LEVEL") (codes "info");
    database_url = getenv (codes "DATABASE_URL") [];
    public_base_url = getenv (codes "PUBLIC_BASE_URL") (codes "http://localhost:8080");
    s3_endpoint = getenv (codes "S3_ENDPOINT") [];
    s3_region = getenv (codes "S3_REGION") (codes "us-east-1");
    s3_bucket = getenv (codes "S3_BUCKET") [];
    s3_access_key_id = getenv (codes "S3_ACCESS_KEY_ID") [];
    s3_secret_access_key = getenv (codes "S3_SECRET_ACCESS_KEY") [];
    s3_force_path_style = getenv_bool (codes "S3_FORCE_PATH_STYLE") true;
    s3_public_base_url = getenv (codes "S3_PUBLIC_BASE_URL") [];
    redis_url = getenv (codes "REDIS_URL") [];
    geo_ip_db_path = getenv (codes "GEOIP_DB_PATH") [];
    trusted_proxies =
        getenv (codes "TRUSTED_PROXIES") (codes "10.0.0.0/8,172.16.0.0/12,192.168.0.0/16");
    registry_refresh_interval = getenv_duration (codes "REGISTRY_REFRESH_INTERVAL") half_minute;
    tracking_secret = getenv (codes "TRACKING_SECRET") [];
    tracking_token_ttl = getenv_duration (codes "TRACKING_TOKEN_TTL") one_day;
    worker_interval = getenv_duration (codes "WORKER_INTERVAL") half_minute;
    rate_limit_vast_rps = getenv_float (codes "RATE_LIMIT_VAST_RPS") (of_int (pos 100));
    rate_limit_vast_burst = getenv_float (codes "RATE_LIMIT_VAST_BURST") (of_int (pos 200));
    rate_limit_track_rps = getenv_float (codes "RATE_LIMIT_TRACK_RPS") (of_int (pos 200));
    rate_limit_track_burst = getenv_float (codes "RATE_LIMIT_TRACK_BURST") (of_int (pos 400));
    rate_limit_map_cap = getenv_int (codes "RATE_LIMIT_MAP_CAP") (pos 100000);
    metrics_port = getenv (codes "METRICS_PORT") (codes "9100");
  }
