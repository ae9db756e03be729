-- ===== src/Tests/Seeds.antt =====
-- The seed script, the proxies and the visitors' identifiers at concrete inputs.
use openadsource.Common.{
  true, false, none, some, [], codes, ℕ, refl, ◌≡◌, text_eq, Text, List, Option, inr, inl,
  if◌then◌else◌, ◌++◌, ◌⊎◌, ◌∷◌,
}
use openadsource.Common.Int.{pos}
use openadsource.Config.{Config, Environment, load_config, s3_configured}
use openadsource.Storage.S3.{Sdk, new_s3_client, put_object}
use openadsource.Commands.Seed.{
  seed, Around, Tables, seeded, insert_new, insert_advertiser, insert_campaign, insert_external_ad,
  insert_internal_ad, seed_internal_ad, upload_sample, download_sample, default_sample_url,
}
use openadsource.Commands.Seed.Whole.{seed-again}
use openadsource.Tests.Instances.{float}
use openadsource.Targeting.Proxies.{new_ip_resolver, Reads, new_ip_resolver-Parsed, FirstBad}
use openadsource.Tracking.User.{
  find_cookie, resolve_user, uid_cookie_name, uid_cookie, resolve_user-returning,
}
use openadsource.Common.Ascii.{trim_space, split_commas}
use openadsource.Common.Dict.{lookup}

abbrev sdk : Sdk
sdk = record {
  AwsConfig = Unit;
  Client = Unit;
  load_default = λ r k s. some tt;
  new_from_config = λ a e p. tt;
  presign_get = λ c b k t. none;
  put = λ c b k body t. true;
}

abbrev environment : Environment ℕ
environment = record {
  lookup_env = λ k. some (codes "x");
  parse_float = λ s. none;
  parse_int = λ s. none;
  parse_bool = λ s. none;
  parse_duration = λ s. none;
}

abbrev config : Config ℕ
config = load_config float environment

-- A run in which all answers, one in which nothing does, and the empty tables.
abbrev answering : Around
answering = record {
  advertiser_runs = true;
  campaign_runs = true;
  internal_runs = true;
  external_runs = true;
  now = pos 1000000;
  http_get = λ url. some (200, some (codes "mp4"));
}

abbrev silent : Around
silent = record {
  advertiser_runs = true;
  campaign_runs = false;
  internal_runs = true;
  external_runs = true;
  now = pos 2000000;
  http_get = λ url. none;
}

abbrev empty : Tables
empty = record { advertisers = []; campaigns = []; ads = [] }

seeds : (seed sdk config default_sample_url answering empty).0 ≡ seeded true
unfolding seed insert_advertiser insert_campaign seed_internal_ad upload_sample insert_internal_ad
    insert_external_ad download_sample insert_new new_s3_client put_object s3_configured load_config
    text_eq
seeds = refl

seed-again_example :
    (seed sdk config (codes "u") silent (seed sdk config default_sample_url answering empty).1).1
    ≡ (seed sdk config default_sample_url answering empty).1
seed-again_example =
    seed-again sdk config default_sample_url sdk config (codes "u") answering silent empty seeds

abbrev toy_prefix : Text → Option ℕ
toy_prefix raw = if text_eq raw (codes "10.0.0.0/8") then some 10 else none

abbrev cidr_list : Text
cidr_list = codes "10.0.0.0/8, ,x"

new_ip_resolver-Parsed_example :
    ((ps : List ℕ) × (new_ip_resolver toy_prefix cidr_list ≡ inr ps)
      × Reads toy_prefix (split_commas cidr_list) ps)
    ⊎ ((bad : Text) × (new_ip_resolver toy_prefix cidr_list ≡ inl (trim_space bad))
        × FirstBad toy_prefix (split_commas cidr_list) bad)
new_ip_resolver-Parsed_example = new_ip_resolver-Parsed toy_prefix cidr_list

-- It names the part that is no prefix.
refused : new_ip_resolver toy_prefix cidr_list ≡ inl (codes "x")
unfolding new_ip_resolver text_eq
refused = refl

resolve_user-returning_example :
    (resolve_user [] (find_cookie [] uid_cookie_name) (codes "new") ≡ (codes "new", true))
    × (resolve_user []
          (find_cookie ([] ++ uid_cookie (codes "new") false ∷ []) uid_cookie_name)
          (codes "other")
        ≡ (codes "new", false))
unfolding find_cookie text_eq lookup
resolve_user-returning_example =
    resolve_user-returning [] [] false (codes "new") (codes "other") refl refl refl
