-- ===== src/Commands/Seed.antt =====
-- server/cmd/seed/main.go: the rows of the demonstration. A statement fails without an effect, or
-- is INSERT ... ON CONFLICT (id) DO NOTHING; the tables are maps from identifiers.
pub mod Rows
pub mod Rerun
pub mod Whole
use openadsource.Common.{
  Bool, true, false, Option, none, some, [], Text, codes, text_eq, if◌then◌else◌, ℕ, ◌*◌, inl, inr,
  ◌==◌, ◌∷◌,
}
use openadsource.Common.Int.{ℤ, pos, ◌+ℤ◌, ◌-ℤ◌}
use openadsource.Common.Dict.{Dict, lookup}
use openadsource.Storage.S3.{Sdk, S3Client, put_object, new_s3_client}
use openadsource.Config.{Config, s3_configured}

abbrev pub seed_advertiser_id : Text
seed_advertiser_id = codes "00000000-0000-0000-0000-000000000001"

abbrev pub seed_campaign_id : Text
seed_campaign_id = codes "00000000-0000-0000-0000-000000000002"

abbrev pub seed_ad_internal_id : Text
seed_ad_internal_id = codes "00000000-0000-0000-0000-000000000003"

abbrev pub seed_ad_external_id : Text
seed_ad_external_id = codes "00000000-0000-0000-0000-000000000004"

abbrev pub default_sample_url : Text
default_sample_url = codes "https://www.w3schools.com/html/mov_bbb.mp4"

abbrev pub seed_object_key : Text
seed_object_key = codes "seed/sample.mp4"

pub record AdvertiserRow : Type 0 where
  pub name : Text
  pub status : Text

-- The times are in seconds.
pub record CampaignRow : Type 0 where
  pub advertiser_id : Text
  pub name : Text
  pub start_date : ℤ
  pub end_date : ℤ
  pub total_budget_impressions : ℕ
  pub status : Text

pub record AdRow : Type 0 where
  pub campaign_id : Text
  pub name : Text
  pub status : Text
  pub position_type : Text
  pub priority : ℕ
  pub landing_page_url : Text
  pub media_source : Text
  pub media_url : Text
  pub media_mime : Text
  pub media_duration_ms : ℕ
  pub media_width : ℕ
  pub media_height : ℕ
  pub media_bitrate_kbps : ℕ

pub record Tables : Type 0 where
  pub advertisers : Dict AdvertiserRow
  pub campaigns : Dict CampaignRow
  pub ads : Dict AdRow

-- ON CONFLICT (id) DO NOTHING.
unfoldable pub insert_new : {A : Type 0} → Text → A → Dict A → Dict A
insert_new id row table = elim (lookup id table) [ none ↦ (id, row) ∷ table | some _ ↦ table ]

-- An error, or none, and the tables; `runs` tells whether the statement runs.
abbrev pub exec : Bool → Tables → Tables → Bool × Tables
exec runs db after = if runs then (true, after) else (false, db)

unfoldable pub insert_advertiser : Bool → Tables → Bool × Tables
insert_advertiser runs db = exec runs db record {
  advertisers =
      insert_new seed_advertiser_id
        record { name = codes "OpenAdSource Demo Advertiser"; status = codes "active" }
        db.advertisers;
  campaigns = db.campaigns;
  ads = db.ads;
}

unfoldable pub insert_campaign : ℤ → Bool → Tables → Bool × Tables
insert_campaign now runs db = exec runs db record {
  advertisers = db.advertisers;
  campaigns =
      insert_new seed_campaign_id
        record {
          advertiser_id = seed_advertiser_id;
          name = codes "Demo Campaign";
          start_date = now -ℤ pos 86400;
          end_date = now +ℤ pos (30 * 86400);
          total_budget_impressions = 1000000;
          status = codes "active";
        }
        db.campaigns;
  ads = db.ads;
}

-- What the two ads share.
abbrev pub seed_ad : Text → ℕ → Text → Text → AdRow
seed_ad title rank source url = record {
  campaign_id = seed_campaign_id;
  name = title;
  status = codes "active";
  position_type = codes "pre";
  priority = rank;
  landing_page_url = codes "https://example.com/landing";
  media_source = source;
  media_url = url;
  media_mime = codes "video/mp4";
  media_duration_ms = 10000;
  media_width = 1280;
  media_height = 720;
  media_bitrate_kbps = 1500;
}

abbrev pub insert_ad : Text → AdRow → Bool → Tables → Bool × Tables
insert_ad id row runs db = exec runs db record {
  advertisers = db.advertisers;
  campaigns = db.campaigns;
  ads = insert_new id row db.ads;
}

unfoldable pub insert_internal_ad : Bool → Tables → Bool × Tables
insert_internal_ad =
    insert_ad seed_ad_internal_id
      (seed_ad (codes "Big Buck Bunny (MinIO)") 10 (codes "internal_s3") seed_object_key)

unfoldable pub insert_external_ad : Text → Bool → Tables → Bool × Tables
insert_external_ad media_url =
    insert_ad seed_ad_external_id
      (seed_ad (codes "Big Buck Bunny (BYO-URL)") 5 (codes "external_url") media_url)

-- downloadSample, for what a GET answers: an error, or a status and a body that is read or not.
unfoldable pub download_sample : (Text → Option (ℕ × Option Text)) → Text → Option Text
download_sample http_get url = elim (http_get url) [
  | none ↦ none
  | some answer ↦ if answer.0 == 200 then answer.1 else none
]

-- What answers during a run: whether each statement runs, the time, and the download.
pub record Around : Type 0 where
  pub advertiser_runs : Bool
  pub campaign_runs : Bool
  pub internal_runs : Bool
  pub external_runs : Bool
  pub now : ℤ
  pub http_get : Text → Option (ℕ × Option Text)

pub data Ending : Type 0 where
  advertiser_failed campaign_failed external_failed : Ending
  -- The end of main, with whether the internal ad was seeded.
  seeded : Bool → Ending

abbrev pub sample_url_of : Option Text → Text
sample_url_of none = default_sample_url
sample_url_of (some url) = if text_eq url [] then default_sample_url else url

-- A step of main that ends the process if it fails.
abbrev pub or_fatal : Bool × Tables → Ending → (Tables → Ending × Tables) → Ending × Tables
or_fatal (true, db) e next = next db
or_fatal (false, db) e next = (e, db)

module _ (sdk : Sdk) where
  abbrev pub upload_to : Option (S3Client sdk) → Option Text → Bool
  upload_to none body = false
  upload_to (some c) none = false
  upload_to (some c) (some body) =
      elim (put_object sdk (some c) seed_object_key body (codes "video/mp4")) [
        | none ↦ true
        | some e ↦ false
      ]

  -- seedInternalAd up to its statement: whether the sample was uploaded.
  unfoldable pub upload_sample : {F : Type 0} → Config F → Option Text → Bool
  upload_sample cfg body =
      if s3_configured cfg
      then elim (new_s3_client sdk cfg) [ inl e ↦ false | inr client ↦ upload_to client body ]
      else false

  unfoldable pub seed_internal_ad :
      {F : Type 0} → Config F → Option Text → Bool → Tables → Bool × Tables
  unfolding upload_sample insert_internal_ad
  seed_internal_ad cfg body runs db =
      if upload_sample cfg body then insert_internal_ad runs db else (false, db)

  -- main, once Postgres is reached.
  unfoldable pub seed : {F : Type 0} → Config F → Text → Around → Tables → Ending × Tables
  unfolding insert_advertiser insert_campaign seed_internal_ad insert_external_ad download_sample
  seed cfg url w db = or_fatal (insert_advertiser w.advertiser_runs db) advertiser_failed λ db1.
      or_fatal (insert_campaign w.now w.campaign_runs db1) campaign_failed λ db2.
        let (ok, db3) = seed_internal_ad cfg (download_sample w.http_get url) w.internal_runs db2 in
        or_fatal (insert_external_ad url w.external_runs db3) external_failed
          λ db4. (seeded ok, db4)
