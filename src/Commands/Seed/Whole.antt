-- ===== src/Commands/Seed/Whole.antt =====
-- Theorems on cmd/seed/main.go: what a whole run leaves, and a run after it.
use openadsource.Common.{inl, inr, Bool, true, false, ◌≡◌, Text, Option, Bool-cases, arith, ap}
use openadsource.Config.{Config}
use openadsource.Storage.S3.{Sdk}
use openadsource.Commands.Seed.{
  Ending, seed_internal_ad, insert_advertiser, insert_campaign, insert_external_ad, seed, Around,
  seeded, insert_internal_ad, Tables, seed_ad_internal_id, seed_advertiser_id, seed_campaign_id,
  seed_ad_external_id, advertiser_failed, upload_sample, campaign_failed, download_sample,
  external_failed,
}
use openadsource.Common.Int.{ℤ}
use openadsource.Commands.Seed.Rerun.{
  Grown, IsSeeded, seed-same, insert_ad-Grown, or_fatal-case, exec-runs, seed_internal_ad-Grown,
  Grown-trans, insert_campaign-Grown,
}
use openadsource.Commands.Seed.Rows.{Has, Has-Kept, insert_new-Has}

abbrev seeded_flag : Ending → Bool
seeded_flag advertiser_failed = false
seeded_flag campaign_failed = false
seeded_flag external_failed = false
seeded_flag (seeded ok) = ok

module _ {F : Type 0} (sdk : Sdk) (cfg : Config F) (url : Text) where
  internal-Has :
      (body : Option Text) (b : Bool) (db : Tables)
      → (seed_internal_ad sdk cfg body b db).0 ≡ true
      → Has seed_ad_internal_id (seed_internal_ad sdk cfg body b db).1.ads
  unfolding seed_internal_ad insert_internal_ad
  internal-Has body b db = elim (Bool-cases (upload_sample sdk cfg body)) [
    | inl u ↦ rw u λ e.
        exec-runs (λ d. Has seed_ad_internal_id d.ads) b db _ e
          (insert_new-Has seed_ad_internal_id _ db.ads)
    | inr u ↦ rw u λ e. ground (arith, e)
  ]

  advertiser-Has :
      (b : Bool) (db : Tables)
      → (insert_advertiser b db).0 ≡ true
      → Has seed_advertiser_id (insert_advertiser b db).1.advertisers
  unfolding insert_advertiser
  advertiser-Has b db e =
      exec-runs (λ d. Has seed_advertiser_id d.advertisers) b db _ e
        (insert_new-Has seed_advertiser_id _ db.advertisers)

  campaign-Has :
      (now : ℤ) (b : Bool) (db : Tables)
      → (insert_campaign now b db).0 ≡ true
      → Has seed_campaign_id (insert_campaign now b db).1.campaigns
  unfolding insert_campaign
  campaign-Has now b db e =
      exec-runs (λ d. Has seed_campaign_id d.campaigns) b db _ e
        (insert_new-Has seed_campaign_id _ db.campaigns)

  external-Has :
      (b : Bool) (db : Tables)
      → (insert_external_ad url b db).0 ≡ true
      → Has seed_ad_external_id (insert_external_ad url b db).1.ads
  unfolding insert_external_ad
  external-Has b db e =
      exec-runs (λ d. Has seed_ad_external_id d.ads) b db _ e
        (insert_new-Has seed_ad_external_id _ db.ads)

  external-Grown : (b : Bool) (db : Tables) → Grown db (insert_external_ad url b db).1
  unfolding insert_external_ad
  external-Grown b db = insert_ad-Grown seed_ad_external_id _ b db

  -- A run that ends with the internal ad seeded leaves its four rows.
  pub seed-IsSeeded :
      (w : Around) (db : Tables)
      → (seed sdk cfg url w db).0 ≡ seeded true
      → IsSeeded (seed sdk cfg url w db).1
  unfolding seed
  seed-IsSeeded w db =
      let Good : Ending × Tables → Type 0 = λ x. x.0 ≡ seeded true → IsSeeded x.1 in
      let r1 = insert_advertiser w.advertiser_runs db in
      or_fatal-case Good r1 advertiser_failed _ (λ e. ground (arith, e))
        λ t1.
          let r2 = insert_campaign w.now w.campaign_runs r1.1 in
          or_fatal-case Good r2 campaign_failed _ (λ e. ground (arith, e))
            λ t2.
              let body = download_sample w.http_get url in
              let r3 = seed_internal_ad sdk cfg body w.internal_runs r2.1 in
              let g3 = seed_internal_ad-Grown sdk cfg url body w.internal_runs r2.1 in
              let r4 = insert_external_ad url w.external_runs r3.1 in
              let g4 = external-Grown w.external_runs r3.1 in
              let g =
                Grown-trans (insert_campaign-Grown w.now w.campaign_runs r1.1)
                  (Grown-trans g3 g4) in
              or_fatal-case Good r4 external_failed _ (λ e. ground (arith, e))
                λ t4 e. record {
                  advertiser =
                      Has-Kept seed_advertiser_id _ _ (advertiser-Has w.advertiser_runs db t1)
                        g.advertisers;
                  campaign =
                      Has-Kept seed_campaign_id _ _ (campaign-Has w.now w.campaign_runs r1.1 t2)
                        (Grown-trans g3 g4).campaigns;
                  internal =
                      Has-Kept seed_ad_internal_id _ _
                        (internal-Has body w.internal_runs r2.1 (ap seeded_flag e)) g4.ads;
                  external = external-Has w.external_runs r3.1 t4;
                }

  -- After a run that ended with the internal ad seeded, a further run, with any configuration and
  -- sample and whatever answers, leaves the tables as they are.
  pub seed-again :
      (sdk' : Sdk) (cfg' : Config F) (url' : Text) (w w' : Around) (db : Tables)
      → (seed sdk cfg url w db).0 ≡ seeded true
      → (seed sdk' cfg' url' w' (seed sdk cfg url w db).1).1 ≡ (seed sdk cfg url w db).1
  seed-again sdk' cfg' url' w w' db e =
      seed-same sdk' cfg' url' w' (seed sdk cfg url w db).1 (seed-IsSeeded w db e)
