-- ===== src/Commands/Seed/Rerun.antt =====
-- Lemmas on cmd/seed/main.go: a run beside the rows of an earlier one.
use mathlib.Core.Path.{subst}
use openadsource.Common.{
  true, false, Text, ◌≡◌, refl, arith, inl, inr, sym, ◌∙◌, ap, Bool, true, Option, Bool-cases,
}
use openadsource.Common.Dict.{Dict}
use openadsource.Commands.Seed.{
  Tables, Ending, insert_advertiser, insert_campaign, AdRow, seed_advertiser_id, exec, insert_ad,
  seed_campaign_id, or_fatal, seed_ad_internal_id, seed_internal_ad, seed, seed_ad_external_id,
  insert_internal_ad, insert_external_ad, Around, download_sample, upload_sample, AdvertiserRow,
  CampaignRow, advertiser_failed, campaign_failed, external_failed,
}
use openadsource.Storage.S3.{Sdk}
use openadsource.Common.Int.{ℤ}
use openadsource.Config.{Config}
use openadsource.Commands.Seed.Rows.{Kept, Has, insert_new_known, insert_new-Kept}

-- Every row of the one database stands in the other.
pub record Grown (db db' : Tables) : Type 0 where
  pub advertisers : Kept db.advertisers db'.advertisers
  pub campaigns : Kept db.campaigns db'.campaigns
  pub ads : Kept db.ads db'.ads

Grown-refl : (db : Tables) → Grown db db
Grown-refl db = record { advertisers = λ i r e. e; campaigns = λ i r e. e; ads = λ i r e. e }

pub Grown-trans : {a b c : Tables} → Grown a b → Grown b c → Grown a c
Grown-trans g h = record {
  advertisers = λ i r e. h.advertisers i r (g.advertisers i r e);
  campaigns = λ i r e. h.campaigns i r (g.campaigns i r e);
  ads = λ i r e. h.ads i r (g.ads i r e);
}

exec-Grown : (b : Bool) {db after : Tables} → Grown db after → Grown db (exec b db after).1
exec-Grown true g = g
exec-Grown false g = Grown-refl _

exec-same : (b : Bool) {db after : Tables} → after ≡ db → exec b db after ≡ (b, db)
exec-same true e = ap (λ d. (true, d)) e
exec-same false e = refl

pub exec-runs :
    (P : Tables → Type 0) (b : Bool) (db after : Tables)
    → (exec b db after).0 ≡ true
    → P after
    → P (exec b db after).1
exec-runs P true db after e p = p
exec-runs P false db after e p = ground (arith, e)

-- A step fails, or what follows starts from its tables.
pub or_fatal-case :
    (P : Ending × Tables → Type 0) (r : Bool × Tables) (e : Ending)
    (next : Tables → Ending × Tables)
    → P (e, r.1)
    → (r.0 ≡ true → P (next r.1))
    → P (or_fatal r e next)
or_fatal-case P (true, db) e next p q = q refl
or_fatal-case P (false, db) e next p q = p

-- The four rows of a whole run stand in the tables.
pub record IsSeeded (db : Tables) : Type 0 where
  pub advertiser : Has seed_advertiser_id db.advertisers
  pub campaign : Has seed_campaign_id db.campaigns
  pub internal : Has seed_ad_internal_id db.ads
  pub external : Has seed_ad_external_id db.ads

insert_advertiser-same : (b : Bool) (db : Tables) → IsSeeded db → (insert_advertiser b db).1 ≡ db
unfolding insert_advertiser
insert_advertiser-same b db h =
    ap (λ r. r.1)
      (exec-same b (
        ap
          (λ (t : Dict AdvertiserRow). record {
            advertisers = t;
            campaigns = db.campaigns;
            ads = db.ads;
          })
          (insert_new_known seed_advertiser_id _ db.advertisers h.advertiser)))

insert_campaign-same :
    (now : ℤ) (b : Bool) (db : Tables) → IsSeeded db → (insert_campaign now b db).1 ≡ db
unfolding insert_campaign
insert_campaign-same now b db h =
    ap (λ r. r.1)
      (exec-same b (
        ap
          (λ (t : Dict CampaignRow). record {
            advertisers = db.advertisers;
            campaigns = t;
            ads = db.ads;
          })
          (insert_new_known seed_campaign_id _ db.campaigns h.campaign)))

-- Steps that each leave the tables as they are.
or_fatal-same :
    (db : Tables) (r : Bool × Tables) (e : Ending) (next : Tables → Ending × Tables)
    → r.1 ≡ db
    → ((d : Tables) → d ≡ db → (next d).1 ≡ db)
    → (or_fatal r e next).1 ≡ db
or_fatal-same db (true, d) e next p q = q d p
or_fatal-same db (false, d) e next p q = p

insert_advertiser-Grown : (b : Bool) (db : Tables) → Grown db (insert_advertiser b db).1
unfolding insert_advertiser
insert_advertiser-Grown b db = exec-Grown b record {
  advertisers = insert_new-Kept seed_advertiser_id _ db.advertisers;
  campaigns = λ i r e. e;
  ads = λ i r e. e;
}

pub insert_campaign-Grown :
    (now : ℤ) (b : Bool) (db : Tables) → Grown db (insert_campaign now b db).1
unfolding insert_campaign
insert_campaign-Grown now b db = exec-Grown b record {
  advertisers = λ i r e. e;
  campaigns = insert_new-Kept seed_campaign_id _ db.campaigns;
  ads = λ i r e. e;
}

pub insert_ad-Grown :
    (id : Text) (row : AdRow) (b : Bool) (db : Tables) → Grown db (insert_ad id row b db).1
insert_ad-Grown id row b db =
    exec-Grown b record {
      advertisers = λ i r e. e;
      campaigns = λ i r e. e;
      ads = insert_new-Kept id row db.ads;
    }

module _ {F : Type 0} (sdk : Sdk) (cfg : Config F) (url : Text) where
  pub seed_internal_ad-Grown :
      (body : Option Text) (b : Bool) (db : Tables)
      → Grown db (seed_internal_ad sdk cfg body b db).1
  unfolding seed_internal_ad insert_internal_ad
  seed_internal_ad-Grown body b db = elim (Bool-cases (upload_sample sdk cfg body)) [
    | inl u ↦ rw u (insert_ad-Grown _ _ b db)
    | inr u ↦ rw u (Grown-refl db)
  ]

  -- Whatever answers, a run changes and removes no row that the tables already hold.
  pub seed-Grown : (w : Around) (db : Tables) → Grown db (seed sdk cfg url w db).1
  unfolding seed insert_external_ad
  seed-Grown w db =
      let G : Ending × Tables → Type 0 = λ x. Grown db x.1 in
      let g1 = insert_advertiser-Grown w.advertiser_runs db in
      or_fatal-case G (insert_advertiser w.advertiser_runs db) _ _ g1 λ _.
        let db1 = (insert_advertiser w.advertiser_runs db).1 in
        let g2 = Grown-trans g1 (insert_campaign-Grown w.now w.campaign_runs db1) in
        or_fatal-case G (insert_campaign w.now w.campaign_runs db1) _ _ g2 λ _.
          let db2 = (insert_campaign w.now w.campaign_runs db1).1 in
          let body = download_sample w.http_get url in
          let r3 = seed_internal_ad sdk cfg body w.internal_runs db2 in
          let g3 = Grown-trans g2 (seed_internal_ad-Grown body w.internal_runs db2) in
          let g4 = Grown-trans g3 (insert_ad-Grown _ _ w.external_runs r3.1) in
          or_fatal-case G (insert_external_ad url w.external_runs r3.1) _ _ g4 λ _. g4

  -- A statement on rows that are there changes nothing.
  insert_ad-same :
      (id : Text) (row : AdRow) (b : Bool) (db : Tables)
      → Has id db.ads
      → insert_ad id row b db ≡ (b, db)
  insert_ad-same id row b db h = exec-same b (
      ap
        (λ (t : Dict AdRow). record {
          advertisers = db.advertisers;
          campaigns = db.campaigns;
          ads = t;
        })
        (insert_new_known id row db.ads h))

  seed_internal_ad-same :
      (body : Option Text) (b : Bool) (db : Tables)
      → Has seed_ad_internal_id db.ads
      → (seed_internal_ad sdk cfg body b db).1 ≡ db
  unfolding seed_internal_ad insert_internal_ad
  seed_internal_ad-same body b db h = elim (Bool-cases (upload_sample sdk cfg body)) [
    | inl u ↦ rw u (ap (λ r. r.1) (insert_ad-same seed_ad_internal_id _ b db h))
    | inr u ↦ rw u refl
  ]

  insert_external_ad-same :
      (b : Bool) (db : Tables)
      → Has seed_ad_external_id db.ads
      → (insert_external_ad url b db).1 ≡ db
  unfolding insert_external_ad
  insert_external_ad-same b db h = ap (λ r. r.1) (insert_ad-same seed_ad_external_id _ b db h)

  -- Whatever answers, a run beside the rows of a whole one changes nothing.
  pub seed-same : (w : Around) (db : Tables) → IsSeeded db → (seed sdk cfg url w db).1 ≡ db
  unfolding seed
  seed-same w db h =
      let at : (d : Tables) → d ≡ db → IsSeeded d = λ d p. subst IsSeeded (sym p) h in
      or_fatal-same db (insert_advertiser w.advertiser_runs db) advertiser_failed _
        (insert_advertiser-same w.advertiser_runs db h)
        λ d p.
          or_fatal-same db (insert_campaign w.now w.campaign_runs d) campaign_failed _
            (insert_campaign-same w.now w.campaign_runs d (at d p) ∙ p)
            λ d' p'.
              let body = download_sample w.http_get url in
              let q = seed_internal_ad-same body w.internal_runs d' (at d' p').internal ∙ p' in
              let d3 = (seed_internal_ad sdk cfg body w.internal_runs d').1 in
              or_fatal-same db (insert_external_ad url w.external_runs d3) external_failed _
                (insert_external_ad-same w.external_runs d3 (at d3 q).external ∙ q) λ d4 p4. p4
