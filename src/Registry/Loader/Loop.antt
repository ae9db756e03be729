-- ===== src/Registry/Loader/Loop.antt =====
-- The first loop of buildSnapshot: the buckets after any number of ads.
use openadsource.Common.{
  ℕ, zero, suc, ◌+◌, ◌*◌, ◌≤◌, ◌<◌, ◌≡◌, refl, Bool, false, Option, some, List, [], ◌∷◌, ◌==◌, ◌&&◌,
  ◌||◌, Text, length, arith, member, get_elem?, ◌∙◌, ap,
}
use openadsource.Common.Int.{ℤ}
use openadsource.Common.Float.{Float64}
use openadsource.Common.Dict.{insert}
use openadsource.Registry.Snapshot.{Ad}
use openadsource.Registry.Loader.{Index, position_key, pacing_weight, index_ad, index_ads}
use openadsource.Registry.Loader.Buckets.{
  Indexed, Indexed-eq, bucket_keys, is_wild, index_under_lem, index_targets_lem,
}
use openadsource.Common.Keep.{contains}

abbrev pub Buckets : Type 0
Buckets = Text → ℕ → Bool

-- Ad n, counted from i, has the key k.
module _ {A : Type 0} (keys : A → List Text) where
  unfoldable pub posted : ℕ → List A → Buckets
  posted i [] k n = false
  posted i (a ∷ xs) k n = member k (keys a) && i == n || posted (i + 1) xs k n

  pub posted_below : (i : ℕ) (xs : List A) (k : Text) (n : ℕ) → n < i → posted i xs k n ≡ false
  unfolding posted
  posted_below i [] k n h = refl
  posted_below i (a ∷ xs) k n h = ground (arith, posted_below (i + 1) xs k n)

  pub posted-get_elem? :
      (i d : ℕ) (xs : List A) (k : Text) {a : A}
      → get_elem? xs d ≡ some a
      → posted i xs k (i + d) ≡ member k (keys a)
  unfolding posted
  posted-get_elem? i d [] k e = ground arith
  posted-get_elem? i zero (b ∷ xs) k e = ground (arith, posted_below (i + 1) xs k (i + 0))
  posted-get_elem? i (suc d) (b ∷ xs) k e =
      let shift : i + suc d ≡ i + 1 + d = omega arith in
      rw shift (ground (arith, posted-get_elem? (i + 1) d xs k e))

  pub posted_past :
      (i : ℕ) (xs : List A) (k : Text) (n : ℕ) → i + length xs ≤ n → posted i xs k n ≡ false
  unfolding posted
  posted_past i [] k n h = refl
  posted_past i (a ∷ xs) k n h = ground (arith, posted_past (i + 1) xs k n)

-- Ad n, counted from i, has no target of its own.
module _ {A : Type 0} (targets : A → List Text) where
  unfoldable pub untargeted : ℕ → List A → ℕ → Bool
  untargeted i [] n = false
  untargeted i (a ∷ xs) n = is_wild (targets a) && i == n || untargeted (i + 1) xs n

  pub untargeted_below : (i : ℕ) (xs : List A) (n : ℕ) → n < i → untargeted i xs n ≡ false
  unfolding untargeted
  untargeted_below i [] n h = refl
  untargeted_below i (a ∷ xs) n h = ground (arith, untargeted_below (i + 1) xs n)

  pub untargeted-get_elem? :
      (i d : ℕ) (xs : List A) {a : A}
      → get_elem? xs d ≡ some a
      → untargeted i xs (i + d) ≡ is_wild (targets a)
  unfolding untargeted
  untargeted-get_elem? i d [] e = ground arith
  untargeted-get_elem? i zero (b ∷ xs) e = ground (arith, untargeted_below (i + 1) xs (i + 0))
  untargeted-get_elem? i (suc d) (b ∷ xs) e =
      let shift : i + suc d ≡ i + 1 + d = omega arith in
      rw shift (ground (arith, untargeted-get_elem? (i + 1) d xs e))

  pub untargeted_past :
      (i : ℕ) (xs : List A) (n : ℕ) → i + length xs ≤ n → untargeted i xs n ≡ false
  unfolding untargeted
  untargeted_past i [] n h = refl
  untargeted_past i (a ∷ xs) n h = ground (arith, untargeted_past (i + 1) xs n)

-- The maps of the first pass say which ads have which keys.
pub record Filled (size : ℕ) (ix : Index) (positions countries devices : Buckets)
    (free_c free_d : ℕ → Bool) : Type 0 where
  pub at_positions : Indexed size ix.positions positions
  pub at_countries : Indexed size ix.countries.0 countries
  pub at_devices : Indexed size ix.devices.0 devices
  pub wild_countries : (n : ℕ) → contains n ix.countries.1 ≡ free_c n
  pub wild_devices : (n : ℕ) → contains n ix.devices.1 ≡ free_d n

Filled-eq :
    {size : ℕ} {ix : Index} {fp fc fd gp gc gd : Buckets} {wc wd xc xd : ℕ → Bool}
    → ((k : Text) (n : ℕ) → fp k n ≡ gp k n)
    → ((k : Text) (n : ℕ) → fc k n ≡ gc k n)
    → ((k : Text) (n : ℕ) → fd k n ≡ gd k n)
    → ((n : ℕ) → wc n ≡ xc n)
    → ((n : ℕ) → wd n ≡ xd n)
    → Filled size ix fp fc fd wc wd
    → Filled size ix gp gc gd xc xd
Filled-eq p c d x y v = record {
  at_positions = Indexed-eq p v.at_positions;
  at_countries = Indexed-eq c v.at_countries;
  at_devices = Indexed-eq d v.at_devices;
  wild_countries = λ n. v.wild_countries n ∙ x n;
  wild_devices = λ n. v.wild_devices n ∙ y n;
}

module _ {F : Type 0} where
  abbrev pub position_keys : Ad F → List Text
  position_keys ad = position_key ad.position_type ∷ []

  abbrev pub country_keys : Ad F → List Text
  country_keys ad = bucket_keys ad.countries

  abbrev pub device_keys : Ad F → List Text
  device_keys ad = bucket_keys ad.devices

  abbrev pub ad_countries : Ad F → List Text
  ad_countries ad = ad.countries

  abbrev pub ad_devices : Ad F → List Text
  ad_devices ad = ad.devices

module _ (fl : Float64) where
  open fl use {F}

  -- One round of the loop.
  index_ad_lem :
      (size i : ℕ) (ad : Ad F) (ix : Index) (fp fc fd : Buckets) (wc wd : ℕ → Bool)
      → Filled size ix fp fc fd wc wd
      → i < 64 * size
      → (ix' : Index) × (index_ad fl size i ad ix ≡ some ix')
        × Filled size ix'
            (λ k n. fp k n || member k (position_keys ad) && i == n)
            (λ k n. fc k n || member k (country_keys ad) && i == n)
            (λ k n. fd k n || member k (device_keys ad) && i == n)
            (λ n. wc n || is_wild ad.countries && i == n)
            (λ n. wd n || is_wild ad.devices && i == n)
  unfolding index_ad member
  index_ad_lem size i ad ix fp fc fd wc wd v h =
      let (ps, ep, vp) =
        index_under_lem ix.positions (position_key ad.position_type) size i fp v.at_positions h in
      let (cs, cw, ec, vc, nc) =
        index_targets_lem ix.countries.0 ix.countries.1 ad.countries size i fc v.at_countries h in
      let (ds, dw, ed, vd, nd) =
        index_targets_lem ix.devices.0 ix.devices.1 ad.devices size i fd v.at_devices h in
      (
        record {
          ids = insert ad.id i ix.ids;
          positions = ps;
          countries = (cs, cw);
          devices = (ds, dw);
        },
        rw ep (rw ec (rw ed refl)),
        record {
          at_positions = Indexed-eq (λ k n. ground arith) vp;
          at_countries = vc;
          at_devices = vd;
          wild_countries = λ n. ground (arith, nc n, v.wild_countries n);
          wild_devices = λ n. ground (arith, nd n, v.wild_devices n);
        },
      )

  -- The ads with their pacing weights for the time `now`.
  unfoldable pub weighed : List (Ad F) → List (Option ℤ) → ℤ → List (Ad F)
  weighed [] ends now = []
  weighed (ad ∷ ads) [] now = []
  weighed (ad ∷ ads) (end ∷ ends) now =
      record ad { pacing_weight = pacing_weight fl ad.budget_total end now } ∷ weighed ads ends now

  pub length-weighed :
      (ads : List (Ad F)) (ends : List (Option ℤ)) (now : ℤ)
      → length ends ≡ length ads
      → length (weighed ads ends now) ≡ length ads
  unfolding weighed
  length-weighed [] ends now e = refl
  length-weighed (ad ∷ ads) [] now e = absurd (omega arith)
  length-weighed (ad ∷ ads) (end ∷ ends) now e = ap suc (length-weighed ads ends now (omega arith))

  -- The whole loop, from ad `i` on: it does not fail, files each ad under its own keys, and changes
  -- the ads in their weights alone.
  pub index_ads_lem :
      (size i : ℕ) (ads : List (Ad F)) (ends : List (Option ℤ)) (now : ℤ) (ix : Index)
      (fp fc fd : Buckets) (wc wd : ℕ → Bool)
      → Filled size ix fp fc fd wc wd
      → length ends ≡ length ads
      → i + length ads ≤ 64 * size
      → (ix' : Index) × (index_ads fl size i ads ends now ix ≡ some (weighed ads ends now, ix'))
        × Filled size ix'
            (λ k n. fp k n || posted position_keys i (weighed ads ends now) k n)
            (λ k n. fc k n || posted country_keys i (weighed ads ends now) k n)
            (λ k n. fd k n || posted device_keys i (weighed ads ends now) k n)
            (λ n. wc n || untargeted ad_countries i (weighed ads ends now) n)
            (λ n. wd n || untargeted ad_devices i (weighed ads ends now) n)
  unfolding index_ads posted untargeted weighed
  index_ads_lem size i [] ends now ix fp fc fd wc wd v same fits = (
    ix,
    refl,
    Filled-eq (λ k n. ground arith) (λ k n. ground arith) (λ k n. ground arith) (λ n. ground arith)
        (λ n. ground arith) v,
  )
  index_ads_lem size i (ad ∷ ads) [] now ix fp fc fd wc wd v same fits = absurd (omega arith)
  index_ads_lem size i (ad ∷ ads) (end ∷ ends) now ix fp fc fd wc wd v same fits =
      let (ix', e, v') = index_ad_lem size i ad ix fp fc fd wc wd v (omega arith) in
      let (ix'', e', v'') =
        index_ads_lem size (i + 1) ads ends now ix' _ _ _ _ _ v' (omega arith) (omega arith) in
      (
        ix'',
        rw e (rw e' refl),
        Filled-eq (λ k n. ground arith) (λ k n. ground arith) (λ k n. ground arith)
            (λ n. ground arith) (λ n. ground arith) v'',
      )
