-- ===== src/Registry/Loader/Built.antt =====
-- Lemmas on registry/loader.go, buildSnapshot: the finished snapshot.
use openadsource.Common.{
  ℕ, zero, suc, ◌+◌, ◌*◌, ◌/◌, ◌≤◌, ◌≡◌, ◌≢◌, refl, Bool, false, Option, none, some, List, [], ◌∷◌,
  Text, text_eq, length, arith, member, get_elem?, ◌∙◌, Option-cases, inl, dec_lt, get_elem?-none,
  inr,
}
use openadsource.Common.Int.{ℤ}
use openadsource.Common.Float.{Float64}
use openadsource.Registry.Snapshot.{
  Ad, Snapshot, wildcard_key, or_wildcard, matching_country, matching_device, matching_position,
}
use openadsource.Registry.Loader.{position_key, empty_index, build_snapshot}
use openadsource.Registry.Loader.Buckets.{Indexed-empty, AllSized, opt_bit}
use openadsource.Registry.Loader.Loop.{
  posted, untargeted, posted-get_elem?, posted_past, untargeted_past, weighed, length-weighed,
  index_ads_lem, Filled, position_keys, ad_countries, ad_devices,
}
use openadsource.Registry.Loader.Wild.{AllBelow, AllBelow-contains, fold_wild_lem}
use openadsource.Registry.Loader.Dimension.{allows, IsPlain, matching_lem}
use openadsource.Common.Keep.{contains}

module _ {F : Type 0} where
  -- The answer of a test on ad i; false if there is no such ad.
  abbrev pub on_ad : List (Ad F) → ℕ → (Ad F → Bool) → Bool
  on_ad ads i test = elim (get_elem? ads i) [ none ↦ false | some ad ↦ test ad ]

  abbrev pub AllPlain : List (Ad F) → Type 0
  AllPlain [] = Unit
  AllPlain (ad ∷ ads) = IsPlain ad.countries × IsPlain ad.devices × AllPlain ads

  AllPlain-get_elem? :
      (ads : List (Ad F)) (i : ℕ) {ad : Ad F}
      → get_elem? ads i ≡ some ad
      → AllPlain ads
      → IsPlain ad.countries × IsPlain ad.devices
  AllPlain-get_elem? [] i e h = ground arith
  AllPlain-get_elem? (b ∷ ads) zero {ad} e h =
      let same : b ≡ ad = ground (arith, e) in rw (← same) (h.0, h.1)
  AllPlain-get_elem? (b ∷ ads) (suc i) e h = AllPlain-get_elem? ads i e h.2

  -- The three lookups select exactly the ads whose rows admit the request, and every bitset has
  -- `bitset_size` words, enough for all ads.
  pub record IsIndexed (s : Snapshot F) : Type 0 where
    pub size : s.bitset_size ≡ (length s.ads + 63) / 64
    pub position_sizes : AllSized s.bitset_size s.by_position
    pub country_sizes : AllSized s.bitset_size s.by_country
    pub device_sizes : AllSized s.bitset_size s.by_device
    pub position :
        (k : Text) (i : ℕ)
        → opt_bit (matching_position s k) i
          ≡ on_ad s.ads i (λ ad. text_eq (position_key ad.position_type) k)
    pub country :
        (k : Text) (i : ℕ)
        → k ≢ wildcard_key
        → opt_bit (matching_country s k) i ≡ on_ad s.ads i (λ ad. allows ad.countries k)
    pub device :
        (k : Text) (i : ℕ)
        → k ≢ wildcard_key
        → opt_bit (matching_device s k) i ≡ on_ad s.ads i (λ ad. allows ad.devices k)

module _ (fl : Float64) where
  open fl use {F}

  AllPlain-weighed :
      (ads : List (Ad F)) (ends : List (Option ℤ)) (now : ℤ)
      → AllPlain ads
      → AllPlain (weighed fl ads ends now)
  unfolding weighed
  AllPlain-weighed [] ends now h = tt
  AllPlain-weighed (ad ∷ ads) [] now h = tt
  AllPlain-weighed (ad ∷ ads) (end ∷ ends) now h = (h.0, h.1, AllPlain-weighed ads ends now h.2)

  position_bit :
      (out : List (Ad F)) (k : Text) (i : ℕ)
      → posted position_keys 0 out k i
        ≡ on_ad out i (λ ad. text_eq (position_key ad.position_type) k)
  unfolding member
  position_bit out k i =
      let z : i ≡ 0 + i = omega arith in
      elim (Option-cases (get_elem? out i)) [
        | inl e ↦
            rw (e, on_ad)
              (posted_past position_keys 0 out k i (omega (arith, get_elem?-none out i e)))
        | inr (ad, e) ↦
            let bit : posted position_keys 0 out k i ≡ member k (position_keys ad) =
              rw z (posted-get_elem? position_keys 0 i out k e) in
            rw (e, on_ad) (bit ∙ ground arith)
      ]

  noted_low :
      (out : List (Ad F)) (targets : Ad F → List Text) (wild : List ℕ) (bound : ℕ)
      → ((n : ℕ) → contains n wild ≡ untargeted targets 0 out n)
      → length out ≤ bound
      → AllBelow bound wild
  noted_low out targets wild bound free fits = AllBelow-contains bound wild λ i t.
      elim (dec_lt i bound) [
        | yes low ↦ low
        | no high ↦
            let past = untargeted_past targets 0 out i (omega arith) in
            ground (arith, free i, t, past)
      ]

  start :
      (size : ℕ)
      → Filled size empty_index
          (λ k n. false)
          (λ k n. false)
          (λ k n. false)
          (λ n. false)
          (λ n. false)
  unfolding contains
  start size = record {
    at_positions = Indexed-empty size;
    at_countries = Indexed-empty size;
    at_devices = Indexed-empty size;
    wild_countries = λ n. refl;
    wild_devices = λ n. refl;
  }

  -- From a list of ads with an end date each, whose allowlists name neither the wildcard nor the
  -- empty key, the loader builds a snapshot without a fault; its ads are the given ones with their
  -- pacing weights, and its lookups select exactly the ads whose rows admit the request.
  pub build_snapshot-IsIndexed :
      (ads : List (Ad F)) (ends : List (Option ℤ)) (now : ℤ)
      → length ends ≡ length ads
      → AllPlain ads
      → (s : Snapshot F) × (build_snapshot fl ads ends now ≡ some s)
        × (s.ads ≡ weighed fl ads ends now)
        × IsIndexed s
  unfolding build_snapshot matching_position matching_country matching_device or_wildcard
  build_snapshot-IsIndexed ads ends now same plain =
      let size : ℕ = (length ads + 63) / 64 in
      let out = weighed fl ads ends now in
      let len = length-weighed fl ads ends now same in
      let plain_out = AllPlain-weighed ads ends now plain in
      let (ix, e, v) =
        index_ads_lem fl size 0 ads ends now empty_index _ _ _ _ _ (start size) same
          (omega arith) in
      let low_c =
        noted_low out ad_countries ix.countries.1 (64 * size) v.wild_countries
          (omega (arith, len)) in
      let low_d =
        noted_low out ad_devices ix.devices.1 (64 * size) v.wild_devices (omega (arith, len)) in
      let (cm, ec, c_bits, c_keys, c_shape) =
        fold_wild_lem ix.countries.0 ix.countries.1 size v.at_countries.sizes low_c in
      let (dm, ed, d_bits, d_keys, d_shape) =
        fold_wild_lem ix.devices.0 ix.devices.1 size v.at_devices.sizes low_d in
      (
        record {
          ads = out;
          bitset_size = size;
          by_position = ix.positions;
          by_country = cm;
          by_device = dm;
          by_id = ix.ids;
          loaded_at = now;
        },
        rw e (rw ec (rw ed refl)),
        refl,
        record {
          size = rw len refl;
          position_sizes = v.at_positions.sizes;
          country_sizes = c_shape;
          device_sizes = d_shape;
          position = λ k i. v.at_positions.bits k i ∙ position_bit out k i;
          country = λ k i ne.
              matching_lem ad_countries out size ix.countries.0 cm ix.countries.1 v.at_countries
                v.wild_countries c_bits c_keys k i (λ a g. (AllPlain-get_elem? out i g plain_out).0)
                ne;
          device = λ k i ne.
              matching_lem ad_devices out size ix.devices.0 dm ix.devices.1 v.at_devices
                v.wild_devices d_bits d_keys k i (λ a g. (AllPlain-get_elem? out i g plain_out).1)
                ne;
        },
      )
