-- ===== src/Registry/Loader/Normalise.antt =====
-- server/internal/registry/loader.go, normaliseCountries and normaliseDevices: the allowlists of a
-- row before they are indexed. The texts are ASCII.
use openadsource.Common.{
  ◌≡◌, refl, true, false, List, [], ◌∷◌, if◌then◌else◌, Text, codes, text_eq, member, arith, ◌≢◌,
  Bool-cases, inl, text_cases, inr, ap, sym, ◌∙◌,
}
use openadsource.Common.Ascii.{trim_left, trim_right, trim_space, to_upper, to_lower}
use openadsource.Registry.Snapshot.{wildcard_key}
use openadsource.Registry.Loader.Dimension.{IsPlain}

unfoldable pub normalise_countries : List Text → List Text
unfolding trim_left trim_right
normalise_countries [] = []
normalise_countries (c ∷ cs) =
    let rest = normalise_countries cs in
    let k = to_upper (trim_space c) in if text_eq k [] then rest else k ∷ rest

abbrev pub device_words : List Text
device_words = codes "mobile" ∷ codes "tablet" ∷ codes "desktop" ∷ codes "ctv" ∷ []

unfoldable pub normalise_devices : List Text → List Text
unfolding trim_left trim_right
normalise_devices [] = []
normalise_devices (d ∷ ds) =
    let rest = normalise_devices ds in
    let k = to_lower (trim_space d) in if member k device_words then k ∷ rest else rest

word_lem :
    (k : Text)
    → member k device_words ≡ true
    → (text_eq k wildcard_key ≡ false) × (text_eq k [] ≡ false)
unfolding member text_eq
word_lem k h = elim (text_cases k wildcard_key) [
  | inl (p, t) ↦ absurd (no_word (ap (λ (u : Text). member u device_words) (sym p) ∙ h))
  | inr (ne, f) ↦ (
    f,
    elim (text_cases k []) [
      | inl (p, t) ↦ absurd (no_empty (ap (λ (u : Text). member u device_words) (sym p) ∙ h))
      | inr (ne', g) ↦ g
    ],
  )
]
  where
    no_word : member wildcard_key device_words ≢ true
    no_word = ground arith

    no_empty : member [] device_words ≢ true
    no_empty = ground arith

-- After normalisation no device list names the wildcard or the empty key, and no country list names
-- the empty key.
pub normalise_lem :
    (countries devices : List Text)
    → IsPlain (normalise_devices devices) × (member [] (normalise_countries countries) ≡ false)
unfolding member normalise_devices normalise_countries
normalise_lem countries devices = (plain devices, filled countries)
  where
    plain : (ds : List Text) → IsPlain (normalise_devices ds)
    plain [] = (refl, refl)
    plain (d ∷ ds) =
        let rest = plain ds in
        let k = to_lower (trim_space d) in
        elim (Bool-cases (member k device_words)) [
          | inl t ↦ let w = word_lem k t in rw t (rw (w.0) rest.0, rw (w.1) rest.1)
          | inr f ↦ rw f rest
        ]

    filled : (cs : List Text) → member [] (normalise_countries cs) ≡ false
    filled [] = refl
    filled (c ∷ cs) =
        let k = to_upper (trim_space c) in
        elim (Bool-cases (text_eq k [])) [
          | inl t ↦ rw t (filled cs)
          | inr f ↦ rw f (rw f (filled cs))
        ]
