-- ===== src/Registry/Load/Names.antt =====
-- Lemmas on registry/loader.go, normaliseCountries and normaliseDevices: which keys the normalised
-- lists name.
use openadsource.Common.{
  Bool, true, false, not, ◌&&◌, ◌||◌, List, [], ◌∷◌, Text, text_eq, member, ◌≡◌, arith, inl, inr,
  text_cases, Bool-cases, ap,
}
use openadsource.Common.Ascii.{trim_space, to_upper, to_lower, trim_left, trim_right}
use openadsource.Registry.Loader.Normalise.{normalise_countries, normalise_devices, device_words}

-- One of the texts is k, once it is trimmed and its case is changed.
unfoldable pub names : (Text → Text) → List Text → Text → Bool
unfolding trim_left trim_right
names fold [] k = false
names fold (c ∷ cs) k = text_eq (fold (trim_space c)) k || names fold cs k

-- A key that passes the test is kept, another one is dropped.
keep_one :
    (test : Text → Bool) (j k : Text) (rest named : Bool)
    → rest ≡ (test k && named)
    → (test j ≡ true → (text_eq j k || rest) ≡ (test k && (text_eq j k || named)))
      × (test j ≡ false → rest ≡ (test k && (text_eq j k || named)))
keep_one test j k rest named e = elim (text_cases j k) [
  | inl (p, t) ↦ let same : test j ≡ test k = ap test p in ground (arith, same, t, e)
  | inr (ne, f) ↦ ground (arith, f, e)
]

pub member-normalise_countries :
    (cs : List Text) (k : Text)
    → member k (normalise_countries cs) ≡ (not (text_eq k []) && names to_upper cs k)
unfolding normalise_countries names member
member-normalise_countries [] k = ground arith
member-normalise_countries (c ∷ cs) k =
    let j = to_upper (trim_space c) in
    let (kept, dropped) =
      keep_one (λ u. not (text_eq u [])) j k (member k (normalise_countries cs))
        (names to_upper cs k) (member-normalise_countries cs k) in
    elim (Bool-cases (text_eq j [])) [
      | inl t ↦ rw t (dropped (ap not t))
      | inr f ↦ rw f (kept (ap not f))
    ]

pub member-normalise_devices :
    (ds : List Text) (k : Text)
    → member k (normalise_devices ds) ≡ (member k device_words && names to_lower ds k)
unfolding normalise_devices names member
member-normalise_devices [] k = ground arith
member-normalise_devices (d ∷ ds) k =
    let j = to_lower (trim_space d) in
    let (kept, dropped) =
      keep_one (λ u. member u device_words) j k (member k (normalise_devices ds))
        (names to_lower ds k) (member-normalise_devices ds k) in
    elim (Bool-cases (member j device_words)) [ inl t ↦ rw t (kept t) | inr f ↦ rw f (dropped f) ]
