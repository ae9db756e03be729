-- ===== src/Storage/Joined.antt =====
-- Lemmas on storage/resolver.go: the URL of an object under a public base.
use openadsource.Common.{
  ◌==◌, ◌++◌, Bool-cases, &&-true, ==_iff, text_eq-eq, ap, ap₂, ◌∙◌, ◌&&◌, refl, true, false, some,
  [], ◌∷◌, ◌≡◌, inl, inr, ℕ, suc, Text, replicate, ◌≢◌, text_eq, Option, ℕ_discrete, codes, arith,
}
use openadsource.Storage.{resolve_media_url, trim_left, new_resolver, trim_right}

-- The text does not begin with a slash.
abbrev pub NoSlash : Text → Type 0
NoSlash [] = Unit
NoSlash (c ∷ s) = c ≢ 47

-- The text does not end in a slash.
abbrev pub NoSlashAtEnd : Text → Type 0
NoSlashAtEnd [] = Unit
NoSlashAtEnd (c ∷ []) = c ≢ 47
NoSlashAtEnd (c ∷ d ∷ s) = NoSlashAtEnd (d ∷ s)

NoSlashAtEnd-cons :
    (c : ℕ) (s : Text) → (c == 47 && text_eq s []) ≡ false → NoSlashAtEnd s → NoSlashAtEnd (c ∷ s)
unfolding text_eq
NoSlashAtEnd-cons c [] f h = ground (arith, f)
NoSlashAtEnd-cons c (d ∷ s) f h = h

trim_right-NoSlashAtEnd : (s : Text) → NoSlashAtEnd (trim_right s)
unfolding trim_right
trim_right-NoSlashAtEnd [] = tt
trim_right-NoSlashAtEnd (c ∷ s) = elim (Bool-cases (c == 47 && text_eq (trim_right s) [])) [
  | inl t ↦ rw t tt
  | inr f ↦ rw f (NoSlashAtEnd-cons c (trim_right s) f (trim_right-NoSlashAtEnd s))
]

trim_left_lem : (s : Text) → (n : ℕ) × (s ≡ replicate n 47 ++ trim_left s) × NoSlash (trim_left s)
unfolding trim_left
trim_left_lem [] = (0, refl, tt)
trim_left_lem (c ∷ s) = elim (ℕ_discrete c 47) [
  | yes p ↦
      let (n, e, h) = trim_left_lem s in
      let test : (c == 47) ≡ true = ground (arith, p) in rw test (suc n, ap₂ ◌∷◌ p e, h)
  | no ne ↦ let test : (c == 47) ≡ false = ground (arith, ne) in rw test (0, refl, ne)
]

trim_right_lem : (s : Text) → (m : ℕ) × (s ≡ trim_right s ++ replicate m 47)
unfolding trim_right
trim_right_lem [] = (0, refl)
trim_right_lem (c ∷ s) =
    let (m, e) = trim_right_lem s in
    elim (Bool-cases (c == 47 && text_eq (trim_right s) [])) [
      | inl t ↦
          let both = &&-true t in
          let rest : s ≡ replicate m 47 =
            e ∙ ap (λ (u : Text). u ++ replicate m 47) (text_eq-eq (trim_right s) [] both.1) in
          rw t (suc m, ap₂ ◌∷◌ ((==_iff c 47).0 both.0) rest)
      | inr f ↦ rw f (m, ap (λ (u : Text). c ∷ u) e)
    ]

-- An object of the bucket under a public base URL that is not all slashes is served at the base
-- less all the slashes at its end, a slash, and the key less all the slashes that it begins with.
pub resolve_media_url-joined :
    (base url : Text) (presign : Text → Option Text)
    → text_eq (new_resolver base presign).public_base_url [] ≡ false
    → (m n : ℕ) × (root key : Text) × (base ≡ root ++ replicate m 47)
      × (url ≡ replicate n 47 ++ key)
      × NoSlashAtEnd root
      × NoSlash key
      × (resolve_media_url (new_resolver base presign) (codes "internal_s3") url
          ≡ some (root ++ codes "/" ++ key))
unfolding resolve_media_url text_eq new_resolver
resolve_media_url-joined base url presign h =
    let (m, b) = trim_right_lem base in
    let (n, e, slash) = trim_left_lem url in
    (m, n, trim_right base, trim_left url, b, e, trim_right-NoSlashAtEnd base, slash, rw h refl)
