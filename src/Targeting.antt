-- ===== src/Targeting.antt =====
-- server/internal/targeting: the client's address behind trusted proxies, and the device of a
-- User-Agent. The compiled expressions, netip's parser and prefixes are parameters.
pub mod Geo
pub mod Proxies
use openadsource.Common.{
  refl, inl, inr, ◌⊎◌, ◌≢◌, ◌≡◌, not, Bool-cases, Bool, true, false, Option, none, some, List, [],
  ◌∷◌, if◌then◌else◌, ◌||◌, Text, codes, text_eq, member, ◌≡◌, ◌⊎◌, inl, Bool-cases, inr, arith, ap,
  sym, ◌∙◌,
}
use openadsource.Registry.Snapshot.{wildcard_key}

abbrev pub device_words : List Text
device_words = codes "mobile" ∷ codes "tablet" ∷ codes "desktop" ∷ codes "ctv" ∷ []

-- The vocabulary of devices, and the empty text for anything else.
unfoldable pub normalise_device : Text → Text
normalise_device s = if member s device_words then s else []

-- The devices that the expressions stand for, in their order.
abbrev pub classifiers : List Text
classifiers = codes "ctv" ∷ codes "tablet" ∷ codes "mobile" ∷ codes "desktop" ∷ []

-- The first of the devices whose expression matches the User-Agent.
unfoldable pub first_match : (Text → Text → Bool) → List Text → Text → Text
first_match matches [] ua = []
first_match matches (device ∷ rest) ua =
    let later = first_match matches rest ua in if matches device ua then device else later

unfoldable pub classify_ua : (Text → Text → Bool) → Text → Text
unfolding first_match
classify_ua matches ua = if text_eq ua [] then [] else first_match matches classifiers ua

module _ {Addr Prefix : Type 0} (contains_addr : Prefix → Addr → Bool) where
  unfoldable pub is_trusted : List Prefix → Addr → Bool
  is_trusted [] ip = false
  is_trusted (p ∷ trusted) ip = contains_addr p ip || is_trusted trusted ip

  -- The first address of the header that parses and is not trusted, or the peer.
  unfoldable pub first_untrusted : List Prefix → List (Option Addr) → Addr → Addr
  unfolding is_trusted
  first_untrusted trusted [] peer = peer
  first_untrusted trusted (none ∷ parts) peer = first_untrusted trusted parts peer
  first_untrusted trusted (some ip ∷ parts) peer =
      let later = first_untrusted trusted parts peer in if is_trusted trusted ip then later else ip

  -- Resolve, with the parsed peer and the parsed parts of X-Forwarded-For, which are none when the
  -- header is empty; `none` is an invalid address.
  unfoldable pub resolve_ip : List Prefix → Option Addr → List (Option Addr) → Option Addr
  unfolding first_untrusted
  resolve_ip trusted none parts = none
  resolve_ip trusted (some peer) parts =
      if is_trusted trusted peer then some (first_untrusted trusted parts peer) else some peer

  -- A peer that is not trusted is the client's address, whatever the header says; behind a trusted
  -- peer the address is the peer's own or one that is not trusted.
  pub resolve_ip_lem :
      (trusted : List Prefix) (peer : Addr) (parts : List (Option Addr))
      → ((is_trusted trusted peer ≡ false) × (resolve_ip trusted (some peer) parts ≡ some peer))
        ⊎ ((is_trusted trusted peer ≡ true)
            × (ip : Addr) × (resolve_ip trusted (some peer) parts ≡ some ip)
            × ((ip ≡ peer) ⊎ (is_trusted trusted ip ≡ false)))
  unfolding resolve_ip
  resolve_ip_lem trusted peer parts = elim (Bool-cases (is_trusted trusted peer)) [
    | inl t ↦ inr (t, first_untrusted trusted parts peer, rw t refl, untrusted parts)
    | inr f ↦ inl (f, rw f refl)
  ]
    where
      untrusted :
          (ps : List (Option Addr))
          → (first_untrusted trusted ps peer ≡ peer)
            ⊎ (is_trusted trusted (first_untrusted trusted ps peer) ≡ false)
      untrusted [] = inl refl
      untrusted (none ∷ ps) = untrusted ps
      untrusted (some ip ∷ ps) = elim (Bool-cases (is_trusted trusted ip)) [
        | inl t ↦ rw t (untrusted ps)
        | inr f ↦ rw f (inr f)
      ]

-- The device of a request: the parameter if there is one, or what the User-Agent says.
unfoldable pub request_device : (Text → Text → Bool) → Text → Text → Text
unfolding normalise_device classify_ua
request_device matches param ua =
    if not (text_eq param []) then normalise_device param else classify_ua matches ua

if_case : (P : Text → Type 0) (b : Bool) {x y : Text} → P x → P y → P (if b then x else y)
if_case P true p q = p
if_case P false p q = q

-- What holds of every word of the vocabulary and of the empty text holds of a classification.
classify_ua-case :
    (P : Text → Type 0) (matches : Text → Text → Bool) (ua : Text)
    → P []
    → P (codes "ctv")
    → P (codes "tablet")
    → P (codes "mobile")
    → P (codes "desktop")
    → P (classify_ua matches ua)
unfolding classify_ua
classify_ua-case P matches ua none_fits ctv tablet mobile desktop =
    if_case P (text_eq ua []) none_fits
      (if_case P _ ctv (if_case P _ tablet (if_case P _ mobile (if_case P _ desktop none_fits))))

normalise_device-case :
    (P : Text → Type 0) (s : Text)
    → P []
    → (member s device_words ≡ true → P s)
    → P (normalise_device s)
unfolding normalise_device
normalise_device-case P s none_fits fits = elim (Bool-cases (member s device_words)) [
  | inl t ↦ rw t (fits t)
  | inr f ↦ rw f none_fits
]

not_word : member wildcard_key device_words ≢ true
unfolding member text_eq
not_word = ground arith

-- The device of a request is empty or a word of the vocabulary, so it is never the wildcard key,
-- and normalising it again changes nothing.
pub request_device_lem :
    (matches : Text → Text → Bool) (param ua : Text)
    → (request_device matches param ua ≢ wildcard_key)
      × (normalise_device (request_device matches param ua) ≡ request_device matches param ua)
unfolding request_device normalise_device member text_eq
request_device_lem matches param ua =
    let Good : Text → Type 0 = λ d. (d ≢ wildcard_key) × (normalise_device d ≡ d) in
    if_case Good (not (text_eq param []))
      (normalise_device-case Good param (ground arith, refl)
        λ t. (λ p. not_word (ap (λ (u : Text). member u device_words) (sym p) ∙ t), rw t refl))
      (classify_ua-case Good matches ua (ground arith, refl) (ground arith, refl)
        (ground arith, refl) (ground arith, refl) (ground arith, refl))
