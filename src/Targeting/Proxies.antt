-- ===== src/Targeting/Proxies.antt =====
-- server/internal/targeting/ip.go: the list of trusted proxies and the address of a request. The
-- parsers of package netip are parameters.
use openadsource.Common.{
  Bool, List, [], ◌∷◌, ◌++◌, Option, none, some, Text, text_eq, if◌then◌else◌, ◌≡◌, refl, ◌⊎◌, inl,
  inr, map, true, false, ap, sym, Bool-cases, Option-cases, ◌∙◌,
}
use mathlib.Core.List.{append-nil, append_assoc}
use openadsource.Common.Ascii.{trim_space, split_commas, trim_left, trim_right}
use openadsource.Targeting.{resolve_ip, is_trusted}

module _ {Prefix : Type 0} (parse_prefix : Text → Option Prefix) where
  -- The loop of NewIPResolver, with the prefixes so far; an error names the part.
  unfoldable pub parse_trusted : List Text → List Prefix → Text ⊎ List Prefix
  unfolding trim_left trim_right
  parse_trusted [] trusted = inr trusted
  parse_trusted (part ∷ parts) trusted =
      let raw = trim_space part in
      if text_eq raw [] then parse_trusted parts trusted else elim (parse_prefix raw) [
        | none ↦ inl raw
        | some p ↦ parse_trusted parts (trusted ++ p ∷ [])
      ]

  unfoldable pub new_ip_resolver : Text → Text ⊎ List Prefix
  unfolding split_commas parse_trusted
  new_ip_resolver cidr_list = parse_trusted (split_commas cidr_list) []

  -- Parts are blank or texts of prefixes, in order.
  pub data Reads : List Text → List Prefix → Type 0 where
    ended : Reads [] []
    blank :
        (part : Text) (parts : List Text) (ps : List Prefix)
        → text_eq (trim_space part) [] ≡ true
        → Reads parts ps
        → Reads (part ∷ parts) ps
    read :
        (part : Text) (p : Prefix) (parts : List Text) (ps : List Prefix)
        → parse_prefix (trim_space part) ≡ some p
        → Reads parts ps
        → Reads (part ∷ parts) (p ∷ ps)

  -- The first part that is neither blank nor a prefix.
  abbrev pub FirstBad : List Text → Text → Type 0
  FirstBad parts bad =
      (before after : List Text) × (ps : List Prefix) × (parts ≡ before ++ bad ∷ after)
      × Reads before ps
      × (text_eq (trim_space bad) [] ≡ false)
      × (parse_prefix (trim_space bad) ≡ none)

  FirstBad-blank :
      (part : Text) (parts : List Text) (bad : Text)
      → text_eq (trim_space part) [] ≡ true
      → FirstBad parts bad
      → FirstBad (part ∷ parts) bad
  FirstBad-blank part parts bad b (before, after, ps, e, r, f, wrong) = (
    part ∷ before,
    after,
    ps,
    ap (λ (l : List Text). part ∷ l) e,
    blank part before ps b r,
    f,
    wrong,
  )

  FirstBad-read :
      (part : Text) (p : Prefix) (parts : List Text) (bad : Text)
      → parse_prefix (trim_space part) ≡ some p
      → FirstBad parts bad
      → FirstBad (part ∷ parts) bad
  FirstBad-read part p parts bad b (before, after, ps, e, r, f, wrong) = (
    part ∷ before,
    after,
    p ∷ ps,
    ap (λ (l : List Text). part ∷ l) e,
    read part p before ps b r,
    f,
    wrong,
  )

  -- How a parse ends: with the prefixes of the parts, or at a part that is no prefix.
  abbrev Parsed : List Text → List Prefix → Text ⊎ List Prefix → Type 0
  Parsed parts trusted r =
      ((ps : List Prefix) × (r ≡ inr (trusted ++ ps)) × Reads parts ps)
      ⊎ ((bad : Text) × (r ≡ inl (trim_space bad)) × FirstBad parts bad)

  parse_trusted-Parsed :
      (parts : List Text) (trusted : List Prefix)
      → Parsed parts trusted (parse_trusted parts trusted)
  unfolding parse_trusted
  parse_trusted-Parsed [] trusted = inl ([], ap inr (sym (append-nil trusted)), ended)
  parse_trusted-Parsed (part ∷ parts) trusted = elim (Bool-cases (text_eq (trim_space part) [])) [
    | inl b ↦ rw b (elim (parse_trusted-Parsed parts trusted) [
      | inl (ps, e, r) ↦ inl (ps, e, blank part parts ps b r)
      | inr (bad, e, r) ↦ inr (bad, e, FirstBad-blank part parts bad b r)
    ])
    | inr f ↦ rw f (elim (Option-cases (parse_prefix (trim_space part))) [
      | inl e ↦ inr (part, rw e refl, ([], parts, [], refl, ended, f, e))
      | inr (p, e) ↦ rw e (elim (parse_trusted-Parsed parts (trusted ++ p ∷ [])) [
        | inl (ps, e', r) ↦
            inl (p ∷ ps, e' ∙ ap inr (append_assoc trusted (p ∷ []) ps), read part p parts ps e r)
        | inr (bad, e', r) ↦ inr (bad, e', FirstBad-read part p parts bad e r)
      ])
    ])
  ]

  -- Every list either gives the prefixes of its parts between commas, in their order and without
  -- the blank ones, or an error that names the first part which is neither blank nor a prefix.
  pub new_ip_resolver-Parsed :
      (cidr_list : Text)
      → ((ps : List Prefix) × (new_ip_resolver cidr_list ≡ inr ps)
          × Reads (split_commas cidr_list) ps)
        ⊎ ((bad : Text) × (new_ip_resolver cidr_list ≡ inl (trim_space bad))
            × FirstBad (split_commas cidr_list) bad)
  unfolding new_ip_resolver
  new_ip_resolver-Parsed cidr_list = parse_trusted-Parsed (split_commas cidr_list) []

module _ {Addr Prefix : Type 0} (contains_addr : Prefix → Addr → Bool)
    (parse_addr : Text → Option Addr) (split_host_port : Text → Option Text) where
  -- peerAddr; `none` is the zero address.
  unfoldable pub peer_addr : Text → Option Addr
  peer_addr remote = elim (split_host_port remote) [
    | none ↦ parse_addr remote
    | some host ↦ parse_addr host
  ]

  -- The parts of X-Forwarded-For that are read, `none` for one that is no address.
  unfoldable pub forwarded : Text → List (Option Addr)
  unfolding trim_left trim_right split_commas
  forwarded xff =
      if text_eq xff [] then [] else map (λ part. parse_addr (trim_space part)) (split_commas xff)

  -- Resolve, from the request's RemoteAddr and X-Forwarded-For.
  unfoldable pub resolve : List Prefix → Text → Text → Option Addr
  unfolding peer_addr forwarded
  resolve trusted remote xff = resolve_ip contains_addr trusted (peer_addr remote) (forwarded xff)

  untrusting :
      (p : Option Addr) (parts : List (Option Addr)) → resolve_ip contains_addr [] p parts ≡ p
  unfolding resolve_ip is_trusted
  untrusting none parts = refl
  untrusting (some peer) parts = refl

  -- An empty list of proxies is no error and trusts no peer: the address of a request is that of
  -- its TCP peer, whatever its header says.
  pub new_ip_resolver-trusts_none :
      (parse_prefix : Text → Option Prefix) (remote xff : Text)
      → (new_ip_resolver parse_prefix [] ≡ inr []) × (resolve [] remote xff ≡ peer_addr remote)
  unfolding new_ip_resolver resolve text_eq
  new_ip_resolver-trusts_none parse_prefix remote xff =
      (refl, untrusting (peer_addr remote) (forwarded xff))
