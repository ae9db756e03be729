-- ===== src/Tracking/Sign.antt =====
-- server/internal/tracking/sign.go: the signatures on tracking URLs. HMAC-SHA256 and hexadecimal
-- text are parameters.
pub mod Binding
use openadsource.Common.{
  ℕ, zero, suc, ◌+◌, ◌-◌, ◌/◌, ◌≤◌, ◌<◌, ◌≡◌, refl, Bool, true, false, Option, none, some, List, [],
  ◌∷◌, ◌++◌, if◌then◌else◌, arith, Text, codes, text_eq, text_eq_refl, not, leb, ◌&&◌, ◌||◌, ◌↔◌,
  Option-cases, text_cases, inl, inr,
}
use openadsource.Common.Int.{ℤ, pos, negsuc, ◌+ℤ◌, ltb_ℤ, leb_ℤ}
use openadsource.Tracking.Expiry.{format_unix}

-- Digits, and the letters from 'a' to 'f'.
abbrev pub IsHex : Text → Type 0
IsHex [] = Unit
IsHex (c ∷ s) = (((leb 48 c && leb c 57) || (leb 97 c && leb c 102)) ≡ true) × IsHex s

pub record Crypto : Type 0 where
  -- The HMAC of a message under a key, as bytes.
  pub hmac : Text → Text → Text
  -- Hexadecimal text of bytes, and back; `none` if it is malformed.
  pub encode : Text → Text
  pub decode : Text → Option Text
  pub decode-encode : (b : Text) → decode (encode b) ≡ some b
  pub encode-nonempty : (b : Text) → text_eq (encode b) [] ≡ false
  pub encode-IsHex : (b : Text) → IsHex (encode b)

pub record Signer : Type 0 where
  pub key : Text
  -- In nanoseconds.
  pub ttl : ℤ

-- 24 hours.
abbrev pub default_ttl : ℤ
default_ttl = pos 86400000000000

unfoldable pub new_signer : Text → ℤ → Signer
new_signer secret ttl = record {
  key = secret;
  ttl = if leb_ℤ ttl (pos 0) then default_ttl else ttl;
}

pub data SignError : Type 0 where
  signature_mismatch expired malformed_expiry malformed_sig : SignError

-- The Unix second of a number of nanoseconds.
abbrev pub unix : ℤ → ℤ
unix (pos t) = pos (t / 1000000000)
unix (negsuc t) = negsuc (t / 1000000000)

-- strconv.FormatInt.
abbrev pub format_int : ℤ → Text
format_int (pos n) = format_unix n
format_int (negsuc n) = codes "-" ++ format_unix (suc n)

-- What is written to the HMAC; 124 is '|'.
abbrev pub message : Text → Text → Text → ℤ → Text
message ad imp event exp = ad ++ 124 ∷ (imp ++ 124 ∷ (event ++ 124 ∷ format_int exp))

module _ (crypto : Crypto) where
  open crypto use {hmac, encode, decode}

  abbrev pub compute : Signer → Text → Text → Text → ℤ → Text
  compute s ad imp event exp = encode (hmac s.key (message ad imp event exp))

  -- Times are nanoseconds since 1970.
  unfoldable pub sign : Signer → Text → Text → Text → ℤ → Text × ℤ
  sign s ad imp event now = let exp = unix (now +ℤ s.ttl) in (compute s ad imp event exp, exp)

  -- The source drops the error of decoding what `compute` made.
  abbrev want_bytes : Option Text → Text
  want_bytes none = []
  want_bytes (some b) = b

  -- `none` is success. Times are nanoseconds since 1970.
  unfoldable pub verify : Signer → Text → Text → Text → Text → ℤ → ℤ → Option SignError
  verify s ad imp event sig exp now =
      if leb_ℤ exp (pos 0)
      then some malformed_expiry
      else let want = compute s ad imp event exp in
        elim (decode sig) [
          | none ↦ some malformed_sig
          | some got ↦
              if not (text_eq got (want_bytes (decode want)))
              then some signature_mismatch
              else if ltb_ℤ exp (unix now)
              then some expired
              else none
        ]

  -- A signature that sign made at one time verifies at any time up to its expiry, when that is
  -- after 1970.
  pub verify-sign :
      (s : Signer) (ad imp event : Text) (now later : ℤ)
      → leb_ℤ (sign s ad imp event now).1 (pos 0) ≡ false
      → ltb_ℤ (sign s ad imp event now).1 (unix later) ≡ false
      → verify s ad imp event (sign s ad imp event now).0 (sign s ad imp event now).1 later ≡ none
  unfolding verify sign
  verify-sign s ad imp event now later positive fresh =
      let exp = unix (now +ℤ s.ttl) in
      let mac = hmac s.key (message ad imp event exp) in
      let decoded = crypto.decode-encode mac in
      let same = text_eq_refl mac in rw (decoded, verify) ground (arith, positive, fresh, same)

  -- Verify succeeds exactly when the expiry is positive and has not passed and the signature
  -- decodes to the HMAC of the message.
  pub verify_iff :
      (s : Signer) (ad imp event sig : Text) (exp now : ℤ)
      → (verify s ad imp event sig exp now ≡ none) ↔ (
          (leb_ℤ exp (pos 0) ≡ false)
          × (decode sig ≡ some (hmac s.key (message ad imp event exp)))
          × (ltb_ℤ exp (unix now) ≡ false))
  unfolding verify
  verify_iff s ad imp event sig exp now =
      let mac = hmac s.key (message ad imp event exp) in
      let decoded = crypto.decode-encode mac in
      elim (Option-cases (decode sig)) [
        | inl e ↦ rw (e, verify) ground arith
        | inr (got, e) ↦
            rw (e, decoded, verify)
              (elim (text_cases got mac) [
                | inl (p, t) ↦ ground (arith, p, t)
                | inr (ne, f) ↦ ground (arith, ne, f)
              ])
      ]
