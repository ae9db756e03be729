-- ===== src/Tracking/Sign/Binding.antt =====
-- Lemmas on tracking/sign.go: the fields of the signed message.
use openadsource.Common.{
  ◌/◌, ◌%◌, ap₂, ap, sym, ◌⊎◌, inl, inr, ℕ, zero, suc, ◌+◌, ◌≤◌, ◌<◌, ◌≡◌, ◌≢◌, refl, [], ◌∷◌, ◌++◌,
  arith, Text, ◌==◌, if◌then◌else◌, ap, ◌∙◌, none, some, text_cases,
}
use openadsource.Common.Int.{ℤ, pos}
use openadsource.Tracking.Sign.{message, format_int, Crypto, Signer, verify, compute, verify_iff}
use mathlib.Core.List.{head-eq_of_cons-eq, tail-eq_of_cons-eq}
use openadsource.Tracking.Expiry.{format_digits, format_unix, parse_unix-format_unix, parse_unix}

-- How many separators a text has.
unfoldable pub pipes : Text → ℕ
pipes [] = 0
pipes (c ∷ s) = let rest = pipes s in if c == 124 then suc rest else rest

pipes-append : (s t : Text) → pipes (s ++ t) ≡ pipes s + pipes t
unfolding pipes
pipes-append [] t = ground arith
pipes-append (c ∷ s) t = ground (arith, pipes-append s t)

-- The first field of a text with as few separators as it can have.
first_field :
    (a b r q : Text)
    → a ++ 124 ∷ r ≡ b ++ 124 ∷ q
    → pipes b ≡ 0
    → pipes q ≤ pipes r
    → (a ≡ b) × (r ≡ q)
unfolding pipes
first_field [] [] r q e n l = ground (arith)
first_field [] (c ∷ b) r q e n l = ground (arith)
first_field (c ∷ a) [] r q e n l =
    let tails : a ++ 124 ∷ r ≡ q = tail-eq_of_cons-eq e in
    let counted = pipes-append a (124 ∷ r) in absurd (omega (arith, l, ap pipes tails, counted))
first_field (c ∷ a) (d ∷ b) r q e n l =
    let rest = first_field a b r q (tail-eq_of_cons-eq e) (ground arith) l in
    (ap₂ ◌∷◌ (head-eq_of_cons-eq e) rest.0, rest.1)

tail_pipes :
    (i v : Text) (x : ℤ)
    → (pipes (i ++ 124 ∷ (v ++ 124 ∷ format_int x)) ≡ pipes i + pipes v + pipes (format_int x) + 2)
      × (pipes (v ++ 124 ∷ format_int x) ≡ pipes v + pipes (format_int x) + 1)
unfolding pipes
tail_pipes i v x =
    let inner = pipes-append v (124 ∷ format_int x) in
    let outer = pipes-append i (124 ∷ (v ++ 124 ∷ format_int x)) in
    (omega (arith, inner, outer), omega (arith, inner))

-- The fields of a message, when the second message has no separators inside its fields.
message_inj :
    (a i v a' i' v' : Text) (x x' : ℤ)
    → message a i v x ≡ message a' i' v' x'
    → pipes a' ≡ 0
    → pipes i' ≡ 0
    → pipes v' ≡ 0
    → pipes (format_int x') ≡ 0
    → (a ≡ a') × (i ≡ i') × (v ≡ v') × (format_int x ≡ format_int x')
message_inj a i v a' i' v' x x' e pa pi pv px =
    let two = tail_pipes i v x in
    let two' = tail_pipes i' v' x' in
    let first = first_field a a' _ _ e pa (omega (arith, two.0, two'.0)) in
    let second = first_field i i' _ _ first.1 pi (omega (arith, two.1, two'.1)) in
    let third = first_field v v' _ _ second.1 pv (omega arith) in
    (first.0, second.0, third.0, third.1)

pipes-format_digits : (fuel n : ℕ) → pipes (format_digits fuel n) ≡ 0
unfolding pipes format_digits
pipes-format_digits zero n = refl
pipes-format_digits (suc fuel) n =
    let last = pipes-append (format_digits fuel (n / 10)) ((48 + n % 10) ∷ []) in
    let front = pipes-format_digits fuel (n / 10) in
    let digit : n % 10 < 10 = omega arith in ground (arith, last, front, digit)

pub pipes-format_unix : (n : ℕ) → pipes (format_unix n) ≡ 0
unfolding format_unix
pipes-format_unix n = pipes-format_digits 19 n

format_unix_inj :
    (m n : ℕ)
    → 1 ≤ m
    → m ≤ 4611686018427387904
    → 1 ≤ n
    → n ≤ 4611686018427387904
    → format_unix m ≡ format_unix n
    → m ≡ n
format_unix_inj m n l h l' h' e =
    let same : pos m ≡ pos n =
      sym (parse_unix-format_unix m l h) ∙ ap parse_unix e ∙ parse_unix-format_unix n l' h' in
    ground (arith, same)

-- What a signature for fields without separators verifies: those fields only, or two messages with
-- the same HMAC are known. The expiries are in the range that parse_unix accepts.
pub verify-binding :
    (crypto : Crypto) (s : Signer) (a i v a' i' v' : Text) (m n : ℕ) (now : ℤ)
    → verify crypto s a i v (compute crypto s a' i' v' (pos n)) (pos m) now ≡ none
    → pipes a' ≡ 0
    → pipes i' ≡ 0
    → pipes v' ≡ 0
    → m ≤ 4611686018427387904
    → 1 ≤ n
    → n ≤ 4611686018427387904
    → ((a ≡ a') × (i ≡ i') × (v ≡ v') × (m ≡ n))
      ⊎ ((message a i v (pos m) ≢ message a' i' v' (pos n))
          × (crypto.hmac s.key (message a i v (pos m))
              ≡ crypto.hmac s.key (message a' i' v' (pos n))))
verify-binding crypto s a i v a' i' v' m n now ok pa pi pv h l' h' =
    let (positive, decodes, fresh) = (verify_iff crypto s a i v _ (pos m) now).0 ok in
    let mac' = crypto.hmac s.key (message a' i' v' (pos n)) in
    let macs : some mac' ≡ some (crypto.hmac s.key (message a i v (pos m))) =
      sym (crypto.decode-encode mac') ∙ decodes in
    elim (text_cases (message a i v (pos m)) (message a' i' v' (pos n))) [
      | inl (e, t) ↦
          let parts = message_inj a i v a' i' v' (pos m) (pos n) e pa pi pv (pipes-format_unix n) in
          inl (
            parts.0,
            parts.1,
            parts.2,
            format_unix_inj m n (ground (arith, positive)) h l' h' parts.3,
          )
      | inr (ne, t) ↦ inr (ne, cc macs)
    ]
