-- ===== src/Tracking/Query/Words.antt =====
-- Lemmas on the parameters of /track: the bytes of their texts.
use mathlib.Core.Path.{subst}
use openadsource.Common.{
  ℕ, zero, suc, ◌+◌, ◌/◌, ◌%◌, ◌<◌, true, false, List, [], ◌∷◌, ◌++◌, ◌&&◌, ◌||◌, leb, ltb, Text,
  member, text_cases, Bool-cases, inl, inr, ◌≡◌, arith,
}
use openadsource.Tracking.Events.{tracked_events, is_tracked}
use openadsource.Tracking.Expiry.{format_unix, format_digits}
use openadsource.Tracking.Query.Plain.{special, IsPlainText}
use openadsource.Tracking.Sign.{IsHex}

hex_plain : (c : ℕ) → ((leb 48 c && leb c 57) || (leb 97 c && leb c 102)) ≡ true → special c ≡ false
hex_plain c h = ground (arith, h)

pub IsHex-plain : (s : Text) → IsHex s → IsPlainText s
IsHex-plain [] h = tt
IsHex-plain (c ∷ s) (f, h) = (hex_plain c f, IsHex-plain s h)

IsPlainText-append : (s t : Text) → IsPlainText s → IsPlainText t → IsPlainText (s ++ t)
IsPlainText-append [] t h k = k
IsPlainText-append (c ∷ s) t (f, h) k = (f, IsPlainText-append s t h k)

digit_plain : (d : ℕ) → d < 10 → special (48 + d) ≡ false
digit_plain d h = ground (arith, h)

pub format_digits-plain : (fuel n : ℕ) → IsPlainText (format_digits fuel n)
unfolding format_digits
format_digits-plain zero n = tt
format_digits-plain (suc fuel) n = elim (Bool-cases (ltb n 10)) [
  | inl t ↦ rw t (digit_plain n (ground (arith, t)), tt)
  | inr f ↦ rw f (
      IsPlainText-append (format_digits fuel (n / 10)) _ (format_digits-plain fuel (n / 10))
        (digit_plain (n % 10) (omega arith), tt))
]

abbrev AllPlainWords : List Text → Type 0
AllPlainWords [] = Unit
AllPlainWords (w ∷ words) = IsPlainText w × AllPlainWords words

member-plain :
    (k : Text) (words : List Text) → AllPlainWords words → member k words ≡ true → IsPlainText k
unfolding member
member-plain k [] all h = ground (arith, h)
member-plain k (w ∷ words) (p, all) h = elim (text_cases w k) [
  | inl (e, t) ↦ subst IsPlainText e p
  | inr (ne, f) ↦ member-plain k words all (ground (arith, f, h))
]

pub tracked-plain : (event : Text) → is_tracked event ≡ true → IsPlainText event
unfolding is_tracked
tracked-plain event h = member-plain event tracked_events (ground arith) h

pub format_unix-plain : (n : ℕ) → IsPlainText (format_unix n)
unfolding format_unix
format_unix-plain n = format_digits-plain 19 n
