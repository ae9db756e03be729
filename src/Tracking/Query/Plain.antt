-- ===== src/Tracking/Query/Plain.antt =====
-- Lemmas on the query of a URL: texts without the bytes that a query gives a meaning.
use openadsource.Common.{
  ℕ, Bool, true, false, some, [], ◌∷◌, ◌++◌, ◌||◌, ◌==◌, Text, ◌≡◌, refl, arith, ap,
}
use openadsource.Common.Ascii.{split_on, cut_at}
use openadsource.Common.Separator.{Lacks}
use openadsource.Tracking.Query.{query_unescape, has_byte}

-- The bytes '#', '%', '&', '+', ';', '=' and '?'.
abbrev pub special : ℕ → Bool
special c = c == 35 || c == 37 || c == 38 || c == 43 || c == 59 || c == 61 || c == 63

abbrev pub IsPlainText : Text → Type 0
IsPlainText [] = Unit
IsPlainText (c ∷ s) = (special c ≡ false) × IsPlainText s

pub IsPlainText-Lacks : (b : ℕ) (s : Text) → special b ≡ true → IsPlainText s → Lacks b s
IsPlainText-Lacks b [] t h = tt
IsPlainText-Lacks b (c ∷ s) t (f, h) =
    (λ p. ground (arith, ap special p, t, f), IsPlainText-Lacks b s t h)

pub Lacks-append : (b : ℕ) (s t : Text) → Lacks b s → Lacks b t → Lacks b (s ++ t)
Lacks-append b [] t h k = k
Lacks-append b (c ∷ s) t (f, h) k = (f, Lacks-append b s t h k)

pub query_unescape-plain : (s : Text) → IsPlainText s → query_unescape s ≡ some s
unfolding query_unescape
query_unescape-plain [] h = refl
query_unescape-plain (c ∷ []) (f, h) = ground (arith, f)
query_unescape-plain (c ∷ d ∷ []) (f, h) =
    let rest = query_unescape-plain (d ∷ []) h in ground (arith, f, rest)
query_unescape-plain (c ∷ d ∷ e ∷ s) (f, h) =
    let rest = query_unescape-plain (d ∷ e ∷ s) h in ground (arith, f, rest)

pub cut_at-append : (b : ℕ) (s t : Text) → Lacks b s → cut_at b (s ++ b ∷ t) ≡ (s, t)
unfolding cut_at
cut_at-append b [] t h = ground arith
cut_at-append b (c ∷ s) t (f, h) = let rest = cut_at-append b s t h in ground (arith, f, rest)

pub cut_at-Lacks : (b : ℕ) (s : Text) → Lacks b s → cut_at b s ≡ (s, [])
unfolding cut_at
cut_at-Lacks b [] h = refl
cut_at-Lacks b (c ∷ s) (f, h) = let rest = cut_at-Lacks b s h in ground (arith, f, rest)

pub has_byte-Lacks : (b : ℕ) (s : Text) → Lacks b s → has_byte b s ≡ false
unfolding has_byte
has_byte-Lacks b [] h = refl
has_byte-Lacks b (c ∷ s) (f, h) = ground (arith, f, has_byte-Lacks b s h)

pub split_on-Lacks : (b : ℕ) (s : Text) → Lacks b s → split_on b s ≡ s ∷ []
unfolding split_on
split_on-Lacks b [] h = refl
split_on-Lacks b (c ∷ s) (f, h) =
    let test : (c == b) ≡ false = ground (arith, f) in rw (test, split_on-Lacks b s h) refl

pub split_on-append : (b : ℕ) (s t : Text) → Lacks b s → split_on b (s ++ b ∷ t) ≡ s ∷ split_on b t
unfolding split_on
split_on-append b [] t h = let test : (b == b) ≡ true = ground arith in rw test refl
split_on-append b (c ∷ s) t (f, h) =
    let test : (c == b) ≡ false = ground (arith, f) in rw (test, split_on-append b s t h) refl
