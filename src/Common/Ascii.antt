-- ===== src/Common/Ascii.antt =====
-- The functions of package strings on ASCII texts: TrimSpace, ToUpper, ToLower and Split at commas.
use Prim.Native.Nat.{ℕ, ◌+◌, ◌-◌}
use mathlib.Core.Bool.{Bool, ◌&&◌, ◌||◌}
use mathlib.Core.List.{List, [], ◌∷◌, map}
use openadsource.Common.Tests.{◌==◌, leb, if◌then◌else◌}
use openadsource.Common.Texts.{Text, text_eq}

abbrev is_space : ℕ → Bool
is_space c = c == 32 || leb 9 c && leb c 13

unfoldable pub trim_left : Text → Text
trim_left [] = []
trim_left (c ∷ s) = let rest = trim_left s in if is_space c then rest else c ∷ s

unfoldable pub trim_right : Text → Text
trim_right [] = []
trim_right (c ∷ s) =
    let rest = trim_right s in if is_space c && text_eq rest [] then [] else c ∷ rest

abbrev pub trim_space : Text → Text
trim_space s = trim_right (trim_left s)

abbrev pub to_upper : Text → Text
to_upper s = map (λ c. if leb 97 c && leb c 122 then c - 32 else c) s

abbrev pub to_lower : Text → Text
to_lower s = map (λ c. if leb 65 c && leb c 90 then c + 32 else c) s

-- strings.Split at one byte: the texts between the separators, one more than there are of them.
unfoldable pub split_on : ℕ → Text → List Text
split_on b [] = [] ∷ []
split_on b (c ∷ s) = let parts = split_on b s in if c == b then [] ∷ parts else after parts
  where
    after : List Text → List Text
    after [] = []
    after (part ∷ parts) = (c ∷ part) ∷ parts

unfoldable pub split_commas : Text → List Text
unfolding split_on
split_commas s = split_on 44 s

-- strings.Cut at one byte: what stands before the first one, and what stands after it.
unfoldable pub cut_at : ℕ → Text → Text × Text
cut_at b [] = ([], [])
cut_at b (c ∷ s) = let rest = cut_at b s in if c == b then ([], s) else (c ∷ rest.0, rest.1)
