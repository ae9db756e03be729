-- ===== src/Tracking/Query.antt =====
-- server/internal/tracking/handler.go, ServeTrack: the reading of r.URL.Query(). url.ParseQuery and
-- url.QueryUnescape are those of the standard library.
pub mod Plain
pub mod Words
use openadsource.Common.{
  ℕ, Bool, false, Option, none, some, List, [], ◌∷◌, if◌then◌else◌, ◌||◌, ◌==◌, ◌>>=◌, Text,
  text_eq, leb, ◌&&◌, ◌+◌, ◌-◌, ◌*◌,
}
use openadsource.Common.Ascii.{split_on, cut_at}
use openadsource.Common.Dict.{Dict}

-- The value of a hexadecimal digit.
abbrev pub unhex : ℕ → Option ℕ
unhex c =
    if leb 48 c && leb c 57
    then some (c - 48)
    else if leb 97 c && leb c 102
    then some (c - 87)
    else if leb 65 c && leb c 70
    then some (c - 55)
    else none

-- The byte of two hexadecimal digits in front of a text.
abbrev pub escaped : Option ℕ → Option ℕ → Option Text → Option Text
escaped (some a) (some b) (some rest) = some ((16 * a + b) ∷ rest)
escaped _ _ _ = none

-- url.QueryUnescape: %XX is a byte and + a space; 37 is '%' and 43 is '+'.
unfoldable pub query_unescape : Text → Option Text
query_unescape [] = some []
query_unescape (c ∷ []) = if c == 37 then none else some ((if c == 43 then 32 else c) ∷ [])
query_unescape (c ∷ d ∷ []) =
    let rest = query_unescape (d ∷ []) in
    if c == 37 then none else rest >>= λ r. some ((if c == 43 then 32 else c) ∷ r)
query_unescape (c ∷ d ∷ e ∷ s) =
    let rest = query_unescape (d ∷ e ∷ s) in
    let after = query_unescape s in
    if c == 37
    then escaped (unhex d) (unhex e) after
    else rest >>= λ r. some ((if c == 43 then 32 else c) ∷ r)

unfoldable pub has_byte : ℕ → Text → Bool
has_byte b [] = false
has_byte b (c ∷ s) = c == b || has_byte b s

-- One setting of a query; 59 is ';' and 61 is '='. A bad one is left out.
unfoldable pub setting : Text → Option (Text × Text)
unfolding query_unescape has_byte cut_at
setting part =
    if has_byte 59 part || text_eq part []
    then none
    else query_unescape (cut_at 61 part).0 >>= λ name.
        query_unescape (cut_at 61 part).1 >>= λ value. some (name, value)

unfoldable pub settings : List Text → Dict Text
unfolding setting
settings [] = []
settings (part ∷ parts) = elim (setting part) [
  | none ↦ settings parts
  | some s ↦ s ∷ settings parts
]

-- url.ParseQuery; 38 is '&'.
unfoldable pub parse_query : Text → Dict Text
unfolding settings split_on
parse_query s = settings (split_on 38 s)

-- The query of a URL: what stands after the first '?' and before the first '#'.
unfoldable pub url_query : Text → Dict Text
unfolding parse_query cut_at
url_query url = parse_query (cut_at 63 (cut_at 35 url).0).1
