-- ===== src/Tracking/Expiry.antt =====
-- server/internal/tracking/handler.go, parseUnix, and the decimal text that it reads back.
use openadsource.Common.{
  ℕ, zero, suc, ◌+◌, ◌*◌, ◌-◌, ◌/◌, ◌%◌, ◌≤◌, ◌<◌, ◌≡◌, false, [], ◌∷◌, ◌++◌, if◌then◌else◌, ltb,
  ◌||◌, arith, Text, ◌^◌, dec_lt, ◌∙◌, ap,
}
use openadsource.Common.Int.{ℤ, pos, ◌+ℤ◌, ◌*ℤ◌, ltb_ℤ, wrap64}

-- The loop of parseUnix with the number read so far, an int64.
unfoldable pub parse_from : ℤ → Text → ℤ
parse_from n [] = n
parse_from n (c ∷ s) =
    let m = wrap64 (wrap64 (n *ℤ pos 10) +ℤ pos (c - 48)) in
    let rest = parse_from m s in
    if ltb c 48 || ltb 57 c
    then pos 0
    else if ltb_ℤ (pos 4611686018427387904) m
    then pos 0
    else rest

unfoldable pub parse_unix : Text → ℤ
unfolding parse_from
parse_unix s = parse_from (pos 0) s

-- strconv.FormatInt in base 10 of a number that is not negative, with one unit of fuel a digit.
unfoldable pub format_digits : ℕ → ℕ → Text
format_digits zero n = []
format_digits (suc fuel) n =
    let front = format_digits fuel (n / 10) in
    if ltb n 10 then (48 + n) ∷ [] else front ++ (48 + n % 10) ∷ []

-- An int64 has at most 19 digits.
unfoldable pub format_unix : ℕ → Text
unfolding format_digits
format_unix n = format_digits 19 n

step_lem :
    (n d : ℕ)
    → n * 10 + d ≤ 4611686018427387904
    → d < 10
    → wrap64 (wrap64 (pos n *ℤ pos 10) +ℤ pos (48 + d - 48)) ≡ pos (n * 10 + d)
unfolding wrap64 ◌*ℤ◌ ◌+ℤ◌
step_lem n d h k = ground arith

ascii_digit : (d : ℕ) → d < 10 → (ltb (48 + d) 48 || ltb 57 (48 + d)) ≡ false
ascii_digit d k = ground arith

-- A digit at the end.
parse_from-snoc :
    (z : ℤ) (n : ℕ) (s : Text) (d : ℕ)
    → parse_from z s ≡ pos n
    → 1 ≤ n
    → n * 10 + d ≤ 4611686018427387904
    → d < 10
    → parse_from z (s ++ (48 + d) ∷ []) ≡ pos (n * 10 + d)
unfolding parse_from
parse_from-snoc z n [] d e l h k = rw (e, step_lem n d h k) ground (arith, ascii_digit d k)
parse_from-snoc z n (c ∷ s) d e l h k =
    let m = wrap64 (wrap64 (z *ℤ pos 10) +ℤ pos (c - 48)) in
    let later = parse_from-snoc m n s d in ground (arith, later)

parse_digit : (n : ℕ) → n < 10 → parse_from (pos 0) ((48 + n) ∷ []) ≡ pos n
unfolding parse_from
parse_digit n k = rw (step_lem 0 n (omega arith) k) ground (arith, ascii_digit n k)

parse-format :
    (fuel n : ℕ)
    → 1 ≤ n
    → n ≤ 4611686018427387904
    → n < 10 ^ fuel
    → parse_from (pos 0) (format_digits fuel n) ≡ pos n
unfolding format_digits
parse-format zero n l h f = absurd (omega arith)
parse-format (suc fuel) n l h f = elim (dec_lt n 10) [
  | yes small ↦ let one = parse_digit n small in ground (arith, one)
  | no big ↦
      let front = parse-format fuel (n / 10) (omega arith) (omega arith) (omega arith) in
      let d = n % 10 in
      let all : parse_from (pos 0) (format_digits fuel (n / 10) ++ (48 + d) ∷ []) ≡ pos n =
        parse_from-snoc (pos 0) (n / 10) (format_digits fuel (n / 10)) d front (omega arith)
          (omega arith) (omega arith)
        ∙ ap pos (omega arith) in
      ground (arith, all)
]

-- The expiry that Sign writes on a URL is read back, up to 2 ^ 62.
pub parse_unix-format_unix :
    (n : ℕ) → 1 ≤ n → n ≤ 4611686018427387904 → parse_unix (format_unix n) ≡ pos n
unfolding parse_unix format_unix
parse_unix-format_unix n l h = parse-format 19 n l h (omega arith)
