-- ===== src/Tests/Signatures.antt =====
-- A concrete HMAC and hexadecimal text.
use openadsource.Common.{
  zero, ap₂, ap, ◌∙◌, ℕ, suc, ◌+◌, ◌≡◌, refl, false, Option, none, some, [], ◌∷◌, if◌then◌else◌,
  Text, text_eq, arith, ap, ◌++◌, replicate, ◌==◌,
}
use openadsource.Tracking.Sign.{IsHex, Crypto}

-- Numbers in unary: as many ones as the number, and a two.
abbrev pub toy_body : Text → Text
toy_body [] = []
toy_body (n ∷ b) = replicate n 49 ++ 50 ∷ toy_body b

abbrev pub toy_read : ℕ → Text → Text
toy_read n [] = []
toy_read n (c ∷ s) =
    let one = toy_read (suc n) s in let next = toy_read 0 s in if c == 49 then one else n ∷ next

abbrev pub toy_decode : Text → Option Text
toy_decode [] = none
toy_decode (c ∷ b) = some (toy_read 0 b)

toy_read-ones :
    (n m : ℕ) (s : Text) → toy_read m (replicate n 49 ++ 50 ∷ s) ≡ (m + n) ∷ toy_read 0 s
toy_read-ones zero m s = ap (λ (k : ℕ). k ∷ toy_read 0 s) (omega arith)
toy_read-ones (suc n) m s =
    toy_read-ones n (suc m) s ∙ ap (λ (k : ℕ). k ∷ toy_read 0 s) (omega arith)

pub toy_read-body : (b : Text) → toy_read 0 (toy_body b) ≡ b
toy_read-body [] = refl
toy_read-body (n ∷ b) =
    let same : 0 + n ≡ n = omega arith in
    toy_read-ones n 0 (toy_body b) ∙ ap₂ ◌∷◌ same (toy_read-body b)

ones-IsHex : (n : ℕ) (s : Text) → IsHex s → IsHex (replicate n 49 ++ 50 ∷ s)
ones-IsHex zero s h = (refl, h)
ones-IsHex (suc n) s h = (refl, ones-IsHex n s h)

pub toy_body-IsHex : (b : Text) → IsHex (toy_body b)
toy_body-IsHex [] = tt
toy_body-IsHex (n ∷ b) = ones-IsHex n (toy_body b) (toy_body-IsHex b)

pub encoded_nonempty : (b : Text) → text_eq (48 ∷ toy_body b) [] ≡ false
unfolding text_eq
encoded_nonempty b = refl

-- A signature that shows its message.
abbrev pub toy_crypto : Crypto
toy_crypto = record {
  hmac = λ key m. key ++ m;
  encode = λ b. 48 ∷ toy_body b;
  decode = toy_decode;
  decode-encode = λ b. ap some (toy_read-body b);
  encode-nonempty = λ b. encoded_nonempty b;
  encode-IsHex = λ b. (refl, toy_body-IsHex b);
}
