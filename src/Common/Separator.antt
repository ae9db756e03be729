-- ===== src/Common/Separator.antt =====
-- Texts cut at a separator.
use Prim.Native.Nat.{ℕ}
use mathlib.Core.Path.{◌≡◌, refl, sym, ap₂}
use mathlib.Core.Logic.{◌≢◌}
use mathlib.Core.List.{[], ◌∷◌, ◌++◌, head-eq_of_cons-eq, tail-eq_of_cons-eq}
use openadsource.Common.Texts.{Text}

-- The separator c does not stand in the text.
abbrev pub Lacks : ℕ → Text → Type 0
Lacks c [] = Unit
Lacks c (a ∷ s) = (a ≢ c) × Lacks c s

pub cut :
    (c : ℕ) (a b : Text) {r q : Text}
    → Lacks c a
    → Lacks c b
    → a ++ c ∷ r ≡ b ++ c ∷ q
    → (a ≡ b) × (r ≡ q)
cut c [] [] ha hb e = (refl, tail-eq_of_cons-eq e)
cut c [] (y ∷ b) ha hb e = absurd (hb.0 (sym (head-eq_of_cons-eq e)))
cut c (x ∷ a) [] ha hb e = absurd (ha.0 (head-eq_of_cons-eq e))
cut c (x ∷ a) (y ∷ b) ha hb e =
    let (p, q) = cut c a b ha.1 hb.1 (tail-eq_of_cons-eq e) in (ap₂ ◌∷◌ (head-eq_of_cons-eq e) p, q)
