-- ===== src/Delivery/Excluded.antt =====
-- Lemmas on delivery/handler.go, addExcluded: the scan of the snapshot for an ad.
use mathlib.Core.Path.{subst}
use openadsource.Common.{some, ◌≡◌, ℕ, List, zero, suc, [], ◌∷◌, ◌+◌, ◌<◌, length, arith, sym}
use openadsource.Delivery.{index_from, index_of}

index_from-lt {ℓ} :
    {A : Type ℓ} (i : ℕ) (ads : List A) (n : ℕ)
    → n < length ads
    → index_from i ads (i + n) ≡ some (i + n)
unfolding index_from
index_from-lt i [] n h = ground arith
index_from-lt i (a ∷ ads) zero h = ground arith
index_from-lt i (a ∷ ads) (suc n) h =
    let p : suc i + n ≡ i + suc n = omega arith in
    let later : index_from (suc i) ads (i + suc n) ≡ some (i + suc n) =
      rw (sym p) (index_from-lt (suc i) ads n (omega arith)) in
    ground (arith, later)

pub index_of-lt {ℓ} : {A : Type ℓ} (ads : List A) (n : ℕ) → n < length ads → index_of ads n ≡ some n
unfolding index_of
index_of-lt ads n h =
    let p : 0 + n ≡ n = omega arith in
    subst (λ (k : ℕ). index_from 0 ads k ≡ some k) p (index_from-lt 0 ads n h)
