-- ===== src/Database/Ping.antt =====
-- Lemmas on db/pool.go: the retries of PingWithRetry.
use mathlib.Core.Path.{subst}
use openadsource.Common.{
  Bool, true, false, ℕ, zero, suc, ◌+◌, ◌≤◌, ◌<◌, ◌≡◌, refl, inl, inr, arith, ℕ_discrete,
  Bool-cases, if◌then◌else◌, sym,
}
use openadsource.Common.Int.{ℤ, pos, leb_ℤ, pos_part, negsuc}
use openadsource.Database.{Pinged, reached, gave_up, canceled, ping_loop, ping_with_retry}

some_attempt : (attempts : ℤ) → 0 < (if leb_ℤ (pos 1) attempts then pos_part attempts else 1)
some_attempt (pos n) = ground arith
some_attempt (negsuc n) = ground arith

module _ (answers stops : ℕ → Bool) where
  -- What the pings so far have shown, by the way in which the loop ends.
  abbrev pub Explains : ℕ → ℕ → Pinged → Type 0
  Explains limit n reached = (m : ℕ) × (n ≡ suc m) × (answers m ≡ true)
  Explains limit n canceled = (m : ℕ) × (n ≡ suc m) × (answers m ≡ false) × (stops m ≡ true)
  Explains limit n gave_up = (n ≡ limit) × ((i : ℕ) → i < n → answers i ≡ false)

  abbrev pub Unanswered : ℕ → Type 0
  Unanswered n = (i : ℕ) → i < n → (answers i ≡ false) × (stops i ≡ false)

  -- A loop that sends at most `limit` pings in all.
  abbrev pub IsBounded : ℕ → Pinged × ℕ → Type 0
  IsBounded limit (r, n) =
      (n ≤ limit)
      × ((j : ℕ) → suc j < n → (answers j ≡ false) × (stops j ≡ false))
      × Explains limit n r

  one_more : (i : ℕ) → Unanswered i → answers i ≡ false → stops i ≡ false → Unanswered (suc i)
  one_more i h e f j lt = elim (ℕ_discrete j i) [
    | yes same ↦ subst (λ (k : ℕ). (answers k ≡ false) × (stops k ≡ false)) (sym same) (e, f)
    | no differ ↦ h j (omega (arith, lt, differ))
  ]

  ping_loop-IsBounded :
      (left i limit : ℕ)
      → left + i ≡ limit
      → Unanswered i
      → IsBounded limit (ping_loop answers stops left i)
  unfolding ping_loop
  ping_loop-IsBounded zero i limit e h =
      (omega (arith, e), λ j lt. h j (omega (arith, lt)), (omega (arith, e), λ j lt. (h j lt).0))
  ping_loop-IsBounded (suc left) i limit e h = elim (Bool-cases (answers i)) [
    | inl a ↦ rw (ping_loop, a) (omega (arith, e), λ j lt. h j (omega (arith, lt)), (i, refl, a))
    | inr a ↦ elim (Bool-cases (stops i)) [
      | inl b ↦
          rw (ping_loop, a, b) (omega (arith, e), λ j lt. h j (omega (arith, lt)), (i, refl, a, b))
      | inr b ↦
          rw (ping_loop, a, b)
            (ping_loop-IsBounded left (suc i) limit (omega (arith, e)) (one_more i h a b))
    ]
  ]

  IsBounded-lt : (limit : ℕ) (r : Pinged) (n : ℕ) → 0 < limit → IsBounded limit (r, n) → 0 < n
  IsBounded-lt limit reached n pos' (le, before, (m, e, a)) = omega (arith, e)
  IsBounded-lt limit canceled n pos' (le, before, (m, e, a, b)) = omega (arith, e)
  IsBounded-lt limit gave_up n pos' (le, before, (e, all)) = omega (arith, e, pos')

  -- PingWithRetry ends after at least one ping and at most the given number, or one if that is
  -- not positive. It stops at the first ping that succeeds or after which the context ends, and
  -- gives up only when every ping that it was given has failed.
  pub ping_with_retry-IsBounded :
      (attempts : ℤ)
      → let limit = if leb_ℤ (pos 1) attempts then pos_part attempts else 1 in
        (0 < (ping_with_retry answers stops attempts).1)
        × IsBounded limit (ping_with_retry answers stops attempts)
  unfolding ping_with_retry
  ping_with_retry-IsBounded attempts =
      let limit = if leb_ℤ (pos 1) attempts then pos_part attempts else 1 in
      let bounded =
        ping_loop-IsBounded limit 0 limit (omega arith) (λ i lt. absurd (omega (arith, lt))) in
      let (r, n) = ping_loop answers stops limit 0 in
      (IsBounded-lt limit r n (some_attempt attempts) bounded, bounded)
