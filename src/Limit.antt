-- ===== src/Limit.antt =====
-- server/internal/httpmw/ratelimit.go: the limit per client. The token bucket of a client,
-- golang.org/x/time/rate, is a parameter. The entries of the sync.Map are a list; Range gives no
-- order, and here it goes down the list. Requests run one after another.
pub mod Size
pub mod Full
use openadsource.Common.{
  ℕ, zero, suc, Bool, true, false, not, Option, none, some, List, [], ◌∷◌, ◌++◌, if◌then◌else◌,
  ◌||◌, Text, codes, text_eq,
}
use openadsource.Common.Int.{ℤ, pos, negsuc, ◌+ℤ◌, ◌-ℤ◌, ltb_ℤ, leb_ℤ}

-- rate.Limit and rate.Limiter: whether a rate is positive, a full bucket for a rate and a burst, and
-- Allow at a Unix second.
pub record Bucket : Type 1 where
  pub Rate : Type 0
  pub positive : Rate → Bool
  pub B : Type 0
  pub full : Rate → ℤ → B
  pub take : B → ℤ → Bool × B

module _ (bucket : Bucket) where
  open bucket use {Rate, positive, B, full, take}

  pub record Visitor : Type 0 where
    pub limiter : B
    pub last_seen : ℤ

  -- The rate and the burst, the bound, the map and its approximate size.
  pub record Limiter : Type 0 where
    pub rate : Rate
    pub burst : ℤ
    pub bound : ℤ
    pub bag : List (Text × Visitor)
    pub approx_size : ℤ

  unfoldable pub new_limiter : Rate → ℤ → ℤ → Limiter
  new_limiter rps burst bound = record {
    rate = rps;
    burst = burst;
    bound = if leb_ℤ bound (pos 0) then pos 100000 else bound;
    bag = [];
    approx_size = pos 0;
  }

  -- The first visitor of the map that is idle is deleted; whether there is one.
  unfoldable pub evict_one : ℤ → List (Text × Visitor) → Bool × List (Text × Visitor)
  evict_one cutoff [] = (false, [])
  evict_one cutoff ((k, v) ∷ bag) =
      let (found, rest) = evict_one cutoff bag in
      if ltb_ℤ v.last_seen cutoff then (true, bag) else (found, (k, v) ∷ rest)

  -- A visitor that is there: the time of its request, and its token.
  unfoldable pub touch : Text → ℤ → List (Text × Visitor) → Option (Bool × List (Text × Visitor))
  touch key now [] = none
  touch key now ((k, v) ∷ bag) =
      let later = touch key now bag in
      let (ok, b) = take v.limiter now in
      if text_eq k key
      then some (ok, (k, record { limiter = b; last_seen = now }) ∷ bag)
      else elim later [ none ↦ none | some (r, rest) ↦ some (r, (k, v) ∷ rest) ]

  -- A visitor that is not there.
  unfoldable pub admit : Text → ℤ → Limiter → Bool × Limiter
  unfolding evict_one
  admit key now l =
      let (found, kept) =
        if leb_ℤ l.bound l.approx_size then evict_one (now -ℤ pos 60) l.bag else (false, l.bag) in
      let size = if found then l.approx_size -ℤ pos 1 else l.approx_size in
      let (ok, b) = take (full l.rate l.burst) now in
      (
        ok,
        record l {
          bag = (key, record { limiter = b; last_seen = now }) ∷ kept;
          approx_size = size +ℤ pos 1;
        },
      )

  -- Allow of a limiter that is not nil, at a Unix second.
  unfoldable pub allow : Text → ℤ → Limiter → Bool × Limiter
  unfolding admit touch
  allow key now l = if not (positive l.rate) then (true, l) else elim (touch key now l.bag) [
    | some (ok, bag) ↦ (ok, record l { bag = bag })
    | none ↦ admit key now l
  ]

  -- The key of a client, with the address as text or `none` if there is none.
  unfoldable pub client_key : Option Text → Text
  client_key none = codes "_"
  client_key (some ip) = ip

  -- Whether the next handler runs; a nil limiter is `none`.
  unfoldable pub middleware : Option Text → ℤ → Option Limiter → Bool × Option Limiter
  unfolding allow client_key
  middleware ip now none = (true, none)
  middleware ip now (some l) = let (ok, l') = allow (client_key ip) now l in (ok, some l')

  -- The pass of Run: every visitor that has been idle for 15 minutes is deleted.
  unfoldable pub sweep_bag : ℤ → List (Text × Visitor) → ℤ → List (Text × Visitor) × ℤ
  sweep_bag cutoff [] size = ([], size)
  sweep_bag cutoff ((k, v) ∷ bag) size =
      let idle = ltb_ℤ v.last_seen cutoff in
      let (rest, size') = sweep_bag cutoff bag (if idle then size -ℤ pos 1 else size) in
      (if idle then rest else (k, v) ∷ rest, size')

  unfoldable pub sweep : ℤ → Limiter → Limiter
  unfolding sweep_bag
  sweep now l =
      let (bag, size) = sweep_bag (now -ℤ pos 900) l.bag l.approx_size in
      record l { bag = bag; approx_size = size }
