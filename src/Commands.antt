-- ===== src/Commands.antt =====
-- server/cmd: what the two processes do before they serve. A step that fails ends the process
-- (log.Fatal); the services that answer, or not, are parameters.
pub mod WorkerMain
pub mod ServerMain
pub mod Seed
use openadsource.Common.{
  List, [], ◌∷◌, Option, none, some, Bool, true, false, Text, ◌⊎◌, inl, inr, ◌≡◌, refl, ℕ, arith,
  Option, List, none, some,
}
use openadsource.Database.{Opened, opened, refused, Pinged, reached, gave_up, canceled}

-- Why a process ends before it serves.
pub data Fatal : Type 0 where
  bad_pool no_postgres no_redis_url bad_redis_url no_redis : Fatal
  bad_s3 bad_proxies bad_geo bad_budget bad_freq short_secret : Fatal

abbrev pub is_opened : {P : Type 0} → Opened P → Bool
is_opened (opened p) = true
is_opened (refused e) = false

abbrev pub is_reached : Pinged → Bool
is_reached reached = true
is_reached gave_up = false
is_reached canceled = false

-- The steps of a start in their order, each with its result: the first that fails.
unfoldable pub first_failure : List (Bool × Fatal) → Option Fatal
first_failure [] = none
first_failure ((true, e) ∷ steps) = first_failure steps
first_failure ((false, e) ∷ steps) = some e

abbrev pub AllPass : List (Bool × Fatal) → Type 0
AllPass [] = Unit
AllPass ((ok, e) ∷ steps) = (ok ≡ true) × AllPass steps

unfoldable pub start_after : {A : Type 0} → List (Bool × Fatal) → A → Fatal ⊎ A
unfolding first_failure
start_after steps a = elim (first_failure steps) [ none ↦ inr a | some e ↦ inl e ]

pub start_after-AllPass :
    {A : Type 0} (steps : List (Bool × Fatal)) (a b : A)
    → start_after steps a ≡ inr b
    → AllPass steps × (a ≡ b)
unfolding start_after first_failure
start_after-AllPass [] a b h = (tt, ground (arith, h))
start_after-AllPass ((true, e) ∷ steps) a b h =
    let (all, same) = start_after-AllPass steps a b h in ((refl, all), same)
start_after-AllPass ((false, e) ∷ steps) a b h = ground (arith, h)
