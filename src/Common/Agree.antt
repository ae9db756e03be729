-- ===== src/Common/Agree.antt =====
-- Two computations that may fail: both do, or neither does and their results are related.
use mathlib.Core.Path.{◌≡◌, refl, ap}
use mathlib.Core.Option.{Option, none, some}
use openadsource.Common.Tests.{◌>>=◌}

abbrev pub Agree : {A B : Type 0} → (A → B → Type 0) → Option A → Option B → Type 0
Agree R none none = Unit
Agree R none (some b) = ⊥
Agree R (some a) none = ⊥
Agree R (some a) (some b) = R a b

module _ {A B C D : Type 0} where
  pub Agree-bind :
      (R : A → B → Type 0) (S : C → D → Type 0) (a : Option A) (b : Option B) (f : A → Option C)
      (g : B → Option D)
      → Agree R a b
      → ((x : A) (y : B) → R x y → Agree S (f x) (g y))
      → Agree S (a >>= f) (b >>= g)
  Agree-bind R S none none f g h k = tt
  Agree-bind R S none (some b) f g h k = absurd h
  Agree-bind R S (some a) none f g h k = absurd h
  Agree-bind R S (some a) (some b) f g h k = k a b h

module _ {A B C : Type 0} where
  -- A last step on the left side alone.
  pub Agree-map :
      (R : A → B → Type 0) (S : C → B → Type 0) (a : Option A) (b : Option B) (f : A → C)
      → Agree R a b
      → ((x : A) (y : B) → R x y → S (f x) y)
      → Agree S (a >>= λ x. some (f x)) b
  Agree-map R S none none f h k = tt
  Agree-map R S none (some b) f h k = absurd h
  Agree-map R S (some a) none f h k = absurd h
  Agree-map R S (some a) (some b) f h k = k a b h

module _ {A B D : Type 0} where
  -- A last step on the right side alone.
  pub Agree-map_right :
      (R : A → B → Type 0) (S : A → D → Type 0) (a : Option A) (b : Option B) (g : B → D)
      → Agree R a b
      → ((x : A) (y : B) → R x y → S x (g y))
      → Agree S a (b >>= λ y. some (g y))
  Agree-map_right R S none none g h k = tt
  Agree-map_right R S none (some b) g h k = absurd h
  Agree-map_right R S (some a) none g h k = absurd h
  Agree-map_right R S (some a) (some b) g h k = k a b h

module _ {A C D : Type 0} where
  -- The same first step.
  pub Agree-then :
      (S : C → D → Type 0) (a : Option A) (f : A → Option C) (g : A → Option D)
      → ((x : A) → Agree S (f x) (g x))
      → Agree S (a >>= f) (a >>= g)
  Agree-then S none f g k = tt
  Agree-then S (some a) f g k = k a

module _ {A B : Type 0} where
  pub Agree-eq :
      (a : Option A) (b : Option B) (f : B → A)
      → Agree (λ x y. x ≡ f y) a b
      → a ≡ (b >>= λ y. some (f y))
  Agree-eq none none f h = refl
  Agree-eq none (some b) f h = absurd h
  Agree-eq (some a) none f h = absurd h
  Agree-eq (some a) (some b) f h = ap some h
