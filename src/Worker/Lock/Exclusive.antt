-- ===== src/Worker/Lock/Exclusive.antt =====
-- Lemmas on worker/lock.go: several replicas and the expiry of the key, as steps.
use openadsource.Common.{
  if◌then◌else◌, Bool, Option, Text, text_eq, text_cases, text_ne, ap, sym, ◌∙◌, arith, true, false,
  none, some, inl, inr, ◌≡◌, Option, Text, arith, Bool, sym, ◌∙◌,
}
use openadsource.Redis.{answered, no_script, refused, reply_lost, Transport}
use openadsource.Worker.Lock.{Lock, try_acquire, release, release_script}

-- What Redis holds under the key, and the replicas that were told that they won it, until they
-- release it or it expires.
pub record World : Type 0 where
  pub cell : Option Text
  pub leases : Text → Bool

abbrev mark : Text → Bool → (Text → Bool) → Text → Bool
mark id b f j = if text_eq id j then b else f j

abbrev is_won : Option Bool → Bool
is_won none = false
is_won (some won) = won

abbrev pub attempt : Lock → Transport → World → World
attempt l t w =
    let (r, cell) = try_acquire (some l) t w.cell in
    record { cell = cell; leases = if is_won r then mark l.id true w.leases else w.leases }

abbrev pub finish : Lock → Transport → World → World
finish l t w = record { cell = release (some l) t w.cell; leases = mark l.id false w.leases }

abbrev pub expired : World
expired = record { cell = none; leases = λ j. false }

-- One step of the replicas and of Redis.
pub data Step : World → World → Type 0 where
  tries : (l : Lock) (t : Transport) (w : World) → Step w (attempt l t w)
  stops : (l : Lock) (t : Transport) (w : World) → Step w (finish l t w)
  expires : (w : World) → Step w expired

pub data Run : World → World → Type 0 where
  stay : (w : World) → Run w w
  step : {u v w : World} → Step u v → Run v w → Run u w

-- Who holds a lease is who the key names.
abbrev pub Held : World → Type 0
Held w = (j : Text) → w.leases j ≡ true → w.cell ≡ some j

abbrev world : Option Text → (Text → Bool) → World
world cell leases = record { cell = cell; leases = leases }

won_lem :
    (l : Lock) (cell : Option Text) (leases : Text → Bool)
    → Held (world cell leases)
    → Held (attempt l answered (world cell leases))
unfolding try_acquire
won_lem l none leases held j e = elim (text_cases l.id j) [
  | inl (p, t) ↦ ap some p
  | inr (ne, f) ↦ absurd (ground (arith, held j (ground (arith, e, f))))
]
won_lem l (some v) leases held j e = held j e

lost_lem :
    (l : Lock) (cell : Option Text) (leases : Text → Bool)
    → Held (world cell leases)
    → Held (attempt l reply_lost (world cell leases))
unfolding try_acquire
lost_lem l none leases held j e = absurd (ground (arith, held j e))
lost_lem l (some v) leases held j e = held j e

attempt-Held : (l : Lock) (t : Transport) (w : World) → Held w → Held (attempt l t w)
unfolding try_acquire
attempt-Held l answered w held j e = won_lem l w.cell w.leases held j e
attempt-Held l no_script w held j e = held j e
attempt-Held l refused w held j e = held j e
attempt-Held l reply_lost w held j e = lost_lem l w.cell w.leases held j e

-- A replica that stops names itself no longer, and what it deletes is its own.
kept_lem :
    (id : Text) (cell : Option Text) (leases : Text → Bool) (j : Text)
    → Held (world cell leases)
    → mark id false leases j ≡ true
    → (leases j ≡ true) × (release_script id cell ≡ some j)
unfolding release_script
kept_lem id cell leases j held e = elim (text_cases id j) [
  | inl (p, t) ↦ absurd (ground (arith, e, t))
  | inr (ne, f) ↦
      let lease : leases j ≡ true = ground (arith, e, f) in
      let other : text_eq j id ≡ false = text_ne (λ p. ne (sym p)) in
      (lease, rw (held j lease, release_script) ground (arith, other))
]

finish-Held : (l : Lock) (t : Transport) (w : World) → Held w → Held (finish l t w)
unfolding release
finish-Held l answered w held j e = (kept_lem l.id w.cell w.leases j held e).1
finish-Held l no_script w held j e = held j (kept_lem l.id w.cell w.leases j held e).0
finish-Held l refused w held j e = held j (kept_lem l.id w.cell w.leases j held e).0
finish-Held l reply_lost w held j e = (kept_lem l.id w.cell w.leases j held e).1

Step-Held : {v w : World} → Step v w → Held v → Held w
Step-Held (tries l t w) held = attempt-Held l t w held
Step-Held (stops l t w) held = finish-Held l t w held
Step-Held (expires w) held = λ j e. ground (arith, e)

Run-Held : {v w : World} → Run v w → Held v → Held w
Run-Held (stay w) held = held
Run-Held (step s r) held = Run-Held r (Step-Held s held)

-- Along any run from a free lock, two replicas that both hold a lease are one.
pub Run-Exclusive :
    (w : World) (i j : Text) → Run expired w → w.leases i ≡ true → w.leases j ≡ true → i ≡ j
Run-Exclusive w i j r hi hj =
    let held = Run-Held r (λ k e. ground (arith, e)) in
    let same : some i ≡ some j = sym (held i hi) ∙ held j hj in cc same
