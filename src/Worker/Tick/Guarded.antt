-- ===== src/Worker/Tick/Guarded.antt =====
-- Lemmas on cmd/worker/main.go: the lock around a tick.
use openadsource.Common.{
  false, Option, none, some, Text, codes, ◌≡◌, refl, ◌≢◌, text_eq, text_eq_refl, text_ne,
}
use openadsource.Common.Int.{ℤ}
use openadsource.Common.Float.{Float64}
use openadsource.Redis.{Redis, Transport, answered, no_script, refused, reply_lost}
use openadsource.Worker.Lock.{Lock, try_acquire, release, release_script}
use openadsource.Worker.Tick.{Drainer, Calls, World, Query, run_tick}

module _ (redis : Redis) (show : Text → Text) (format : ℤ → Text) (fl : Float64) (d : Drainer)
    (calls : Calls) where
  open fl use {F}

  -- A replica that finds the lock held changes no counter, no row and no status, and leaves the
  -- key of the lock as it is, whatever becomes of its call; the tick is not reported as done.
  pub run_tick-locked :
      (l : Lock) (acquiring releasing : Transport) (meanwhile : Option Text → Option Text)
      (query : Query F) (at now : ℤ) (holder : Text) (w : World redis)
      → let (result, after) =
          run_tick redis show format fl
            (some l)
            d
            calls
            acquiring
            releasing
            meanwhile
            query
            at
            now
            (some holder, w) in
        (after ≡ (some holder, w)) × (text_eq result (codes "ok") ≡ false)
  unfolding run_tick try_acquire text_eq
  run_tick-locked l answered releasing meanwhile query at now holder w = (refl, refl)
  run_tick-locked l no_script releasing meanwhile query at now holder w = (refl, refl)
  run_tick-locked l refused releasing meanwhile query at now holder w = (refl, refl)
  run_tick-locked l reply_lost releasing meanwhile query at now holder w = (refl, refl)

  -- A replica that wins the free lock frees it again after its tick, however that ends, if its
  -- release is answered and nobody took the key; a key that another replica took meanwhile stays.
  pub run_tick-releases :
      (l : Lock) (meanwhile : Option Text → Option Text) (query : Query F) (at now : ℤ)
      (w : World redis)
      → let cell =
          (run_tick redis show format fl
            (some l)
            d
            calls
            answered
            answered
            meanwhile
            query
            at
            now
            (none, w)).1.0 in
        (meanwhile (some l.id) ≡ some l.id → cell ≡ none)
        × ((other : Text) → meanwhile (some l.id) ≡ some other → other ≢ l.id → cell ≡ some other)
  unfolding run_tick try_acquire release release_script
  run_tick-releases l meanwhile query at now w =
      (λ e. rw (e, text_eq_refl l.id) refl, λ other e ne. rw (e, text_ne ne) refl)
