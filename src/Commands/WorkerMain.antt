-- ===== src/Commands/WorkerMain.antt =====
-- server/cmd/worker/main.go: the start of the worker, up to its ticker.
use mathlib.Core.Path.{subst}
use openadsource.Common.{
  Bool, true, false, not, Option, [], Text, text_eq, codes, ◌⊎◌, inr, ◌≡◌, refl, ℕ, arith,
  if◌then◌else◌, ◌∷◌,
}
use openadsource.Common.Int.{ℤ, pos, leb_ℤ, ◌<ℤ◌, default-positive}
use openadsource.Config.{Config}
use openadsource.Database.{PoolConfig, new_pool, ping_with_retry}
use openadsource.Tracking.Events.{tracked_events}
use openadsource.Worker.Lock.{Lock, new_lock}
use openadsource.Worker.Tick.{Drainer, new_drainer}
use openadsource.Commands.{
  Fatal, bad_pool, no_postgres, no_redis_url, bad_redis_url, no_redis, is_opened, is_reached,
  start_after, start_after-AllPass,
}

pub record Started : Type 0 where
  pub lock : Lock
  pub drainer : Drainer
  pub interval : ℤ
  pub metrics_port : Text

-- Up to time.NewTicker; `id` is the identifier that NewLock makes.
unfoldable pub prepared : {F : Type 0} → Config F → Text → Started
prepared cfg id = record {
  lock = new_lock (pos 60000) id;
  drainer = new_drainer tracked_events;
  interval = if leb_ℤ cfg.worker_interval (pos 0) then pos 30000000000 else cfg.worker_interval;
  metrics_port = if text_eq cfg.metrics_port [] then codes "9100" else cfg.metrics_port;
}

some_port : (port : Text) → text_eq (if text_eq port [] then codes "9100" else port) [] ≡ false
unfolding text_eq
some_port [] = refl
some_port (c ∷ port) = refl

module _ {C P : Type 0} (parse_config : Text → Option C) (new_with_config : PoolConfig C → Option P)
    (answers stops : ℕ → Bool) (parse_redis : Text → Bool) (redis_answers : Bool) where
  unfoldable pub start_worker : {F : Type 0} → Config F → Text → Fatal ⊎ Started
  unfolding prepared
  start_worker cfg id =
      start_after
        ((is_opened (new_pool parse_config new_with_config cfg.database_url), bad_pool)
          ∷ (is_reached (ping_with_retry answers stops (pos 15)).0, no_postgres)
          ∷ (not (text_eq cfg.redis_url []), no_redis_url)
          ∷ (parse_redis cfg.redis_url, bad_redis_url)
          ∷ (redis_answers, no_redis)
          ∷ [])
        (prepared cfg id)

  -- A worker starts only if its pool opened, Postgres answered a ping, and Redis is configured
  -- and answers; then its ticker has a positive interval, its lock a positive time to live, and
  -- its metrics a port, whatever its configuration.
  pub start_worker-started :
      {F : Type 0} (cfg : Config F) (id : Text) (s : Started)
      → start_worker cfg id ≡ inr s
      → (is_opened (new_pool parse_config new_with_config cfg.database_url) ≡ true)
        × (is_reached (ping_with_retry answers stops (pos 15)).0 ≡ true)
        × (text_eq cfg.redis_url [] ≡ false)
        × (parse_redis cfg.redis_url ≡ true)
        × (redis_answers ≡ true)
        × (pos 0 <ℤ s.interval)
        × (pos 0 <ℤ s.lock.ttl)
        × (text_eq s.metrics_port [] ≡ false)
  unfolding start_worker prepared new_lock
  start_worker-started cfg id s h =
      let ((a, (b, (c, (d, (e, all))))), same) = start_after-AllPass _ (prepared cfg id) s h in
      (
        a,
        b,
        ground (arith, c),
        d,
        e,
        subst (λ (x : Started). pos 0 <ℤ x.interval) same
            (default-positive cfg.worker_interval (pos 30000000000) (omega arith)),
        subst (λ (x : Started). pos 0 <ℤ x.lock.ttl) same (omega arith),
        subst (λ (x : Started). text_eq x.metrics_port [] ≡ false) same
            (some_port cfg.metrics_port),
      )
