-- ===== src/Commands/ServerMain.antt =====
-- server/cmd/adserver/main.go: the start of the ad server, up to its router.
use mathlib.Core.Path.{subst}
use openadsource.Common.{
  Bool, true, not, Option, List, [], ◌∷◌, Text, text_eq, ◌⊎◌, inl, inr, ◌≡◌, refl, ℕ, arith, ap,
  sym, ◌||◌, length, leb, ◌≤◌, ◌∙◌, ◌&&◌,
}
use openadsource.Common.Int.{ℤ, pos, ◌<ℤ◌, default-positive}
use openadsource.Common.Float.{Float64}
use openadsource.Config.{Config, s3_configured}
use openadsource.Database.{PoolConfig, new_pool, ping_with_retry}
use openadsource.Registry.Load.{LoadError}
use openadsource.Registry.Refresher.{
  Refresher, new_refresher, Query, reload, Reloaded, reloaded, failed, crashed,
}
use openadsource.Registry.Refresher.Indexed.{IsPlain, IsLive, reload-IsLive, reload-interval}
use openadsource.Tracking.Sign.{Signer, new_signer}
use openadsource.Commands.{
  Fatal, bad_pool, no_postgres, bad_redis_url, no_redis, bad_s3, bad_proxies, bad_geo, bad_budget,
  bad_freq, short_secret, is_opened, is_reached, start_after, start_after-AllPass, AllPass,
}

-- What answers outside. The pings of Postgres are numbered.
pub record Outside (C P : Type 0) : Type 0 where
  pub parse_config : Text → Option C
  pub new_with_config : PoolConfig C → Option P
  pub answers : ℕ → Bool
  pub stops : ℕ → Bool
  pub new_s3_client : Bool
  pub parse_proxies : Text → Bool
  pub new_geo : Text → Bool
  pub parse_redis : Text → Bool
  pub redis_answers : Bool
  pub budget_loads : Bool
  pub freq_loads : Bool

-- What serves: a nil enforcer is one that is not there.
pub record Server (F : Type 0) : Type 0 where
  pub has_budget : Bool
  pub has_freq : Bool
  pub signer : Signer
  pub refresher : Refresher F

-- How a start ends. When the first load fails, Run returns its error into a channel that is read
-- at the shutdown only, and WaitReady waits until the process is signalled.
pub data Boot (F : Type 0) : Type 0 where
  ended : Fatal → Boot F
  waiting : LoadError → Boot F
  panicked : Boot F
  listening : Server F → Boot F

abbrev pub configured : {F : Type 0} → Config F → Bool
configured cfg = not (text_eq cfg.redis_url [])

module _ {C P : Type 0} (out : Outside C P) (fl : Float64) where
  open fl use {F}

  abbrev pub server_steps : Config F → List (Bool × Fatal)
  server_steps cfg =
      (is_opened (new_pool out.parse_config out.new_with_config cfg.database_url), bad_pool)
      ∷ (is_reached (ping_with_retry out.answers out.stops (pos 15)).0, no_postgres)
      ∷ (not (s3_configured cfg) || out.new_s3_client, bad_s3)
      ∷ (out.parse_proxies cfg.trusted_proxies, bad_proxies)
      ∷ (out.new_geo cfg.geo_ip_db_path, bad_geo)
      ∷ (not (configured cfg) || out.parse_redis cfg.redis_url, bad_redis_url)
      ∷ (not (configured cfg) || out.redis_answers, no_redis)
      ∷ (not (configured cfg) || out.budget_loads, bad_budget)
      ∷ (not (configured cfg) || out.freq_loads, bad_freq)
      ∷ (leb 8 (length cfg.tracking_secret), short_secret)
      ∷ []

  abbrev pub serves : Config F → Refresher F → Server F
  serves cfg r = record {
    has_budget = configured cfg;
    has_freq = configured cfg;
    signer = new_signer cfg.tracking_secret cfg.tracking_token_ttl;
    refresher = r;
  }

  unfoldable pub after_reload : Config F → Reloaded × Refresher F → Boot F
  after_reload cfg (reloaded, r) = listening (serves cfg r)
  after_reload cfg (failed e, r) = waiting e
  after_reload cfg (crashed, r) = panicked

  abbrev pub first_load : Config F → Query fl → ℤ → Reloaded × Refresher F
  first_load cfg query now =
      reload fl query now (new_refresher cfg.registry_refresh_interval (configured cfg))

  unfoldable pub after_start : Query fl → ℤ → Fatal ⊎ Config F → Boot F
  unfolding after_reload
  after_start query now (inl e) = ended e
  after_start query now (inr cfg) = after_reload cfg (first_load cfg query now)

  -- The steps, and the first load of Run.
  unfoldable pub start_server : Config F → Query fl → ℤ → Boot F
  unfolding after_start
  start_server cfg query now = after_start query now (start_after (server_steps cfg) cfg)

  after_reload-listening :
      (cfg : Config F) (p : Reloaded × Refresher F) (s : Server F)
      → after_reload cfg p ≡ listening s
      → (p.0 ≡ reloaded) × (serves cfg p.1 ≡ s)
  unfolding after_reload
  after_reload-listening cfg (reloaded, r) s h = (refl, ground (arith, h))
  after_reload-listening cfg (failed e, r) s h = ground (arith, h)
  after_reload-listening cfg (crashed, r) s h = ground (arith, h)

  after_start-listening :
      (query : Query fl) (now : ℤ) (x : Fatal ⊎ Config F) (s : Server F)
      → after_start query now x ≡ listening s
      → (cfg : Config F) × (x ≡ inr cfg)
        × ((first_load cfg query now).0 ≡ reloaded)
        × (serves cfg (first_load cfg query now).1 ≡ s)
  unfolding after_start
  after_start-listening query now (inl e) s h = ground (arith, h)
  after_start-listening query now (inr cfg) s h =
      let (done, same) = after_reload-listening cfg (first_load cfg query now) s h in
      (cfg, refl, done, same)

  -- What the server depends on answered, the snapshot is there and right, and the parts agree with
  -- the configuration.
  abbrev pub IsSound : Config F → Server F → Type 0
  IsSound cfg s =
      (is_opened (new_pool out.parse_config out.new_with_config cfg.database_url) ≡ true)
      × (is_reached (ping_with_retry out.answers out.stops (pos 15)).0 ≡ true)
      × ((not (s3_configured cfg) || out.new_s3_client) ≡ true)
      × (out.parse_proxies cfg.trusted_proxies ≡ true)
      × (out.new_geo cfg.geo_ip_db_path ≡ true)
      × ((text_eq cfg.redis_url []
            || (out.parse_redis cfg.redis_url
                && out.redis_answers
                && out.budget_loads
                && out.freq_loads))
          ≡ true)
      × IsLive fl s.refresher
      × (8 ≤ length s.signer.key)
      × (pos 0 <ℤ s.signer.ttl)
      × (pos 0 <ℤ s.refresher.interval)
      × (s.has_budget ≡ configured cfg)
      × (s.has_freq ≡ configured cfg)

  redis_ready :
      (absent parses answers budget freq : Bool)
      → (not (not absent) || parses) ≡ true
      → (not (not absent) || answers) ≡ true
      → (not (not absent) || budget) ≡ true
      → (not (not absent) || freq) ≡ true
      → (absent || (parses && answers && budget && freq)) ≡ true
  redis_ready absent parses answers budget freq a b c d = ground arith

  long_enough : (n : ℕ) → leb 8 n ≡ true → 8 ≤ n
  long_enough n h = ground (arith, h)

  first_load-interval :
      (cfg : Config F) (query : Query fl) (now : ℤ) → pos 0 <ℤ (first_load cfg query now).1.interval
  unfolding new_refresher
  first_load-interval cfg query now =
      let r = new_refresher cfg.registry_refresh_interval (configured cfg) in
      subst (λ (x : ℤ). pos 0 <ℤ x) (sym (reload-interval fl query now r))
        (default-positive cfg.registry_refresh_interval (pos 30000000000) (omega arith))

  serves-IsSound :
      (cfg : Config F) (query : Query fl) (now : ℤ)
      → IsPlain fl query
      → AllPass (server_steps cfg)
      → (first_load cfg query now).0 ≡ reloaded
      → IsSound cfg (serves cfg (first_load cfg query now).1)
  unfolding new_signer
  serves-IsSound cfg query now plain
        (pool, (pg, (s3, (proxies, (geo, (url, (redis, (budget, (freq, (long, _)))))))))) done =
      (
        pool,
        pg,
        s3,
        proxies,
        geo,
        redis_ready (text_eq cfg.redis_url []) _ _ _ _ url redis budget freq,
        reload-IsLive fl query now _ plain (inl done),
        long_enough (length cfg.tracking_secret) long,
        default-positive cfg.tracking_token_ttl (pos 86400000000000) (omega arith),
        first_load-interval cfg query now,
        refl,
        refl,
      )

  -- An ad server that listens opened its pool, reached Postgres, made its S3 client if that is
  -- configured, parsed its proxies, opened its country database, and, if Redis is configured, parsed
  -- its URL, had an answer from it, and loaded both scripts. It holds a snapshot whose lookups
  -- are right, if no country list that was loaded names the wildcard key after normalisation.
  -- It signs with a key of at least 8 bytes, for a positive time; it reloads at a positive
  -- interval; and it has both enforcers exactly when Redis is configured.
  pub start_server-IsSound :
      (cfg : Config F) (query : Query fl) (now : ℤ) (s : Server F)
      → IsPlain fl query
      → start_server cfg query now ≡ listening s
      → IsSound cfg s
  unfolding start_server
  start_server-IsSound cfg query now s plain h =
      let (c, e, done, same) =
        after_start-listening query now (start_after (server_steps cfg) cfg) s h in
      let (all, is) = start_after-AllPass (server_steps cfg) cfg c e in
      subst (λ (t : Server F). IsSound cfg t)
        (ap (λ (x : Config F). serves x (first_load x query now).1) is ∙ same)
        (serves-IsSound cfg query now plain all
          (ap (λ (x : Config F). (first_load x query now).0) is ∙ done))
