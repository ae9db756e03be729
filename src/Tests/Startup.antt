-- ===== src/Tests/Startup.antt =====
-- The start of the commands, the pings, and the refresher.
use openadsource.Common.{
  ℕ, ◌<◌, ◌≡◌, refl, true, false, none, some, List, [], ◌∷◌, Text, codes, text_eq, map, arith, ◌==◌,
  sym, if◌then◌else◌, member, ap, ◌∙◌,
}
use openadsource.Common.Int.{pos, ◌<ℤ◌}
use openadsource.Config.{Config, Environment, load_config, s3_configured}
use openadsource.Commands.{is_opened, is_reached, start_after}
use openadsource.Commands.WorkerMain.{prepared, start_worker, start_worker-started}
use openadsource.Commands.ServerMain.{
  Outside, Server, IsSound, start_server, start_server-IsSound, listening, serves, after_start,
  first_load, after_reload, configured,
}
use openadsource.Database.{new_pool, ping_with_retry}
use openadsource.Database.Ping.{IsBounded, ping_with_retry-IsBounded}
use openadsource.Registry.Load.{Row, load, query_failed}
use openadsource.Registry.Loader.Normalise.{normalise_countries}
use openadsource.Registry.Refresher.{
  Query, Refresher, new_refresher, reload, begun, turned, scheduled, reloaded, Reloaded, failed,
}
use openadsource.Registry.Refresher.Indexed.{
  IsPlain, IsLive, Runs-IsLive, reload-succeeds, reload-fails,
}
use openadsource.Tests.Instances.{ad, float}
use openadsource.Registry.Load.Rows.{load-IsIndexed}

ping_with_retry-IsBounded_example :
    (0 < (ping_with_retry (λ i. 2 == i) (λ i. false) (pos 15)).1)
    × IsBounded (λ i. 2 == i) (λ i. false) 15 (ping_with_retry (λ i. 2 == i) (λ i. false) (pos 15))
ping_with_retry-IsBounded_example = ping_with_retry-IsBounded (λ i. 2 == i) (λ i. false) (pos 15)

-- Nothing is set but Redis and Postgres, a secret, and an interval that is not positive.
abbrev environment : Environment ℕ
environment = record {
  lookup_env = λ key.
      if text_eq key (codes "REDIS_URL")
      then some (codes "r")
      else if text_eq key (codes "DATABASE_URL")
      then some (codes "p")
      else if text_eq key (codes "TRACKING_SECRET")
      then some (codes "12345678")
      else if text_eq key (codes "WORKER_INTERVAL")
      then some (codes "0s")
      else none;
  parse_float = λ v. none;
  parse_int = λ v. none;
  parse_bool = λ v. none;
  parse_duration = λ v. some (pos 0);
}

abbrev config : Config ℕ
config = load_config float environment

start_worker-started_example :
    (is_opened
        (new_pool {C = Text} {P = Text} (λ url. some url) (λ c. some c.parsed) config.database_url)
      ≡ true)
    × (is_reached (ping_with_retry (λ i. 2 == i) (λ i. false) (pos 15)).0 ≡ true)
    × (text_eq config.redis_url [] ≡ false)
    × (true ≡ true)
    × (true ≡ true)
    × (pos 0 <ℤ (prepared config (codes "w")).interval)
    × (pos 0 <ℤ (prepared config (codes "w")).lock.ttl)
    × (text_eq (prepared config (codes "w")).metrics_port [] ≡ false)
unfolding start_worker prepared new_pool ping_with_retry load_config text_eq start_after
start_worker-started_example =
    start_worker-started {C = Text} {P = Text} (λ url. some url) (λ c. some c.parsed) (λ i. 2 == i)
      (λ i. false) (λ url. true) true config (codes "w") (prepared config (codes "w")) refl

abbrev rows : List (Row ℕ)
rows = (ad (codes "a") [] (codes " il" ∷ []) (codes "TV" ∷ []) (pos 1), none) ∷ []

abbrev query : Query float
query = some (map some rows, true)

query-IsPlain : IsPlain float query
unfolding member text_eq normalise_countries
query-IsPlain = (refl, tt)

-- The first load of any refresher.
loads :
    (r : Refresher ℕ)
    → reload float query (pos 0) r ≡ (
      reloaded,
      record r {
        snapshot = some (load-IsIndexed float rows (pos 0) query-IsPlain).0;
        ready = true;
      },
    )
loads r =
    let (s, e, n, each, ok) = load-IsIndexed float rows (pos 0) query-IsPlain in
    reload-succeeds float query (pos 0) r s e

-- A reload that fails after the first.
abbrev fresh : Refresher ℕ
fresh = new_refresher (pos 0) true

not_loaded :
    reload float none (pos 5) (reload float query (pos 0) fresh).1
    ≡ (failed query_failed, (reload float query (pos 0) fresh).1)
unfolding load
not_loaded = reload-fails float none (pos 5) (reload float query (pos 0) fresh).1 query_failed refl

Runs-IsLive_example :
    IsLive float (reload float none (pos 5) (reload float query (pos 0) fresh).1).1
Runs-IsLive_example =
    Runs-IsLive float (IsPlain float) (λ q plain. plain) fresh
      ((reload float none (pos 5) (reload float query (pos 0) fresh).1).1, fresh.subscribes)
      (turned
        (begun query (pos 0) query-IsPlain (ap (λ (x : Reloaded × Refresher ℕ). x.0) (loads fresh)))
        (scheduled none (pos 5) tt
          λ e. ground (arith, sym (ap (λ (x : Reloaded × Refresher ℕ). x.0) not_loaded) ∙ e)))

abbrev outside : Outside Text Text
outside = record {
  parse_config = λ url. some url;
  new_with_config = λ c. some c.parsed;
  answers = λ i. 2 == i;
  stops = λ i. false;
  new_s3_client = false;
  parse_proxies = λ l. true;
  new_geo = λ path. true;
  parse_redis = λ url. true;
  redis_answers = true;
  budget_loads = true;
  freq_loads = true;
}

abbrev booted : Server ℕ
booted = serves outside float config (first_load outside float config query (pos 0)).1

boots : start_server outside float config query (pos 0) ≡ listening booted
unfolding start_server after_start start_after new_pool ping_with_retry load_config text_eq
    s3_configured after_reload
boots =
    ap (after_reload outside float config)
      (loads (new_refresher config.registry_refresh_interval (configured config)))
    ∙ ap (λ (x : Reloaded × Refresher ℕ). listening (serves outside float config x.1))
        (sym (loads (new_refresher config.registry_refresh_interval (configured config))))

start_server-IsSound_example : IsSound outside float config booted
start_server-IsSound_example =
    start_server-IsSound outside float config query (pos 0) booted query-IsPlain boots
