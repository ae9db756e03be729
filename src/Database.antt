-- ===== src/Database.antt =====
-- server/internal/db/pool.go: the connection pool. The driver's parser and constructor are
-- arguments, and so is what becomes of each ping.
pub mod Ping
use openadsource.Common.{
  Bool, true, false, Option, none, some, [], if◌then◌else◌, Text, text_eq, ℕ, zero, suc, ◌+◌,
}
use openadsource.Common.Int.{ℤ, pos, leb_ℤ, pos_part}

-- What NewPool sets in the parsed configuration; durations in nanoseconds.
pub record PoolConfig (C : Type 0) : Type 0 where
  pub parsed : C
  pub min_conns : ℤ
  pub max_conns : ℤ
  pub health_check_period : ℤ
  pub max_conn_lifetime : ℤ
  pub max_conn_idle_time : ℤ

pub data PoolError : Type 0 where
  empty_url bad_url not_opened : PoolError

pub data Opened (P : Type 0) : Type 0 where
  opened : P → Opened P
  refused : PoolError → Opened P

module _ {C P : Type 0} (parse_config : Text → Option C)
    (new_with_config : PoolConfig C → Option P) where
  unfoldable pub new_pool : Text → Opened P
  new_pool url = if text_eq url [] then refused empty_url else elim (parse_config url) [
    | none ↦ refused bad_url
    | some c ↦
        elim (new_with_config record {
          parsed = c;
          min_conns = pos 2;
          max_conns = pos 20;
          health_check_period = pos 30000000000;
          max_conn_lifetime = pos 1800000000000;
          max_conn_idle_time = pos 300000000000;
        }) [ none ↦ refused not_opened | some p ↦ opened p ]
  ]

-- How PingWithRetry ends.
pub data Pinged : Type 0 where
  reached gave_up canceled : Pinged

-- `answers i` says whether ping i succeeds, `stops i` whether the context ends the wait after it.
module _ (answers stops : ℕ → Bool) where
  -- The loop, with the attempts left and the number of the next ping; the result, and the number
  -- of pings sent.
  unfoldable pub ping_loop : ℕ → ℕ → Pinged × ℕ
  ping_loop zero i = (gave_up, i)
  ping_loop (suc left) i = elim (answers i) [
    | true ↦ (reached, suc i)
    | false ↦ elim (stops i) [ true ↦ (canceled, suc i) | false ↦ ping_loop left (suc i) ]
  ]

  unfoldable pub ping_with_retry : ℤ → Pinged × ℕ
  unfolding ping_loop
  ping_with_retry attempts = ping_loop (if leb_ℤ (pos 1) attempts then pos_part attempts else 1) 0
