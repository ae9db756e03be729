-- ===== src/Tests/Locks.antt =====
-- Two replicas that want the lock.
use openadsource.Common.Int.{pos}
use openadsource.Redis.{answered}
use openadsource.Common.{refl, ◌≡◌, Text, text_eq, codes}
use openadsource.Worker.Lock.Exclusive.{World, attempt, Run-Exclusive, step, tries, expired, stay}
use openadsource.Worker.Lock.{try_acquire, Lock}

abbrev lock_of : Text → Lock
lock_of id = record { ttl = pos 60000; id = id }

-- The first replica asks and wins, and the second asks in vain.
abbrev contested : World
contested = attempt (lock_of (codes "b")) answered (attempt (lock_of (codes "a")) answered expired)

Run-Exclusive_example : codes "a" ≡ codes "a"
unfolding try_acquire text_eq
Run-Exclusive_example =
    Run-Exclusive contested (codes "a") (codes "a")
      (step (tries (lock_of (codes "a")) answered expired) (
        step (tries (lock_of (codes "b")) answered (attempt (lock_of (codes "a")) answered expired))
          (stay contested)))
      refl refl
