-- ===== src/Worker/Lock.antt =====
-- server/internal/worker/lock.go: the lock of the worker replicas. What Redis holds under the key is
-- an optional text: SET NX writes it if it is free, the script compares and deletes, and its expiry
-- clears it.
pub mod Exclusive
use openadsource.Common.{Bool, true, false, Option, none, some, if◌then◌else◌, Text, text_eq, ◌≡◌}
use openadsource.Common.Int.{ℤ, pos, leb_ℤ}
use openadsource.Redis.{Transport, answered, no_script, refused, reply_lost}

-- The identifier of the replica and the time to live in milliseconds.
pub record Lock : Type 0 where
  pub ttl : ℤ
  pub id : Text

unfoldable pub new_lock : ℤ → Text → Lock
new_lock ttl_millis id = record {
  ttl = if leb_ℤ ttl_millis (pos 0) then pos 60000 else ttl_millis;
  id = id;
}

-- SET NX of the key.
abbrev pub set_nx : Text → Option Text → Bool × Option Text
set_nx id none = (true, some id)
set_nx id (some w) = (false, some w)

-- TryAcquire: whether the lock is won, or `none` for an error. A nil lock always wins.
unfoldable pub try_acquire : Option Lock → Transport → Option Text → Option Bool × Option Text
try_acquire none t cell = (some true, cell)
try_acquire (some l) answered cell = let (won, cell') = set_nx l.id cell in (some won, cell')
try_acquire (some l) no_script cell = (none, cell)
try_acquire (some l) refused cell = (none, cell)
try_acquire (some l) reply_lost cell = (none, (set_nx l.id cell).1)

-- releaseScript.
unfoldable pub release_script : Text → Option Text → Option Text
release_script id none = none
release_script id (some w) = if text_eq w id then none else some w

-- Release: what the key holds after it.
unfoldable pub release : Option Lock → Transport → Option Text → Option Text
unfolding release_script
release none t cell = cell
release (some l) answered cell = release_script l.id cell
release (some l) no_script cell = cell
release (some l) refused cell = cell
release (some l) reply_lost cell = release_script l.id cell
