-- ===== src/Redis.antt =====
-- What the program relies on of Redis and its client, as a parameter: the commands that its scripts
-- and handlers call, with their documented effect on counters and on string keys. A call may fail
-- on the way, in each of the ways that a caller can tell or not tell apart.
use openadsource.Common.{ℕ, suc, ◌-◌, ◌<◌, ◌≡◌, ◌≢◌, Bool, true, false, Option, none, some, Text}
use openadsource.Common.Int.{ℤ, pos, ◌≤ℤ◌, ◌<ℤ◌}

-- The largest counter, 2 ^ 63 - 1.
abbrev pub max_counter : ℕ
max_counter = 9223372036854775807

-- A value as the client reads it: no key, an int64, or a text that is no number.
pub data Got : Type 0 where
  absent : Got
  number : ℤ → Got
  garbled : Got

-- What a reply counts: an absent key is zero.
abbrev pub got_value : Got → Option ℤ
got_value absent = some (pos 0)
got_value (number n) = some n
got_value garbled = none

pub record Redis : Type 1 where
  pub Db : Type 0
  -- A key read as a counter: 0 if it is absent, `none` if it is no natural number.
  pub count : Db → Text → Option ℕ
  -- A key read as a string; `none` if it is absent.
  pub held : Db → Text → Option Text
  -- PTTL: the milliseconds until a key expires; `none` if it is absent or does not expire.
  pub ttl : Db → Text → Option ℕ
  -- Some milliseconds pass.
  pub pass : ℕ → Db → Db
  -- INCR and DECR: the new value, or an error reply.
  pub incr : Text → Db → Option ℤ × Db
  pub decr : Text → Db → Option ℤ × Db
  -- GET, and GETDEL, which deletes what it reads.
  pub fetch : Text → Db → Got
  pub get_del : Text → Db → Got × Db
  -- EXPIRE, with seconds.
  pub expire : Text → ℤ → Db → Db
  -- SET key value NX, with an expiry in milliseconds: whether the key was free.
  pub set_nx : Text → Text → ℕ → Db → Bool × Db
  pub incr-reply :
      (k : Text) (db : Db) (n : ℕ)
      → count db k ≡ some n
      → n < max_counter
      → (incr k db).0 ≡ some (pos (suc n))
  pub count-incr :
      (k : Text) (db : Db) (n : ℕ)
      → count db k ≡ some n
      → n < max_counter
      → count (incr k db).1 k ≡ some (suc n)
  pub count-incr_other : (k j : Text) (db : Db) → k ≢ j → count (incr k db).1 j ≡ count db j
  -- INCR leaves the expiry of a key as it is.
  pub ttl-incr : (k j : Text) (db : Db) → ttl (incr k db).1 j ≡ ttl db j
  pub held-incr_other : (k j : Text) (db : Db) → k ≢ j → held (incr k db).1 j ≡ held db j
  pub decr-reply :
      (k : Text) (db : Db) (n : ℕ) → count db k ≡ some (suc n) → (decr k db).0 ≡ some (pos n)
  pub count-decr :
      (k : Text) (db : Db) (n : ℕ) → count db k ≡ some (suc n) → count (decr k db).1 k ≡ some n
  pub count-decr_other : (k j : Text) (db : Db) → k ≢ j → count (decr k db).1 j ≡ count db j
  -- A positive expiry keeps the value for now; one that is not positive deletes the key.
  pub count-expire :
      (k j : Text) (t : ℤ) (db : Db) → pos 0 <ℤ t → count (expire k t db) j ≡ count db j
  pub count-expire_now :
      (k : Text) (t : ℤ) (db : Db) → t ≤ℤ pos 0 → count (expire k t db) k ≡ some 0
  pub count-expire_other :
      (k j : Text) (t : ℤ) (db : Db) → k ≢ j → count (expire k t db) j ≡ count db j
  pub fetch-count :
      (k : Text) (db : Db) (n : ℕ) → count db k ≡ some n → got_value (fetch k db) ≡ some (pos n)
  pub get_del-reply :
      (k : Text) (db : Db) (n : ℕ) → count db k ≡ some n → got_value (get_del k db).0 ≡ some (pos n)
  pub count-get_del :
      (k : Text) (db : Db) (n : ℕ) → count db k ≡ some n → count (get_del k db).1 k ≡ some 0
  pub count-get_del_other : (k j : Text) (db : Db) → k ≢ j → count (get_del k db).1 j ≡ count db j
  pub set_nx-free :
      (k v : Text) (t : ℕ) (db : Db)
      → 0 < t
      → held db k ≡ none
      → ((set_nx k v t db).0 ≡ true)
        × (held (set_nx k v t db).1 k ≡ some v)
        × (ttl (set_nx k v t db).1 k ≡ some t)
  pub set_nx-taken :
      (k v : Text) (t : ℕ) (db : Db) {w : Text} → held db k ≡ some w → set_nx k v t db ≡ (false, db)
  pub count-set_nx_other :
      (k j v : Text) (t : ℕ) (db : Db) → k ≢ j → count (set_nx k v t db).1 j ≡ count db j
  pub ttl-set_nx_other :
      (k j v : Text) (t : ℕ) (db : Db) → k ≢ j → ttl (set_nx k v t db).1 j ≡ ttl db j
  -- A key stands until its time is over, and one without an expiry stays.
  pub held-pass :
      (k : Text) (d r : ℕ) (db : Db) {w : Text}
      → held db k ≡ some w
      → ttl db k ≡ some r
      → d < r
      → (held (pass d db) k ≡ some w) × (ttl (pass d db) k ≡ some (r - d))
  pub count-pass :
      (k : Text) (d : ℕ) (db : Db)
      → ttl db k ≡ none
      → (count (pass d db) k ≡ count db k) × (ttl (pass d db) k ≡ none)

-- What becomes of a call: it runs and is answered; the server does not know the script; it is lost
-- before it runs; or it runs and the answer is lost.
pub data Transport : Type 0 where
  answered no_script refused reply_lost : Transport

-- What the caller gets: an integer, an error that begins with NOSCRIPT, or another error.
pub data Reply : Type 0 where
  value : ℤ → Reply
  no_script_error other_error : Reply

module _ (redis : Redis) where
  open redis use {Db}

  abbrev pub Script : Type 0
  Script = Db → Option ℤ × Db

  -- A script that ends in an error reply.
  abbrev pub reply_of : Option ℤ → Reply
  reply_of none = other_error
  reply_of (some n) = value n

  abbrev pub eval : Transport → Script → Db → Reply × Db
  eval answered script db = let (r, db') = script db in (reply_of r, db')
  eval no_script script db = (no_script_error, db)
  eval refused script db = (other_error, db)
  eval reply_lost script db = (other_error, (script db).1)
