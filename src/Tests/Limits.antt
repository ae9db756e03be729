-- ===== src/Tests/Limits.antt =====
-- The limiter with a bucket that always has a token.
use openadsource.Limit.Size.{has}
use openadsource.Common.{refl, true, [], ◌∷◌, ℕ, codes, length, ltb, ◌≤◌, if◌then◌else◌, ◌&&◌, suc}
use openadsource.Common.Int.{pos, leb_ℤ, ◌-ℤ◌}
use openadsource.Limit.{Bucket, Limiter, allow}
use openadsource.Limit.Size.{Counted, run_all, asked, swept, run_all-Counted}
use openadsource.Limit.Full.{any_idle, allow-size}

abbrev open_bucket : Bucket
open_bucket = record {
  Rate = ℕ;
  positive = λ r. ltb 0 r;
  B = ℕ;
  full = λ r burst. r;
  take = λ b now. (true, b);
}

-- One visitor is known and may stay.
abbrev small : Limiter open_bucket
small = record {
  rate = 5;
  burst = pos 2;
  bound = pos 1;
  bag = (codes "x", record { limiter = 5; last_seen = pos 10 }) ∷ [];
  approx_size = pos 1;
}

run_all-Counted_example :
    Counted open_bucket
      (run_all open_bucket (asked (codes "y") (pos 100) ∷ swept (pos 2000) ∷ []) small)
unfolding has
run_all-Counted_example =
    run_all-Counted open_bucket (asked (codes "y") (pos 100) ∷ swept (pos 2000) ∷ []) small
      (refl, (refl, tt))

allow-size_example : length (allow open_bucket (codes "y") (pos 100) small).1.bag ≤ (
    if leb_ℤ small.bound small.approx_size && any_idle open_bucket (pos 100 -ℤ pos 60) small.bag
    then length small.bag
    else suc (length small.bag))
allow-size_example = allow-size open_bucket (codes "y") (pos 100) small
