-- ===== src/Httpx/RateLimit.antt =====
-- internal/httpx/ratelimit.go: the fixed-window limiter. Its lock is left out: a call of `allow`
-- runs under it from its first line to its last.
pub mod Window
use viro_coolify.Base.{String, Bool, true, false, List, [], ◌∷◌, none, some, if◌then◌else◌}
use viro_coolify.Base.Int.{ℤ, pos, negsuc, leb_ℤ, ltb_ℤ, int64_half, ◌-ℤ◌, ◌+64◌}
use viro_coolify.Base.Table.{Table, lookup, insert}
use viro_coolify.Domain.Scalar.{Time}

pub record WindowBucket : Type 0 where
  pub count : ℤ
  pub window_start : Time

pub record FixedWindowLimiter : Type 0 where
  pub limit : ℤ
  pub window : ℤ
  pub buckets : Table WindowBucket

unfoldable pub new_fixed_window_limiter : ℤ → ℤ → FixedWindowLimiter
new_fixed_window_limiter limit window = record { limit = limit; window = window; buckets = [] }

-- `now.Sub(start)`, which Go cuts to the range of a Duration.
unfoldable pub elapsed : Time → Time → ℤ
unfolding ◌-ℤ◌
elapsed now start =
    if leb_ℤ (pos int64_half) d
    then pos 9223372036854775807
    else if ltb_ℤ d (negsuc 9223372036854775807)
    then negsuc 9223372036854775807
    else d
  where
    d : ℤ
    d = pos now -ℤ pos start

-- `pruneLocked`
unfoldable pub prune : ℤ → Time → List (String × WindowBucket) → List (String × WindowBucket)
prune window now [] = []
prune window now ((k, b) ∷ m) =
    let rest = prune window now m in
    if leb_ℤ window (elapsed now b.window_start) then rest else (k, b) ∷ rest

abbrev open_window : FixedWindowLimiter → String → Time → Bool × FixedWindowLimiter
open_window l key now = (
  true,
  record l {
    buckets =
        prune l.window now (insert key (record { count = pos 1; window_start = now }) l.buckets);
  },
)

unfoldable pub allow : FixedWindowLimiter → String → Time → Bool × FixedWindowLimiter
unfolding prune
allow l key now = elim (lookup key l.buckets) [
  | none ↦ open_window l key now
  | some b ↦
      if leb_ℤ l.window (elapsed now b.window_start)
      then open_window l key now
      else if leb_ℤ l.limit b.count
      then (false, l)
      else (
        true,
        record l { buckets = insert key (record b { count = b.count +64 pos 1 }) l.buckets },
      )
]
