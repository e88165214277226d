-- ===== src/Limits/Bounds.antt =====
-- The numbers that `RateLimit` (python/oxbrook/_limits.py) hands to the server.
use oxbrook.Prelude.{ℕ, ◌*◌, ◌/◌, ◌≤◌, ◌<◌, ◌≡◌, Option, ok, arith}
use native.Mathlib.Nat.{le_trans}
use oxbrook.Limits.{
  Period, second, minute, hour, day, RateLimit, limit, seconds, max_burst, max_count,
}

interval_range :
    (total count : ℕ)
    → 1 ≤ count
    → count ≤ 1000000
    → 1000000000 ≤ total
    → (1000 ≤ total / count) × (total / count ≤ total)
interval_range total count a b c = grind arith

product_bound :
    (interval burst : ℕ)
    → interval ≤ 86400000000000
    → burst ≤ 100000
    → interval * burst < 18446744073709551616
product_bound interval burst a b = grind arith

nanos :
    (p : Period) → (1000000000 ≤ seconds p * 1000000000) × (seconds p * 1000000000 ≤ 86400000000000)
nanos second = (omega arith, omega arith)
nanos minute = (omega arith, omega arith)
nanos hour = (omega arith, omega arith)
nanos day = (omega arith, omega arith)

limit-ok :
    (count : ℕ) (period : Period) (burst : Option ℕ) (r : RateLimit)
    → limit count period burst ≡ ok r
    → (r.interval ≡ seconds period * 1000000000 / count)
      × (1 ≤ r.burst)
      × (r.burst ≤ max_burst)
      × (1 ≤ count)
      × (count ≤ max_count)
unfolding limit
limit-ok count period burst r h = ground arith

-- An accepted limit has a burst from 1 to 100,000 and an interval of at least a microsecond, and a
-- full burst of intervals fits in 64 bits of nanoseconds.
pub limit_bounds :
    (count : ℕ) (period : Period) (burst : Option ℕ) {r : RateLimit}
    → limit count period burst ≡ ok r
    → (1 ≤ r.burst)
      × (r.burst ≤ max_burst)
      × (1000 ≤ r.interval)
      × (r.interval * r.burst < 18446744073709551616)
unfolding limit
limit_bounds count period burst {r} h =
    let (same, low, high, some_count, at_most) = limit-ok count period burst r h in
    let (least, most) =
      interval_range (seconds period * 1000000000) count some_count at_most (nanos period).0 in
    (
      low,
      high,
      rw same least,
      rw same (
          product_bound (seconds period * 1000000000 / count) r.burst
            (le_trans most (nanos period).1) high),
    )
