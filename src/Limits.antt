-- ===== src/Limits.antt =====
-- Rate limits, python/oxbrook/_limits.py: the checks of `RateLimit`, the shared budget in Redis, and
-- the answer to a request over it.
--
-- The regular expressions that read the rate and the key are Python's; a limit is taken from the
-- count and the unit that `_RATE` found. Times are whole microseconds, as the script counts them.
use oxbrook.Prelude.{
  ℕ, ◌+◌, ◌-◌, ◌*◌, ◌/◌, min, max, Bool, true, false, ◌&&◌, Option, none, some, List, [], ◌∷◌, leb,
  ltb, if◌then◌else◌, Result, ok, raise, ◌>>=◌, ◌>>◌, require, value_error,
}
mod Tests
pub mod Bounds
pub mod Budget

pub data Period : Type 0 where
  second minute hour day : Period

-- `_UNITS`
abbrev pub seconds : Period → ℕ
seconds second = 1
seconds minute = 60
seconds hour = 3600
seconds day = 86400

abbrev pub max_burst : ℕ
max_burst = 100000

abbrev pub max_count : ℕ
max_count = 1000000

pub record RateLimit : Type 0 where
  pub count : ℕ
  pub period : Period
  pub burst : ℕ
  -- nanoseconds between two requests
  pub interval : ℕ

abbrev default_burst : ℕ → Option ℕ → ℕ
default_burst count none = min count max_burst
default_burst count (some burst) = burst

-- `RateLimit.__init__`, after the match of the rate.
unfoldable pub limit : ℕ → Period → Option ℕ → Result RateLimit
limit count period burst = do
  require (leb 1 count && leb count max_count) value_error
  let chosen = default_burst count burst
  require (leb 1 chosen && leb chosen max_burst) value_error
  ok (record {
    count = count;
    period = period;
    burst = chosen;
    interval = seconds period * 1000000000 / count;
  })

-- The numbers that `Shared.__init__` keeps, in microseconds.
pub record Shared : Type 0 where
  pub interval : ℕ
  pub tolerance : ℕ

unfoldable pub share : RateLimit → Shared
share r =
    let interval = max 1 (r.interval / 1000) in
    record { interval = interval; tolerance = interval * r.burst }

-- The value at the key, if it is there, and what the script answers: nothing, or a wait.
abbrev pub Spent : Type 0
Spent = Option ℕ

-- `tonumber(GET) or now`, and not before now
abbrev pub spent_at : Spent → ℕ → ℕ
spent_at none now = now
spent_at (some spent) now = if ltb spent now then now else spent

-- `_GCRA`, run at the time `now`.
unfoldable pub gcra : Shared → ℕ → Spent → Spent × Option ℕ
gcra s now spent =
    let next = spent_at spent now + s.interval in
    if ltb s.tolerance (next - now)
    then (spent, some (next - s.tolerance - now))
    else (some next, none)

-- What `Shared.take` gets from Redis.
pub data Reply : Type 0 where
  answered : Option ℕ → Reply
  failed : Reply

-- `Shared.take`: the wait, if the request is refused, and whether a failure is logged. `quiet` is
-- the time between two logged failures.
pub record Taken : Type 0 where
  pub logged : ℕ
  pub wait : Option ℕ
  pub warned : Bool

unfoldable pub take : ℕ → Reply → ℕ → ℕ → Taken
take quiet (answered wait) now logged = record { logged = logged; wait = wait; warned = false }
take quiet failed now logged =
    if leb quiet (now - logged)
    then record { logged = now; wait = none; warned = true }
    else record { logged = logged; wait = none; warned = false }

-- `refused`: the `Retry-After` of the `429`, in whole seconds, rounded up and never 0.
unfoldable pub retry_after : ℕ → ℕ
retry_after wait = max 1 ((wait + 999999) / 1000000)

-- `spend_shared`: one request of each limit in turn, up to the first that refuses; later limits are
-- not spent. Each limit has its state and its numbers.
unfoldable pub spend_shared : ℕ → List (Shared × Spent) → List (Shared × Spent) × Option ℕ
spend_shared now [] = ([], none)
spend_shared now ((s, spent) ∷ limits) =
    let (rest, answer) = spend_shared now limits in
    let (spent', wait) = gcra s now spent in
    elim wait [
      | none ↦ ((s, spent') ∷ rest, answer)
      | some w ↦ ((s, spent') ∷ limits, some (retry_after w))
    ]
