-- ===== src/Health.antt =====
-- Health probes, python/oxbrook/_health.py: the checks of `Health.__init__`, the registration of
-- checks, and the verdict of `evaluate`.
--
-- A check is a number, and a worker loop too. How one check ends on one loop, within the time that
-- all have, is asyncio's, and a parameter. Seconds are in a unit in which they are whole.
use oxbrook.Prelude.{
  ℕ, Bool, true, false, ◌&&◌, not, Option, none, some, List, [], ◌∷◌, ◌++◌, map, ltb, if◌then◌else◌,
  Result, ok, raise, ◌>>=◌, ◌>>◌, require, type_error, value_error, Text, text_eq, starts_with,
  codes,
}
mod Tests
pub mod Readiness

pub record Health : Type 0 where
  pub live : Option Text
  pub ready : Option Text
  pub stall_after : ℕ
  pub timeout : ℕ
  pub drain_delay : ℕ
  pub checks : List (Text × ℕ)

-- `_path`
unfoldable pub check_path : Option Text → Result (Option Text)
check_path none = ok none
check_path (some path) = do require (starts_with (codes "/") path) value_error; ok (some path)

abbrev same_path : Option Text → Option Text → Bool
same_path none _ = false
same_path (some p) none = false
same_path (some p) (some q) = text_eq p q

unfoldable pub create : Option Text → Option Text → ℕ → ℕ → ℕ → Result Health
unfolding check_path
create live ready stall_after timeout drain_delay = do
  live' ← check_path live
  ready' ← check_path ready
  require (not (same_path live ready)) value_error
  require (ltb 0 stall_after) value_error
  require (ltb 0 timeout) value_error
  ok (record {
    live = live';
    ready = ready';
    stall_after = stall_after;
    timeout = timeout;
    drain_delay = drain_delay;
    checks = [];
  })

abbrev pub has_label : Text → List (Text × ℕ) → Bool
has_label label [] = false
has_label label ((l, _) ∷ checks) = if text_eq l label then true else has_label label checks

-- `name or fn.__name__`
abbrev label_of : Option Text → Text → Text
label_of none own = own
label_of (some []) own = own
label_of (some (c ∷ name)) own = c ∷ name

unfoldable pub check : Bool → Option Text → Text → ℕ → Health → Result Health
check is_async name own fn h = do
  require is_async type_error
  require (not (has_label (label_of name own) h.checks)) value_error
  ok (record h { checks = h.checks ++ (label_of name own, fn) ∷ [] })

-- How a check ended: it returned other than `False`, or returned `False` or raised, or was pending
-- when the time was over.
pub data Ended : Type 0 where
  passed refused pending : Ended

pub data Verdict : Type 0 where
  fine failed timed_out : Verdict

-- `jobs`: every check on every loop.
abbrev pub on_loop : (ℕ → ℕ → Ended) → ℕ → List (Text × ℕ) → List (Text × Ended)
on_loop run loop [] = []
on_loop run loop ((label, fn) ∷ checks) = (label, run loop fn) ∷ on_loop run loop checks

unfoldable pub jobs : (ℕ → ℕ → Ended) → List ℕ → List (Text × ℕ) → List (Text × Ended)
jobs run [] checks = []
jobs run (loop ∷ loops) checks = on_loop run loop checks ++ jobs run loops checks

-- What one ended job makes of the result of its label.
abbrev pub judge : Ended → Verdict → Verdict
judge pending v = timed_out
judge refused fine = failed
judge refused v = v
judge passed v = v

abbrev pub mark : Text → Ended → List (Text × Verdict) → List (Text × Verdict)
mark label e [] = []
mark label e ((l, v) ∷ rs) =
    if text_eq l label then (l, judge e v) ∷ rs else (l, v) ∷ mark label e rs

unfoldable pub judged : List (Text × Ended) → List (Text × Verdict) → List (Text × Verdict)
judged [] rs = rs
judged ((label, e) ∷ js) rs = judged js (mark label e rs)

-- `dict.fromkeys(self.checks, "ok")`
abbrev pub all_fine : List (Text × ℕ) → List (Text × Verdict)
all_fine [] = []
all_fine ((label, _) ∷ checks) = (label, fine) ∷ all_fine checks

abbrev pub is_fine : Verdict → Bool
is_fine fine = true
is_fine _ = false

abbrev pub are_fine : List (Text × Verdict) → Bool
are_fine [] = true
are_fine ((_, v) ∷ rs) = is_fine v && are_fine rs

abbrev pub is_some_loop : List ℕ → Bool
is_some_loop [] = false
is_some_loop (_ ∷ _) = true

-- `evaluate`: whether it answers 200, and the results in its body.
unfoldable pub evaluate : (ℕ → ℕ → Ended) → List ℕ → Health → Bool × List (Text × Verdict)
unfolding jobs judged
evaluate run loops h =
    let results = judged (jobs run loops h.checks) (all_fine h.checks) in
    (is_some_loop loops && are_fine results, results)
