-- ===== src/Limits/Tests.antt =====
-- Limits at concrete values: ten a second, and a shared budget of three at once.
use oxbrook.Prelude.{◌+◌, ◌-◌, ◌*◌, ◌≤◌, ◌≡◌, ◌≢◌, refl, none, some, [], ◌∷◌, arith}
use oxbrook.Limits.{RateLimit, Shared, second, gcra}
use oxbrook.Limits.Budget.{gcra-wait, passed, passed_bound}

abbrev ten_a_second : RateLimit
ten_a_second = record { count = 10; period = second; burst = 3; interval = 100000000 }

abbrev shared : Shared
shared = record { interval = 100000; tolerance = 300000 }

gcra-wait_example :
    ((gcra shared 0 (some 300000)).0 ≡ some 300000)
    × ((gcra shared (0 + 100000) (some 300000)).1 ≡ none)
    × ((gcra shared (0 + 99999) (some 300000)).1 ≢ none)
unfolding gcra
gcra-wait_example = gcra-wait shared 0 (some 300000) 100000 99999 (omega arith) refl (omega arith)

passed_bound_example : (passed shared (5 ∷ 7 ∷ 6 ∷ 9 ∷ []) none).1 * 100000 ≤ (10 - 5) + 300000
passed_bound_example = passed_bound shared 5 10 (5 ∷ 7 ∷ 6 ∷ 9 ∷ []) none (omega arith) (
  (omega arith),
  (omega arith),
  (
    (omega arith),
    (omega arith),
    ((omega arith), (omega arith), ((omega arith), (omega arith), tt)),
  ),
)
