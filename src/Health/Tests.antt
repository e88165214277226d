-- ===== src/Health/Tests.antt =====
-- The probe at concrete values: two checks on two loops, where one loop's database is stuck.
use oxbrook.Prelude.{ℕ, zero, suc, ◌≡◌, refl, ◌&&◌, some, [], ◌∷◌, codes}
use oxbrook.Health.{Health, Ended, passed, pending, is_some_loop, evaluate}
use oxbrook.Health.Readiness.{
  every_passed, evaluate-all_passed, result_of, worst_of, evaluate-worst,
}

abbrev probes : Health
probes = record {
  live = some (codes "/livez");
  ready = some (codes "/readyz");
  stall_after = 10;
  timeout = 1;
  drain_delay = 0;
  checks = (codes "db", 0) ∷ (codes "mq", 1) ∷ [];
}

abbrev stuck : ℕ → ℕ → Ended
stuck zero fn = passed
stuck (suc loop) zero = pending
stuck (suc loop) (suc fn) = passed

evaluate-all_passed_example :
    (evaluate stuck (0 ∷ 1 ∷ []) probes).0
    ≡ (is_some_loop (0 ∷ 1 ∷ []) && every_passed stuck (0 ∷ 1 ∷ []) probes.checks)
evaluate-all_passed_example = evaluate-all_passed stuck (0 ∷ 1 ∷ []) probes

evaluate-worst_example :
    result_of (codes "db") (evaluate stuck (0 ∷ 1 ∷ []) probes).1
    ≡ worst_of stuck (0 ∷ 1 ∷ []) (codes "db") probes.checks
evaluate-worst_example = evaluate-worst stuck (0 ∷ 1 ∷ []) probes (codes "db") refl
