-- ===== src/Mcp/Tests.antt =====
-- Sessions at concrete values.
use oxbrook.Prelude.{ℕ, ◌≡◌, refl, true, false, List, [], ◌∷◌, is_some, arith, codes}
use oxbrook.Mcp.Feed.{Feed, open_feed, take}
use oxbrook.Mcp.Pumping.{pump_all, take-pump_all}
use oxbrook.Mcp.Session.{open_session}
use oxbrook.Mcp.Registry.{Sessions, get}
use oxbrook.Mcp.Calls.{Call, do_create, do_get, do_drop, do_sweep, do_act, do_follow, run}
use oxbrook.Mcp.Bounded.{IsBounded, run-IsBounded}
use oxbrook.Mcp.Kept.{get-run}

abbrev feed : Feed ℕ
feed = open_feed 2

take-pump_all_example :
    ((take (pump_all (1 ∷ 2 ∷ 3 ∷ []) (take feed).1).0).0 ≡ 2 ∷ 3 ∷ [])
    × ((pump_all (1 ∷ 2 ∷ 3 ∷ []) (take feed).1).1 ≡ true ∷ false ∷ false ∷ [])
unfolding open_feed
take-pump_all_example = take-pump_all 1 (2 ∷ 3 ∷ []) feed

abbrev registry : Sessions ℕ
registry = record { by_id = open_session (codes "a") (codes "v") 100 ∷ []; idle = 10; limit = 2 }

-- Other clients come and go, and look for each other.
abbrev calls : List (ℕ × Call ℕ)
calls =
    (101, do_create (codes "b") (codes "v"))
    ∷ (103, do_create (codes "c") (codes "v"))
    ∷ (105, do_get (codes "b"))
    ∷ (106, do_drop (codes "b"))
    ∷ (109, do_sweep)
    ∷ (110, do_act (codes "a") (do_follow (codes "t")))
    ∷ []

run-IsBounded_example : IsBounded (run calls registry)
run-IsBounded_example = run-IsBounded calls registry ((refl, tt), omega arith)

get-run_example : is_some (get (codes "a") 110 (run calls registry)).1 ≡ true
unfolding open_session
get-run_example =
    get-run 10 100 110 (codes "a") calls registry (λ e. cc) (omega arith)
      (
        (omega arith, omega arith, tt),
        (
          (omega arith, omega arith, tt),
          (
            (omega arith, omega arith, tt),
            (
              (omega arith, omega arith, refl),
              ((omega arith, omega arith, tt), ((omega arith, omega arith, tt), tt)),
            ),
          ),
        ),
      )
      (refl, (open_session (codes "a") (codes "v") 100, refl, omega arith))
