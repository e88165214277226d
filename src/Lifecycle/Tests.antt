-- ===== src/Lifecycle/Tests.antt =====
-- A server's life at concrete values: a process lifespan, a worker that starts, one whose keys clash
-- and one whose hook fails.
use oxbrook.Prelude.{Option, none, some, List, [], ◌∷◌, codes, value_error}
use oxbrook.Lifecycle.{Hook, yields, fails, Lifecycle}

abbrev process_hook : Option Hook
process_hook = some (record { manager = 1; entry = yields (some ((codes "db", 5) ∷ [])) })

abbrev worker_hooks : List (Option Hook)
worker_hooks =
    some (record { manager = 2; entry = yields none })
    ∷ some (record { manager = 3; entry = yields (some ((codes "db", 6) ∷ [])) })
    ∷ some (record { manager = 4; entry = fails value_error })
    ∷ none
    ∷ []

abbrev new_lifecycle : Lifecycle
new_lifecycle = record { state = []; process_manager = none; loops = []; log = [] }
