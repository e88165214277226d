-- ===== src/Lifecycle.antt =====
-- Lifespans, python/oxbrook/_lifecycle.py: `Lifecycle` and the order in which a server runs it.
--
-- The user's hooks and their context managers are not of this code: a hook is the number of the
-- manager that it makes and what entering it gives. `log` records the managers entered and left. An
-- exit that raises leaves its manager too, and what it raises is an outcome; the exit after a clash
-- of keys raises nothing here. What `stop_process` closes besides, and the tails that `stop_worker`
-- stops, are of other parts.
use oxbrook.Prelude.{
  ℕ, Bool, true, false, ◌||◌, Option, none, some, List, [], ◌∷◌, ◌++◌, if◌then◌else◌, Error, Result,
  ok, raise, type_error, value_error, Text, text_eq,
}
mod Tests
pub mod Balance

pub data Event : Type 0 where
  entered left : ℕ → Event

abbrev pub State : Type 0
State = List (Text × ℕ)

-- What `await manager.__aenter__()` gives.
pub data Entry : Type 0 where
  fails : Error → Entry
  yields : Option State → Entry
  yields_other : Entry

pub record Hook : Type 0 where
  pub manager : ℕ
  pub entry : Entry

pub record Context : Type 0 where
  pub state : State
  pub manager : Option ℕ

pub record Lifecycle : Type 0 where
  pub state : State
  pub process_manager : Option ℕ
  pub loops : List Context
  pub log : List Event

-- `_as_mapping`
abbrev pub as_mapping : Entry → Result State
as_mapping (fails e) = raise e
as_mapping yields_other = raise type_error
as_mapping (yields none) = ok []
as_mapping (yields (some values)) = ok values

-- Entering, which is over before `_as_mapping` looks at the value.
abbrev pub enter : Hook → List Event → List Event
enter h log = elim h.entry [ fails _ ↦ log | _ ↦ log ++ entered h.manager ∷ [] ]

-- `__aexit__` of the manager, if there is one
abbrev pub leave : Option ℕ → List Event → List Event
leave none log = log
leave (some m) log = log ++ left m ∷ []

abbrev started_process : Hook → Result State → Lifecycle → Lifecycle × Result (Unit {0})
started_process h (raise e) l = (l, raise e)
started_process h (ok values) l =
    (record l { process_manager = some h.manager; state = values }, ok tt)

unfoldable pub start_process : Option Hook → Lifecycle → Lifecycle × Result (Unit {0})
start_process none l = (record l { state = [] }, ok tt)
start_process (some h) l = started_process h (as_mapping h.entry) (record l { log = enter h l.log })

-- `exit` is what the manager's exit raises, if it does.
abbrev pub exited : Option ℕ → Option Error → Result (Unit {0})
exited (some _) (some e) = raise e
exited _ _ = ok tt

unfoldable pub stop_process : Option Error → Lifecycle → Lifecycle × Result (Unit {0})
stop_process exit l = (
  record l { process_manager = none; state = []; log = leave l.process_manager l.log },
  exited l.process_manager exit,
)

abbrev pub has_key : Text → State → Bool
has_key key [] = false
has_key key ((k, _) ∷ s) = text_eq k key || has_key key s

abbrev pub clashes : State → State → Bool
clashes [] base = false
clashes ((k, _) ∷ values) base = has_key k base || clashes values base

-- `{**base, **values}`, whose keys differ here
abbrev pub serving : Context → Lifecycle → Lifecycle × Result Context
serving c l = (record l { loops = l.loops ++ c ∷ [] }, ok c)

abbrev started_worker : Hook → Result State → Lifecycle → Lifecycle × Result Context
started_worker h (raise e) l = (l, raise e)
started_worker h (ok values) l =
    if clashes values l.state
    then (record l { log = leave (some h.manager) l.log }, raise value_error)
    else serving (record { state = l.state ++ values; manager = some h.manager }) l

unfoldable pub start_worker : Option Hook → Lifecycle → Lifecycle × Result Context
start_worker none l = serving (record { state = l.state; manager = none }) l
start_worker (some h) l = started_worker h (as_mapping h.entry) (record l { log = enter h l.log })

unfoldable pub stop_worker : Option Error → Context → Lifecycle → Lifecycle × Result (Unit {0})
stop_worker exit c l = (record l { log = leave c.manager l.log }, exited c.manager exit)

-- `ServerHandle.serve`, around the server's own run, which starts and stops the workers.
abbrev pub after_start :
    (Lifecycle → Lifecycle) → Option Error → Lifecycle × Result (Unit {0}) → Lifecycle
after_start core exit (l, raise e) = l
after_start core exit (l, ok _) = (stop_process exit (core l)).0

unfoldable pub serve : (Lifecycle → Lifecycle) → Option Hook → Option Error → Lifecycle → Lifecycle
unfolding start_process stop_process
serve core hook exit l = after_start core exit (start_process hook l)
