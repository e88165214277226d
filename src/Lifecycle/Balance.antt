-- ===== src/Lifecycle/Balance.antt =====
-- Every context manager that a lifespan enters is left, once.
use oxbrook.Prelude.{
  ◌||◌, ltb, length, ℕ, suc, ◌+◌, ◌≡◌, Bool, true, false, Option, none, some, List, [], ◌∷◌, ◌++◌,
  ◌==◌, if◌then◌else◌, Result, ok, raise, arith, Text,
}
use oxbrook.Lifecycle.{
  Event, entered, left, yields, yields_other, Hook, Context, Lifecycle, start_worker, stop_worker,
  enter,
}

abbrev is_event : Bool → ℕ → Event → Bool
is_event true m (entered k) = k == m
is_event false m (left k) = k == m
is_event _ m _ = false

-- How often the log enters, or leaves, a manager.
abbrev pub count : Bool → ℕ → List Event → ℕ
count b m [] = 0
count b m (e ∷ log) = if is_event b m e then suc (count b m log) else count b m log

count-snoc :
    (b : Bool) (m : ℕ) (log : List Event) (e : Event)
    → count b m (log ++ e ∷ []) ≡ count b m log + (if is_event b m e then 1 else 0)
count-snoc b m [] e = ground arith
count-snoc b m (d ∷ log) e = ground (arith, count-snoc b m log e)

abbrev holds : ℕ → Option ℕ → ℕ
holds m none = 0
holds m (some k) = if k == m then 1 else 0

-- What is entered is left, or is held.
abbrev Balanced : ℕ → ℕ → List Event → Type 0
Balanced m held log = count true m log ≡ count false m log + held

-- A hook that yields a mapping or nothing, or fails before it yields.
abbrev pub Proper : Option Hook → Type 0
Proper none = Unit
Proper (some h) = elim h.entry [ yields_other ↦ ⊥ | _ ↦ Unit ]

enter-Balanced :
    (m held : ℕ) (h : Hook) (v : Option (List (Text × ℕ))) (log : List Event)
    → h.entry ≡ yields v
    → Balanced m held log
    → Balanced m (held + holds m (some h.manager)) (enter h log)
enter-Balanced m held h v log e b =
    ground
      (arith, count-snoc true m log (entered h.manager), count-snoc false m log (entered h.manager))

abbrev held_by : ℕ → Result Context → ℕ
held_by m (ok c) = holds m c.manager
held_by m (raise _) = 0

-- The workers of a run: all start, those that fail aside, and the started ones stop.
abbrev start_next :
    Lifecycle × Result Context → (Lifecycle → Lifecycle × List Context) → Lifecycle × List Context
start_next (l, raise e) next = next l
start_next (l, ok c) next = let (l', cs) = next l in (l', c ∷ cs)

unfoldable pub start_all : List (Option Hook) → Lifecycle → Lifecycle × List Context
start_all [] l = (l, [])
start_all (h ∷ hs) l = start_next (start_worker h l) (start_all hs)

unfoldable pub stop_all : List Context → Lifecycle → Lifecycle
stop_all [] l = l
stop_all (c ∷ cs) l = stop_all cs (stop_worker none c l).0

held_all : ℕ → List Context → ℕ
held_all m [] = 0
held_all m (c ∷ cs) = holds m c.manager + held_all m cs

-- The workers' run of a server: all are started, and stopped at its end, or at once if one failed to
-- start. The server's addresses are read in between, and one that cannot be read ends the run there:
-- the workers are not stopped. A worker that is stopped leaves its lifespan within the grace.
unfoldable pub workers : Bool → List (Option Hook) → Lifecycle → Lifecycle
workers listens hooks l =
    let (l', cs) = start_all hooks l in
    let stopped = stop_all cs l' in
    if listens || ltb (length cs) (length hooks) then stopped else l'
