-- ===== src/Dependencies.antt =====
-- Dependency injection, python/oxbrook/_depends.py: `Depends`, `_resolve`, the exits of generators,
-- `_encodes` and `bind`, on one request.
--
-- A dependency is known by a number. What calling one gives is the environment's, and may differ from
-- call to call: a call is known by how many were made before it. The names of arguments are positions.
pub mod Untouched
pub mod Once
pub mod Outcome
pub mod Order
pub mod Depth
mod Tests
use oxbrook.Prelude.{
  ℕ, zero, suc, ◌+◌, Bool, true, false, ◌&&◌, not, Option, none, some, List, [], ◌∷◌, if◌then◌else◌,
  length,
}
use oxbrook.Prelude.Dicts.{Dict, get, put}

-- The exceptions: one of the application's, and the three of this module.
pub data Failure : Type 0 where
  raised : ℕ → Failure
  too_deep : Failure
  no_yield yielded_twice : ℕ → Failure

pub data Attempt {ℓ} (A : Type ℓ) : Type ℓ where
  gives : A → Attempt A
  raises : Failure → Attempt A

pub record Marker : Type 0 where
  pub dependency : ℕ
  pub use_cache : Bool

-- What a call comes to: an exception, before or when it is awaited; a value; a generator that yields
-- one; or a generator that returns without yielding.
pub data Produced : Type 0 where
  fails : Failure → Produced
  plain opens : ℕ → Produced
  ends : Produced

-- What a generator does when it is resumed, or an exception is raised at its yield: it returns, it
-- raises, perhaps the same exception, or it yields again and is closed, which may raise.
pub data Exit : Type 0 where
  stops : Exit
  throws : Failure → Exit
  yields : Option Failure → Exit

pub record Env : Type 0 where
  pub declared : ℕ → List Marker
  pub produce : ℕ → ℕ → List ℕ → Produced
  pub exit : ℕ → Option Failure → Exit
  pub handler : List ℕ → Attempt ℕ
  -- what encoding a response raises, if anything
  pub encode : ℕ → Option Failure
  pub is_socket : Bool

-- The cache of a request, with `_TEARDOWN`; its exit stack, of dependencies and their calls; and the
-- calls so far, newest first, and what each came to.
pub record Scope : Type 0 where
  pub cache : Dict ℕ
  pub teardown : Bool
  pub stack : List (ℕ × ℕ)
  pub calls : List ℕ
  pub made : List Produced

abbrev pub keep : Marker → ℕ → Scope → Scope
keep m v s = if m.use_cache then record s { cache = put m.dependency v s.cache } else s

abbrev pub enter : ℕ × ℕ → Scope → Scope
enter opened s = record s { teardown = true; stack = opened ∷ s.stack }

abbrev pub on_produced : Marker → ℕ → Produced → Scope → Scope × Attempt ℕ
on_produced m i (fails e) s = (s, raises e)
on_produced m i (plain v) s = (keep m v s, gives v)
on_produced m i (opens v) s = (keep m v (enter (m.dependency, i) s), gives v)
on_produced m i ends s = (s, raises (no_yield m.dependency))

abbrev pub called : Marker → Produced → Scope → Scope
called m p s = record s { calls = m.dependency ∷ s.calls; made = p ∷ s.made }

-- `fn(*args, **kwargs)`
abbrev pub invoke : Env → Marker → List ℕ → Scope → Scope × Attempt ℕ
invoke env m args s =
    let p = env.produce (length s.calls) m.dependency args in
    on_produced m (length s.calls) p (called m p s)

abbrev pub with_args : Env → Marker → Scope × Attempt (List ℕ) → Scope × Attempt ℕ
with_args env m (s, raises e) = (s, raises e)
with_args env m (s, gives args) = invoke env m args s

abbrev pub cached : Marker → Scope → Option ℕ
cached m s = if m.use_cache then get m.dependency s.cache else none

abbrev pub or_invoke : Option ℕ → Scope → Scope × Attempt ℕ → Scope × Attempt ℕ
or_invoke (some v) s r = (s, gives v)
or_invoke none s r = r

-- The values of several, in order, up to the first that raises.
abbrev pub prepend : ℕ → Scope × Attempt (List ℕ) → Scope × Attempt (List ℕ)
prepend v (s, raises e) = (s, raises e)
prepend v (s, gives vs) = (s, gives (v ∷ vs))

abbrev pub then_rest :
    Scope × Attempt ℕ → (Scope → Scope × Attempt (List ℕ)) → Scope × Attempt (List ℕ)
then_rest (s, raises e) rest = (s, raises e)
then_rest (s, gives v) rest = prepend v (rest s)

abbrev pub each :
    (Marker → Scope → Scope × Attempt ℕ) → List Marker → Scope → Scope × Attempt (List ℕ)
each f [] s = (s, gives [])
each f (m ∷ ms) s = then_rest (f m s) (each f ms)

-- `_resolve`, with the levels that are left: `depth > 20` is none.
unfoldable pub resolve : ℕ → Env → Marker → Scope → Scope × Attempt ℕ
resolve zero env m s = (s, raises too_deep)
resolve (suc n) env m s =
    or_invoke (cached m s) s (with_args env m (each (resolve n env) (env.declared m.dependency) s))

-- `_async_exit` and `_sync_exit`: the outcome after a generator was finished
abbrev pub closing : ℕ → Option Failure → Failure
closing fn none = yielded_twice fn
closing fn (some e) = e

abbrev pub finish : ℕ → Attempt ℕ → Exit → Attempt ℕ
finish fn outcome stops = outcome
finish fn outcome (throws e) = raises e
finish fn outcome (yields c) = raises (closing fn c)

abbrev pub failure : Attempt ℕ → Option Failure
failure (gives _) = none
failure (raises e) = some e

-- The exit stack is left: the calls finished, in order, and the outcome.
unfoldable pub unwind : Env → List (ℕ × ℕ) → Attempt ℕ → List ℕ × Attempt ℕ
unwind env [] outcome = ([], outcome)
unwind env ((fn, i) ∷ stack) outcome =
    let rest = unwind env stack (finish fn outcome (env.exit i (failure outcome))) in
    (i ∷ rest.0, rest.1)

-- `_encodes`
abbrev pub encodes : Env → ℕ → Attempt ℕ
encodes env v = elim (env.encode v) [ none ↦ gives v | some e ↦ raises e ]

abbrev pub checked : Env → Bool → Attempt ℕ → Attempt ℕ
checked env teardown (raises e) = raises e
checked env teardown (gives v) = if teardown && not env.is_socket then encodes env v else gives v

abbrev pub handled : Env → Scope × Attempt (List ℕ) → Attempt ℕ
handled env (s, raises e) = raises e
handled env (s, gives args) = checked env s.teardown (env.handler args)

abbrev pub start : Scope
start = record { cache = []; teardown = false; stack = []; calls = []; made = [] }

unfoldable pub resolve_all : Env → List Marker → Scope × Attempt (List ℕ)
unfolding resolve
resolve_all env deps = each (resolve 21 env) deps start

-- `bind`, on one request
unfoldable pub bind : Env → List Marker → List ℕ × Attempt ℕ
unfolding resolve_all unwind
bind env deps = let r = resolve_all env deps in unwind env r.0.stack (handled env r)
