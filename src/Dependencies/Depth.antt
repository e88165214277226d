-- ===== src/Dependencies/Depth.antt =====
-- The nesting limit of `_resolve`.
use oxbrook.Prelude.{
  ℕ, zero, suc, ◌≤◌, ◌<◌, List, [], ◌∷◌, length, arith, All, Option-cases, inl, inr,
}
use oxbrook.Dependencies.{
  called, too_deep, no_yield, raised, yielded_twice, Attempt, gives, raises, Marker, Produced,
  fails, plain, opens, ends, Env, Scope, on_produced, with_args, cached, prepend, then_rest, each,
  resolve, start, resolve_all,
}
use oxbrook.Dependencies.Untouched.{IsRanked, All-imp}

-- The nesting limit did not refuse.
abbrev pub IsShallow {ℓ} : {A : Type ℓ} → Attempt A → Type 0
IsShallow (gives _) = Unit
IsShallow (raises too_deep) = ⊥
IsShallow (raises _) = Unit

abbrev pub ProducesShallow : Produced → Type 0
ProducesShallow (fails e) = IsShallow {A = ℕ} (raises e)
ProducesShallow _ = Unit

IsShallow-on_produced :
    (m : Marker) (i : ℕ) (p : Produced) (s : Scope)
    → ProducesShallow p
    → IsShallow (on_produced m i p s).1
IsShallow-on_produced m i (fails e) s h = h
IsShallow-on_produced m i (plain v) s h = tt
IsShallow-on_produced m i (opens v) s h = tt
IsShallow-on_produced m i ends s h = tt

IsShallow-with_args :
    (env : Env) (m : Marker) (r : Scope × Attempt (List ℕ))
    → ((i fn : ℕ) (args : List ℕ) → ProducesShallow (env.produce i fn args))
    → IsShallow r.1
    → IsShallow (with_args env m r).1
IsShallow-with_args env m (s, raises too_deep) p h = h
IsShallow-with_args env m (s, raises (raised _)) p h = tt
IsShallow-with_args env m (s, raises (no_yield _)) p h = tt
IsShallow-with_args env m (s, raises (yielded_twice _)) p h = tt
IsShallow-with_args env m (s, gives args) p h =
    IsShallow-on_produced m (length s.calls) (env.produce (length s.calls) m.dependency args)
      (called m (env.produce (length s.calls) m.dependency args) s)
      (p (length s.calls) m.dependency args)

IsShallow-prepend :
    (v : ℕ) (r : Scope × Attempt (List ℕ)) → IsShallow r.1 → IsShallow (prepend v r).1
IsShallow-prepend v (s, raises too_deep) h = h
IsShallow-prepend v (s, raises (raised _)) h = tt
IsShallow-prepend v (s, raises (no_yield _)) h = tt
IsShallow-prepend v (s, raises (yielded_twice _)) h = tt
IsShallow-prepend v (s, gives vs) h = tt

IsShallow-then_rest :
    (r : Scope × Attempt ℕ) (rest : Scope → Scope × Attempt (List ℕ))
    → IsShallow r.1
    → ((s : Scope) → IsShallow (rest s).1)
    → IsShallow (then_rest r rest).1
IsShallow-then_rest (s, raises too_deep) rest h k = h
IsShallow-then_rest (s, raises (raised _)) rest h k = tt
IsShallow-then_rest (s, raises (no_yield _)) rest h k = tt
IsShallow-then_rest (s, raises (yielded_twice _)) rest h k = tt
IsShallow-then_rest (s, gives v) rest h k = IsShallow-prepend v (rest s) (k s)

IsShallow-each :
    (go : Marker → Scope → Scope × Attempt ℕ) (ms : List Marker)
    → (s : Scope) → All (λ m. (t : Scope) → IsShallow (go m t).1) ms
    → IsShallow (each go ms s).1
IsShallow-each go [] s h = tt
IsShallow-each go (m ∷ ms) s (k, h) =
    IsShallow-then_rest (go m s) (each go ms) (k s) (λ t. IsShallow-each go ms t h)

IsShallow-resolve :
    (env : Env) (rank : ℕ → ℕ)
    → IsRanked env rank
    → ((i fn : ℕ) (args : List ℕ) → ProducesShallow (env.produce i fn args))
    → (n : ℕ) (m : Marker) (s : Scope) → rank m.dependency < n
    → IsShallow (resolve n env m s).1
unfolding resolve
IsShallow-resolve env rank ranked p zero m s l = absurd (omega arith)
IsShallow-resolve env rank ranked p (suc n) m s l = elim (Option-cases (cached m s)) [
  | inr (v, e) ↦ rw e tt
  | inl e ↦ rw e (
      IsShallow-with_args env m (each (resolve n env) (env.declared m.dependency) s) p (
        IsShallow-each (resolve n env) (env.declared m.dependency) s (
          All-imp (λ k. rank k.dependency < rank m.dependency)
            (λ k. (t : Scope) → IsShallow (resolve n env k t).1) (env.declared m.dependency)
            (λ k b t. IsShallow-resolve env rank ranked p n k t (omega arith))
            (ranked m.dependency))))
]

-- The nesting limit refuses no dependencies that are nested at most 21 deep, where a rank of at most
-- 20 bounds the nesting below each and no dependency raises that error itself.
pub resolve_all-IsShallow :
    (env : Env) (deps : List Marker) (rank : ℕ → ℕ)
    → IsRanked env rank
    → All (λ m. rank m.dependency ≤ 20) deps
    → ((i fn : ℕ) (args : List ℕ) → ProducesShallow (env.produce i fn args))
    → IsShallow (resolve_all env deps).1
unfolding resolve_all
resolve_all-IsShallow env deps rank ranked low p = IsShallow-each (resolve 21 env) deps start (
    All-imp (λ m. rank m.dependency ≤ 20) (λ m. (t : Scope) → IsShallow (resolve 21 env m t).1) deps
      (λ m b t. IsShallow-resolve env rank ranked p 21 m t (omega arith)) low)
