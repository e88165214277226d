-- ===== src/Dependencies/Once.antt =====
-- How often `_resolve` calls a dependency.
use oxbrook.Prelude.{
  ℕ, zero, suc, ◌≤◌, ◌≡◌, refl, subst, true, false, none, is_some, List, [], ◌∷◌, ◌==◌, ==_iff,
  if◌then◌else◌, length, arith, All, Bool-cases, Option-cases, inl, inr,
}
use oxbrook.Prelude.Dicts.{get, get-put_same}
use oxbrook.Dependencies.{
  called, Attempt, gives, raises, Marker, Produced, fails, plain, opens, ends, Env, Scope,
  on_produced, invoke, with_args, cached, prepend, then_rest, each, resolve, start, resolve_all,
}
use oxbrook.Dependencies.Untouched.{
  count, IsRanked, IsSame, IsSame-invoke, IsSame-each, IsSame-resolve, Under,
}

-- Every marker for `f` shares its value.
abbrev pub Shares : ℕ → Marker → Type 0
Shares f m = m.dependency ≡ f → m.use_cache ≡ true

abbrev held : ℕ → Scope → ℕ
held f s = if is_some (get f s.cache) then 1 else 0

-- `f` was called as often as the cache holds it: while resolving goes on, and at most once when it
-- has failed.
abbrev Called {ℓ} : {A : Type ℓ} → ℕ → Scope × Attempt A → Type 0
Called f (s, gives _) = count f s.calls ≤ held f s
Called f (s, raises _) = count f s.calls ≤ 1

Called-IsSame :
    (f : ℕ) (s : Scope) (t : Scope × Attempt ℕ)
    → count f s.calls ≤ held f s
    → IsSame f s t.0
    → Called f t
Called-IsSame f s (t, gives _) h k = rw (k.calls_same, k.cache_same) h
Called-IsSame f s (t, raises _) h k = rw k.calls_same (ground (arith, h))

-- The call of `f` itself, where it has not been called.
Called-on_produced :
    (f : ℕ) (m : Marker) (i : ℕ) (p : Produced) (s : Scope)
    → m.dependency ≡ f
    → m.use_cache ≡ true
    → count f s.calls ≤ 1
    → Called f (on_produced m i p s)
Called-on_produced f m i (fails e) s d u h = h
Called-on_produced f m i (plain v) s d u h = rw (u, d, get-put_same f v s.cache) h
Called-on_produced f m i (opens v) s d u h = rw (u, d, get-put_same f v s.cache) h
Called-on_produced f m i ends s d u h = h

Called-with_args :
    (env : Env) (f : ℕ) (m : Marker) (s : Scope) (r : Scope × Attempt (List ℕ))
    → m.dependency ≡ f
    → m.use_cache ≡ true
    → count f s.calls ≤ 0
    → IsSame f s r.0
    → Called f (with_args env m r)
Called-with_args env f m s (t, raises e) d u h k = rw k.calls_same (omega (arith, h))
Called-with_args env f m s (t, gives args) d u h k =
    Called-on_produced f m (length t.calls) (env.produce (length t.calls) m.dependency args)
      (called m (env.produce (length t.calls) m.dependency args) t) d u
      (ground (arith, d, h, k.calls_same))

Called-other :
    (env : Env) (f : ℕ) (m : Marker) (r : Scope × Attempt (List ℕ))
    → (m.dependency == f) ≡ false
    → Called f r
    → Called f (with_args env m r)
Called-other env f m (t, raises e) d h = h
Called-other env f m (t, gives args) d h =
    Called-IsSame f t (invoke env m args t) h (IsSame-invoke env f m args t d)

-- What each of several keeps, all of them keep.
module _ (f : ℕ) (go : Marker → Scope → Scope × Attempt ℕ)
    (once : (m : Marker) (s : Scope)
      → Shares f m
      → count f s.calls ≤ held f s
      → Called f (go m s)) where
  Called-prepend : (v : ℕ) (r : Scope × Attempt (List ℕ)) → Called f r → Called f (prepend v r)
  Called-prepend v (t, raises e) h = h
  Called-prepend v (t, gives vs) h = h

  Called-then_rest :
      (ms : List Marker) (r : Scope × Attempt ℕ)
      → Called f r
      → ((t : Scope) → count f t.calls ≤ held f t → Called f (each go ms t))
      → Called f (then_rest r (each go ms))
  Called-then_rest ms (t, raises e) h k = h
  Called-then_rest ms (t, gives v) h k = Called-prepend v (each go ms t) (k t h)

  Called-each :
      (ms : List Marker) (s : Scope)
      → All (Shares f) ms
      → count f s.calls ≤ held f s
      → Called f (each go ms s)
  Called-each [] s _ h = h
  Called-each (m ∷ ms) s (p, ps) h =
      Called-then_rest ms (go m s) (once m s p h) (λ t k. Called-each ms t ps k)

cached-none :
    (f : ℕ) (m : Marker) (s : Scope)
    → m.dependency ≡ f
    → m.use_cache ≡ true
    → cached m s ≡ none
    → held f s ≡ 0
cached-none f m s d u e =
    let absent : get f s.cache ≡ none =
      subst (λ g. get g s.cache ≡ none) d (ground (arith, u, e)) in
    rw absent refl

module _ (env : Env) (rank : ℕ → ℕ) (f : ℕ) (ranked : IsRanked env rank)
    (shared : (g : ℕ) → All (Shares f) (env.declared g)) where
  Called-resolve :
      (n : ℕ) (m : Marker) (s : Scope)
      → Shares f m
      → count f s.calls ≤ held f s
      → Called f (resolve n env m s)
  unfolding resolve
  Called-resolve zero m s p h = ground (arith, h)
  Called-resolve (suc n) m s p h = elim (Option-cases (cached m s)) [
    | inr (v, e) ↦ rw e h
    | inl e ↦ rw e (elim (Bool-cases (m.dependency == f)) [
      | inl d ↦
          let same = (==_iff m.dependency f).0 d in
          Called-with_args env f m s (each (resolve n env) (env.declared m.dependency) s) same
            (p same) (omega (arith, h, cached-none f m s same (p same) e))
            (IsSame-each f (resolve n env) (Under rank f)
              (λ k t b. IsSame-resolve env rank f ranked n k t b) (env.declared m.dependency) s
              (subst (λ g. All (Under rank g) (env.declared m.dependency)) same
                (ranked m.dependency)))
      | inr d ↦ Called-other env f m (each (resolve n env) (env.declared m.dependency) s) d (
          Called-each f (resolve n env) (λ k t q i. Called-resolve n k t q i)
            (env.declared m.dependency) s (shared m.dependency) h)
    ])
  ]

Called-le : (f : ℕ) (r : Scope × Attempt (List ℕ)) → Called f r → count f r.0.calls ≤ 1
Called-le f (s, gives _) h = ground (arith, h)
Called-le f (s, raises _) h = h

-- On one request a dependency is called at most once, wherever and however often it is declared,
-- and whether resolving succeeds or fails, if every marker for it shares its value and no
-- dependency rests on itself.
pub resolve_all-once :
    (env : Env) (deps : List Marker) (rank : ℕ → ℕ) (f : ℕ)
    → IsRanked env rank
    → ((g : ℕ) → All (Shares f) (env.declared g))
    → All (Shares f) deps
    → count f (resolve_all env deps).0.calls ≤ 1
unfolding resolve_all
resolve_all-once env deps rank f ranked shared p = Called-le f (each (resolve 21 env) deps start) (
    Called-each f (resolve 21 env) (λ m s q h. Called-resolve env rank f ranked shared 21 m s q h)
      deps start p (omega arith))
