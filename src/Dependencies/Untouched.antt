-- ===== src/Dependencies/Untouched.antt =====
-- What `_resolve` does to dependencies that the resolved one does not rest on.
use oxbrook.Prelude.{
  ℕ, zero, suc, ◌+◌, ◌<◌, ◌≡◌, refl, ap, ◌∙◌, false, List, [], ◌∷◌, ◌==◌, ==_iff, if◌then◌else◌,
  length, arith, All, Bool-cases, Option-cases, inl, inr,
}
use oxbrook.Prelude.Dicts.{get, get-put_other}
use oxbrook.Dependencies.{
  called, Attempt, gives, raises, Marker, Produced, fails, plain, opens, ends, Env, Scope, keep,
  enter, on_produced, invoke, with_args, cached, prepend, then_rest, each, resolve,
}

abbrev pub count : ℕ → List ℕ → ℕ
count f [] = 0
count f (g ∷ gs) = (if g == f then 1 else 0) + count f gs

-- Every dependency that another declares has a lower rank: there is no cycle.
abbrev pub IsRanked : Env → (ℕ → ℕ) → Type 0
IsRanked env rank = (g : ℕ) → All (λ m. rank m.dependency < rank g) (env.declared g)

-- Nothing of `f` changes.
pub record IsSame (f : ℕ) (s t : Scope) : Type 0 where
  pub calls_same : count f t.calls ≡ count f s.calls
  pub cache_same : get f t.cache ≡ get f s.cache

IsSame-refl : (f : ℕ) (s : Scope) → IsSame f s s
IsSame-refl f s = record { calls_same = refl; cache_same = refl }

IsSame-trans : (f : ℕ) (s t u : Scope) → IsSame f s t → IsSame f t u → IsSame f s u
IsSame-trans f s t u h k = record {
  calls_same = k.calls_same ∙ h.calls_same;
  cache_same = k.cache_same ∙ h.cache_same;
}

IsSame-keep :
    (f : ℕ) (m : Marker) (v : ℕ) (s t : Scope)
    → (m.dependency == f) ≡ false
    → IsSame f s t
    → IsSame f s (keep m v t)
IsSame-keep f m v s t e h = elim (Bool-cases m.use_cache) [
  | inl u ↦ rw u (record {
    calls_same = h.calls_same;
    cache_same = get-put_other m.dependency f v t.cache e ∙ h.cache_same;
  })
  | inr u ↦ rw u h
]

IsSame-on_produced :
    (f : ℕ) (m : Marker) (i : ℕ) (p : Produced) (s t : Scope)
    → (m.dependency == f) ≡ false
    → IsSame f s t
    → IsSame f s (on_produced m i p t).0
IsSame-on_produced f m i (fails e) s t d h = h
IsSame-on_produced f m i (plain v) s t d h = IsSame-keep f m v s t d h
IsSame-on_produced f m i (opens v) s t d h =
    IsSame-keep f m v s (enter (m.dependency, i) t) d
      (record { calls_same = h.calls_same; cache_same = h.cache_same })
IsSame-on_produced f m i ends s t d h = h

pub IsSame-invoke :
    (env : Env) (f : ℕ) (m : Marker) (args : List ℕ) (s : Scope)
    → (m.dependency == f) ≡ false
    → IsSame f s (invoke env m args s).0
IsSame-invoke env f m args s d =
    IsSame-on_produced f m (length s.calls) (env.produce (length s.calls) m.dependency args) s
      (called m (env.produce (length s.calls) m.dependency args) s) d
      (record { calls_same = ground (arith, d); cache_same = refl })

IsSame-with_args :
    (env : Env) (f : ℕ) (m : Marker) (s : Scope) (r : Scope × Attempt (List ℕ))
    → (m.dependency == f) ≡ false
    → IsSame f s r.0
    → IsSame f s (with_args env m r).0
IsSame-with_args env f m s (t, raises e) d h = h
IsSame-with_args env f m s (t, gives args) d h =
    IsSame-trans f s t (invoke env m args t).0 h (IsSame-invoke env f m args t d)

module _ (f : ℕ) (go : Marker → Scope → Scope × Attempt ℕ) (Below : Marker → Type 0)
    (same : (m : Marker) (s : Scope) → Below m → IsSame f s (go m s).0) where
  IsSame-prepend :
      (v : ℕ) (s : Scope) (r : Scope × Attempt (List ℕ))
      → IsSame f s r.0
      → IsSame f s (prepend v r).0
  IsSame-prepend v s (t, raises e) h = h
  IsSame-prepend v s (t, gives vs) h = h

  IsSame-then_rest :
      (ms : List Marker) (s : Scope) (r : Scope × Attempt ℕ)
      → IsSame f s r.0
      → ((t : Scope) → IsSame f t (each go ms t).0)
      → IsSame f s (then_rest r (each go ms)).0
  IsSame-then_rest ms s (t, raises e) k h = k
  IsSame-then_rest ms s (t, gives v) k h =
      IsSame-prepend v s (each go ms t) (IsSame-trans f s t (each go ms t).0 k (h t))

  pub IsSame-each : (ms : List Marker) (s : Scope) → All Below ms → IsSame f s (each go ms s).0
  IsSame-each [] s h = IsSame-refl f s
  IsSame-each (m ∷ ms) s (b, h) =
      IsSame-then_rest ms s (go m s) (same m s b) (λ t. IsSame-each ms t h)

pub All-imp :
    (P Q : Marker → Type 0) (ms : List Marker) → ((m : Marker) → P m → Q m) → All P ms → All Q ms
All-imp P Q [] k h = tt
All-imp P Q (m ∷ ms) k (p, h) = (k m p, All-imp P Q ms k h)

pub other-Under : (rank : ℕ → ℕ) (f g : ℕ) → rank g < rank f → (g == f) ≡ false
other-Under rank f g u = elim (Bool-cases (g == f)) [
  | inl e ↦ let same : rank g ≡ rank f = ap rank ((==_iff g f).0 e) in absurd (omega arith)
  | inr e ↦ e
]

abbrev pub Under : (ℕ → ℕ) → ℕ → Marker → Type 0
Under rank f m = rank m.dependency < rank f

pub IsSame-resolve :
    (env : Env) (rank : ℕ → ℕ) (f : ℕ)
    → IsRanked env rank
    → (n : ℕ) (m : Marker) (s : Scope) → Under rank f m
    → IsSame f s (resolve n env m s).0
unfolding resolve
IsSame-resolve env rank f ranked zero m s u = IsSame-refl f s
IsSame-resolve env rank f ranked (suc n) m s u = elim (Option-cases (cached m s)) [
  | inr (v, e) ↦ rw e (IsSame-refl f s)
  | inl e ↦ rw e (
      IsSame-with_args env f m s (each (resolve n env) (env.declared m.dependency) s)
        (other-Under rank f m.dependency u)
        (IsSame-each f (resolve n env) (Under rank f)
          (λ k t b. IsSame-resolve env rank f ranked n k t b) (env.declared m.dependency) s
          (All-imp (Under rank m.dependency) (Under rank f) (env.declared m.dependency)
            (λ k b. omega arith) (ranked m.dependency))))
]
