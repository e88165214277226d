-- ===== src/Dependencies/Order.antt =====
-- The order in which the exit stack of `bind` is left.
use oxbrook.Prelude.{
  ◌∙◌, sym, ℕ, zero, suc, ◌≤◌, ◌<◌, ◌≡◌, refl, ap, List, [], ◌∷◌, length, arith, Bool-cases,
  Option-cases, inl, inr,
}
use oxbrook.Dependencies.{
  called, Attempt, gives, raises, Marker, Produced, fails, plain, opens, ends, Env, Scope, keep,
  enter, on_produced, invoke, with_args, cached, prepend, then_rest, each, resolve, start,
  resolve_all, unwind, finish, failure, handled, bind,
}

-- What every call keeps, resolving keeps.
module _ (env : Env) (P : Scope → Type 0)
    (step : (m : Marker) (args : List ℕ) (s : Scope) → P s → P (invoke env m args s).0) where
  after_with_args : (m : Marker) (r : Scope × Attempt (List ℕ)) → P r.0 → P (with_args env m r).0
  after_with_args m (s, raises e) h = h
  after_with_args m (s, gives args) h = step m args s h

  after_prepend : (v : ℕ) (r : Scope × Attempt (List ℕ)) → P r.0 → P (prepend v r).0
  after_prepend v (s, raises e) h = h
  after_prepend v (s, gives vs) h = h

  after_then_rest :
      (r : Scope × Attempt ℕ) (rest : Scope → Scope × Attempt (List ℕ))
      → P r.0
      → ((s : Scope) → P s → P (rest s).0)
      → P (then_rest r rest).0
  after_then_rest (s, raises e) rest h k = h
  after_then_rest (s, gives v) rest h k = after_prepend v (rest s) (k s h)

  after_each :
      (go : Marker → Scope → Scope × Attempt ℕ)
      → ((m : Marker) (s : Scope) → P s → P (go m s).0)
      → (ms : List Marker) (s : Scope) → P s
      → P (each go ms s).0
  after_each go k [] s h = h
  after_each go k (m ∷ ms) s h =
      after_then_rest (go m s) (each go ms) (k m s h) (λ t i. after_each go k ms t i)

  after_resolve : (n : ℕ) (m : Marker) (s : Scope) → P s → P (resolve n env m s).0
  unfolding resolve
  after_resolve zero m s h = h
  after_resolve (suc n) m s h = elim (Option-cases (cached m s)) [
    | inr (v, e) ↦ rw e h
    | inl e ↦ rw e (
        after_with_args m (each (resolve n env) (env.declared m.dependency) s) (
          after_each (resolve n env) (λ k t i. after_resolve n k t i) (env.declared m.dependency) s
            h))
  ]

  pub after_resolve_all : (deps : List Marker) → P start → P (resolve_all env deps).0
  unfolding resolve_all
  after_resolve_all deps h =
      after_each (resolve 21 env) (λ k t i. after_resolve 21 k t i) deps start h

abbrev opened : List (ℕ × ℕ) → List ℕ
opened [] = []
opened ((_, i) ∷ stack) = i ∷ opened stack

-- Numbers that fall strictly, from below a bound.
abbrev pub IsFalling : ℕ → List ℕ → Type 0
IsFalling b [] = Unit
IsFalling b (i ∷ is) = (i < b) × IsFalling i is

IsFalling-le : (b c : ℕ) (is : List ℕ) → b ≤ c → IsFalling b is → IsFalling c is
IsFalling-le b c [] l h = h
IsFalling-le b c (i ∷ is) l (p, h) = (omega arith, h)

-- The calls that opened a generator, newest first, of what each call came to.
abbrev pub openings : List Produced → List ℕ
openings [] = []
openings (fails e ∷ ps) = openings ps
openings (plain v ∷ ps) = openings ps
openings (opens v ∷ ps) = length ps ∷ openings ps
openings (ends ∷ ps) = openings ps

IsFalling-openings : (ps : List Produced) → IsFalling (length ps) (openings ps)
IsFalling-openings [] = tt
IsFalling-openings (fails e ∷ ps) =
    IsFalling-le (length ps) (suc (length ps)) (openings ps) (omega arith) (IsFalling-openings ps)
IsFalling-openings (plain v ∷ ps) =
    IsFalling-le (length ps) (suc (length ps)) (openings ps) (omega arith) (IsFalling-openings ps)
IsFalling-openings (opens v ∷ ps) = (omega arith, IsFalling-openings ps)
IsFalling-openings (ends ∷ ps) =
    IsFalling-le (length ps) (suc (length ps)) (openings ps) (omega arith) (IsFalling-openings ps)

-- The stack holds the generators that the calls opened.
abbrev InOrder : Scope → Type 0
InOrder s = (length s.made ≡ length s.calls) × (opened s.stack ≡ openings s.made)

InOrder-keep : (m : Marker) (v : ℕ) (s : Scope) → InOrder s → InOrder (keep m v s)
InOrder-keep m v s h = elim (Bool-cases m.use_cache) [ inl e ↦ rw e h | inr e ↦ rw e h ]

InOrder-on_produced :
    (m : Marker) (p : Produced) (s : Scope)
    → InOrder s
    → InOrder (on_produced m (length s.calls) p (called m p s)).0
InOrder-on_produced m (fails e) s (l, h) = (ap suc l, h)
InOrder-on_produced m (plain v) s (l, h) = InOrder-keep m v (called m (plain v) s) (ap suc l, h)
InOrder-on_produced m (opens v) s (l, h) =
    InOrder-keep m v (enter (m.dependency, length s.calls) (called m (opens v) s))
      (ap suc l, rw (l, h) refl)
InOrder-on_produced m ends s (l, h) = (ap suc l, h)

unwind-opened :
    (env : Env) (stack : List (ℕ × ℕ)) (o : Attempt ℕ) → (unwind env stack o).0 ≡ opened stack
unfolding unwind
unwind-opened env [] o = refl
unwind-opened env ((fn, i) ∷ stack) o =
    ap (◌∷◌ i) (unwind-opened env stack (finish fn o (env.exit i (failure o))))

-- Whatever is raised, the generators that the calls opened are finished, all of them, each once,
-- and in the reverse of the order in which they were called.
pub bind-IsFalling :
    (env : Env) (deps : List Marker)
    → ((bind env deps).0 ≡ openings (resolve_all env deps).0.made)
      × (length (resolve_all env deps).0.made ≡ length (resolve_all env deps).0.calls)
      × IsFalling (length (resolve_all env deps).0.calls) (bind env deps).0
unfolding bind
bind-IsFalling env deps =
    let r = resolve_all env deps in
    let (l, h) =
      after_resolve_all env InOrder
        (λ m args s i. InOrder-on_produced m (env.produce (length s.calls) m.dependency args) s i)
        deps (refl, refl) in
    let all : (unwind env r.0.stack (handled env r)).0 ≡ openings r.0.made =
      unwind-opened env r.0.stack (handled env r) ∙ h in
    (all, l, rw (all, sym l) (IsFalling-openings r.0.made))
