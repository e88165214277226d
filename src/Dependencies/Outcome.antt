-- ===== src/Dependencies/Outcome.antt =====
-- The outcome of `bind`.
use oxbrook.Prelude.{
  if◌then◌else◌, ◌&&◌, not, Option, ◌≢◌, Bool, true, false, length, Bool-cases, arith, ℕ, ◌≡◌, ◌↔◌,
  ◌⊎◌, refl, ap, subst, none, some, List, [], ◌∷◌, All, inl, inr,
}
use oxbrook.Dependencies.Order.{after_resolve_all}
use oxbrook.Dependencies.{
  called, on_produced, checked, Scope, Produced, fails, plain, opens, ends, Failure, Attempt, gives,
  raises, Marker, Exit, stops, throws, yields, Env, resolve_all, finish, unwind, handled, bind,
}

-- A generator that ends when it is resumed.
abbrev pub IsClean : Env → ℕ × ℕ → Type 0
IsClean env (_, i) = env.exit i none ≡ stops

-- A generator that lets an exception through, or swallows it.
abbrev pub IsQuiet : Env → Failure → ℕ × ℕ → Type 0
IsQuiet env e (_, i) = (env.exit i (some e) ≡ stops) ⊎ (env.exit i (some e) ≡ throws e)

finish-raises :
    (fn : ℕ) (e : Failure) (x : Exit) → (f : Failure) × (finish fn (raises e) x ≡ raises f)
finish-raises fn e stops = (e, refl)
finish-raises fn e (throws f) = (f, refl)
finish-raises fn e (yields none) = (_, refl)
finish-raises fn e (yields (some f)) = (f, refl)

unwind-raises :
    (env : Env) (stack : List (ℕ × ℕ)) (e : Failure)
    → (f : Failure) × ((unwind env stack (raises e)).1 ≡ raises f)
unfolding unwind
unwind-raises env [] e = (e, refl)
unwind-raises env ((fn, i) ∷ stack) e =
    let (f, h) = finish-raises fn e (env.exit i (some e)) in
    let (g, k) = unwind-raises env stack f in (g, rw h k)

finish-gives : (fn v w : ℕ) (x : Exit) → finish fn (gives v) x ≡ gives w → x ≡ stops
finish-gives fn v w stops h = refl
finish-gives fn v w (throws f) h = absurd cc
finish-gives fn v w (yields c) h = absurd cc

unwind-clean :
    (env : Env) (stack : List (ℕ × ℕ)) (v : ℕ)
    → All (IsClean env) stack
    → (unwind env stack (gives v)).1 ≡ gives v
unfolding unwind
unwind-clean env [] v h = refl
unwind-clean env ((fn, i) ∷ stack) v (c, h) = rw c (unwind-clean env stack v h)

-- A generator's exit, with its equation.
Exit-cases :
    (x : Exit) → (x ≡ stops) ⊎ ((fn v : ℕ) → (e : Failure) × (finish fn (gives v) x ≡ raises e))
Exit-cases stops = inl refl
Exit-cases (throws e) = inr (λ fn v. (e, refl))
Exit-cases (yields c) = inr (λ fn v. (_, refl))

unwind-gives :
    (env : Env) (stack : List (ℕ × ℕ)) (v w : ℕ)
    → (unwind env stack (gives v)).1 ≡ gives w
    → (v ≡ w) × All (IsClean env) stack
unfolding unwind
unwind-gives env [] v w h = (cc, tt)
unwind-gives env ((fn, i) ∷ stack) v w h = elim (Exit-cases (env.exit i none)) [
  | inl e ↦
      let r =
        unwind-gives env stack v w
          (subst (λ x. (unwind env stack (finish fn (gives v) x)).1 ≡ gives w) e h) in
      (r.0, (e, r.1))
  | inr k ↦
      let (e, q) = k fn v in
      let (f, u) = unwind-raises env stack e in
      absurd (
        let bad : (unwind env stack (raises e)).1 ≡ gives w =
          subst (λ o. (unwind env stack o).1 ≡ gives w) q h in
        cc)
]

unwind-succeeds :
    (env : Env) (stack : List (ℕ × ℕ)) (o : Attempt ℕ) (v : ℕ)
    → (unwind env stack o).1 ≡ gives v
    → (o ≡ gives v) × All (IsClean env) stack
unwind-succeeds env stack (gives w) v h =
    let r = unwind-gives env stack w v h in (ap gives r.0, r.1)
unwind-succeeds env stack (raises e) v h = let (f, k) = unwind-raises env stack e in absurd cc

gives-inj : (w v : ℕ) → gives w ≡ gives v → w ≡ v
gives-inj w v h = cc

pub unwind-quiet :
    (env : Env) (stack : List (ℕ × ℕ)) (e : Failure)
    → All (IsQuiet env e) stack
    → (unwind env stack (raises e)).1 ≡ raises e
unfolding unwind
unwind-quiet env [] e h = refl
unwind-quiet env ((fn, i) ∷ stack) e (inl q, h) = rw q (unwind-quiet env stack e h)
unwind-quiet env ((fn, i) ∷ stack) e (inr q, h) = rw q (unwind-quiet env stack e h)

-- A response that is encoded before the generators are finished can be: none is open, the request
-- is a websocket, or encoding raises nothing.
abbrev pub IsEncodable : Env → List (ℕ × ℕ) → ℕ → Type 0
IsEncodable env stack v = (stack ≡ []) ⊎ (env.is_socket ≡ true) ⊎ (env.encode v ≡ none)

-- What encoding the response raises, while a generator is open.
abbrev pub Unencodable : Env → List (ℕ × ℕ) → ℕ → Failure → Type 0
Unencodable env stack v e = (stack ≢ []) × (env.is_socket ≡ false) × (env.encode v ≡ some e)

-- The exception is a dependency's, the handler's, or of encoding its response.
abbrev pub IsRaised : Env → List Marker → Failure → Type 0
IsRaised env deps e =
    ((resolve_all env deps).1 ≡ raises e)
    ⊎ ((args : List ℕ) × ((resolve_all env deps).1 ≡ gives args) × (env.handler args ≡ raises e))
    ⊎ ((args : List ℕ) × (v : ℕ) × ((resolve_all env deps).1 ≡ gives args)
        × (env.handler args ≡ gives v)
        × Unencodable env (resolve_all env deps).0.stack v e)

abbrev is_open : List (ℕ × ℕ) → Bool
is_open [] = false
is_open (_ ∷ _) = true

-- `_TEARDOWN` is set where a generator is open.
abbrev Tells : Scope → Type 0
Tells s = s.teardown ≡ is_open s.stack

Tells-on_produced :
    (m : Marker) (i : ℕ) (p : Produced) (s : Scope) → Tells s → Tells (on_produced m i p s).0
Tells-on_produced m i (fails e) s h = h
Tells-on_produced m i (plain v) s h = elim (Bool-cases m.use_cache) [
  | inl e ↦ rw e h
  | inr e ↦ rw e h
]
Tells-on_produced m i (opens v) s h = elim (Bool-cases m.use_cache) [
  | inl e ↦ rw e refl
  | inr e ↦ rw e refl
]
Tells-on_produced m i ends s h = h

resolve_all-Tells : (env : Env) (deps : List Marker) → Tells (resolve_all env deps).0
resolve_all-Tells env deps =
    after_resolve_all env Tells
      (λ m args s h.
        Tells-on_produced m (length s.calls) (env.produce (length s.calls) m.dependency args)
          (called m (env.produce (length s.calls) m.dependency args) s) h)
      deps refl

encoded :
    (b : Bool) (c : Option Failure) (w v : ℕ)
    → (if true && not b then (elim c [ none ↦ gives w | some e ↦ raises e ]) else gives w) ≡ gives v
    → (gives w ≡ gives v) × ((b ≡ true) ⊎ (c ≡ none))
encoded true c w v h = (h, inl refl)
encoded false none w v h = (h, inr refl)
encoded false (some e) w v h = absurd cc

checked-gives :
    (env : Env) (t : Bool) (stack : List (ℕ × ℕ)) (o : Attempt ℕ) (v : ℕ)
    → t ≡ is_open stack
    → checked env t o ≡ gives v
    → (o ≡ gives v) × IsEncodable env stack v
checked-gives env t stack (raises e) v k h = absurd cc
checked-gives env t [] (gives w) v k h =
    (subst (λ b. checked env b (gives w) ≡ gives v) k h, inl refl)
checked-gives env t (x ∷ stack) (gives w) v k h =
    let (same, c) =
      encoded env.is_socket (env.encode w) w v
        (subst (λ b. checked env b (gives w) ≡ gives v) k h) in
    (
      same,
      inr (elim c [
        | inl e ↦ inl e
        | inr e ↦ inr (subst (λ u. env.encode u ≡ none) (gives-inj w v same) e)
      ]),
    )

gives-checked :
    (env : Env) (t : Bool) (stack : List (ℕ × ℕ)) (v : ℕ)
    → t ≡ is_open stack
    → IsEncodable env stack v
    → checked env t (gives v) ≡ gives v
gives-checked env t [] v k h = rw k refl
gives-checked env t (x ∷ stack) v k (inl h) = absurd cc
gives-checked env t (x ∷ stack) v k (inr (inl h)) = rw (k, h) refl
gives-checked env t (x ∷ stack) v k (inr (inr h)) = ground (arith, k, h)

checked-raises :
    (env : Env) (t : Bool) (stack : List (ℕ × ℕ)) (v : ℕ) (e : Failure)
    → t ≡ is_open stack
    → Unencodable env stack v e
    → checked env t (gives v) ≡ raises e
checked-raises env t [] v e k (h, s, c) = absurd (h refl)
checked-raises env t (x ∷ stack) v e k (h, s, c) = rw (k, s, c) refl

module _ (env : Env) (deps : List Marker) where
  -- A request succeeds exactly when its dependencies and its handler did, its response can be
  -- encoded if a generator is open, and every generator then ended by itself: a teardown that
  -- raises or yields again is the outcome, never the handler's success.
  pub bind-gives :
      (v : ℕ)
      → ((bind env deps).1 ≡ gives v) ↔ (
          (args : List ℕ) × ((resolve_all env deps).1 ≡ gives args)
          × (env.handler args ≡ gives v)
          × IsEncodable env (resolve_all env deps).0.stack v
          × All (IsClean env) (resolve_all env deps).0.stack)
  unfolding bind
  bind-gives v = (
    go (resolve_all env deps) (resolve_all-Tells env deps),
    λ (args, r, h, c, q). back (resolve_all env deps) args (resolve_all-Tells env deps) r h c q,
  )
    where
      go :
          (r : Scope × Attempt (List ℕ))
          → Tells r.0
          → (unwind env r.0.stack (handled env r)).1 ≡ gives v
          → (args : List ℕ) × (r.1 ≡ gives args)
            × (env.handler args ≡ gives v)
            × IsEncodable env r.0.stack v
            × All (IsClean env) r.0.stack
      go (s, raises e) t h = let (f, k) = unwind-raises env s.stack e in absurd cc
      go (s, gives args) t h =
          let (o, clean) =
            unwind-succeeds env s.stack (checked env s.teardown (env.handler args)) v h in
          let (same, c) = checked-gives env s.teardown s.stack (env.handler args) v t o in
          (args, refl, same, c, clean)

      back :
          (r : Scope × Attempt (List ℕ)) (args : List ℕ)
          → Tells r.0
          → r.1 ≡ gives args
          → env.handler args ≡ gives v
          → IsEncodable env r.0.stack v
          → All (IsClean env) r.0.stack
          → (unwind env r.0.stack (handled env r)).1 ≡ gives v
      back (s, o) args t r h c q =
          rw (r, h, gives-checked env s.teardown s.stack v t c) (unwind-clean env s.stack v q)

  -- An exception of a dependency, of the handler, or of encoding the response while a generator is
  -- open is the outcome, where every teardown lets it through or swallows it: no teardown turns it
  -- into a success.
  pub bind-raises :
      (e : Failure)
      → IsRaised env deps e
      → All (IsQuiet env e) (resolve_all env deps).0.stack
      → (bind env deps).1 ≡ raises e
  unfolding bind
  bind-raises e h q =
      rw (go (resolve_all env deps) (resolve_all-Tells env deps) h)
        (unwind-quiet env (resolve_all env deps).0.stack e q)
    where
      go :
          (r : Scope × Attempt (List ℕ))
          → Tells r.0
          → (r.1 ≡ raises e)
            ⊎ ((args : List ℕ) × (r.1 ≡ gives args) × (env.handler args ≡ raises e))
            ⊎ ((args : List ℕ) × (v : ℕ) × (r.1 ≡ gives args)
                × (env.handler args ≡ gives v)
                × Unencodable env r.0.stack v e)
          → handled env r ≡ raises e
      go (s, o) t (inl h) = rw h refl
      go (s, o) t (inr (inl (args, h, k))) = rw (h, k) refl
      go (s, o) t (inr (inr (args, v, h, k, u))) =
          rw (h, k) (checked-raises env s.teardown s.stack v e t u)
