-- ===== src/Auth/Listing.antt =====
-- `Gate.permits` beside `Gate.__call__`.
use oxbrook.Prelude.{
  ℕ, ◌≡◌, ◌≢◌, refl, sym, ap, subst, ◌∙◌, Bool, true, false, Option, none, some, List, [], ◌∷◌,
  ◌++◌, ◌==◌, ==_iff, if◌then◌else◌, arith, Option-cases, inl, inr,
}
use oxbrook.Auth.Policy.{Requirement, Choice}
use oxbrook.Auth.Gate.{
  Found, nothing, wrong, found, broken, Env, Gate, Verdict, unauthenticated, on_found, Run, named,
  try_options, try_schemes, call, refuse, Remembered, refused, absent, present, Memo, recall,
  recalled, remember, admitted, look_up, permits,
}
use oxbrook.Auth.Meaning.{Decision, lets_in, decision, IsCalm}
use oxbrook.Auth.Refinement.{decision-try_options, decision-charge, call_first}

abbrev pub is_in_decision : Decision → Bool
is_in_decision (lets_in _) = true
is_in_decision _ = false

abbrev pub passes : Verdict → Bool
passes v = is_in_decision (decision v)

-- The memo holds only what the schemes give on this request.
abbrev pub IsTrue : Env → Memo → Type 0
IsTrue env memo =
    (s : ℕ) (r : Remembered) → recall s memo ≡ some r → remember (env.authenticate s) ≡ some r

recall-snoc :
    (s t : ℕ) (r : Remembered) (memo : Memo)
    → recall s (memo ++ (t, r) ∷ [])
      ≡ elim (recall s memo) [ some q ↦ some q | none ↦ if t == s then some r else none ]
recall-snoc s t r [] = refl
recall-snoc s t r ((u, q) ∷ memo) = ground (arith, recall-snoc s t r memo)

IsTrue-snoc :
    (env : Env) (t : ℕ) (r : Remembered) (memo : Memo)
    → remember (env.authenticate t) ≡ some r
    → IsTrue env memo
    → IsTrue env (memo ++ (t, r) ∷ [])
IsTrue-snoc env t r memo e h s q k = elim (Option-cases (recall s memo)) [
  | inl n ↦ ground (arith, recall-snoc s t r memo, ==_iff t s)
  | inr (p, m) ↦ h s q (m ∙ ground (arith, recall-snoc s t r memo))
]

-- Looking a scheme up gives what it gives on this request, and keeps the memo true.
look_up_lem :
    (env : Env) (s : ℕ) (r : Remembered) (memo : Memo)
    → remember (env.authenticate s) ≡ some r
    → IsTrue env memo
    → (memo' : Memo) × (look_up env s memo ≡ some (memo', r)) × IsTrue env memo'
look_up_lem env s r memo e h = go (recall s memo) refl
  where
    go :
        (o : Option Remembered)
        → recall s memo ≡ o
        → (memo' : Memo) × (recalled s memo o (remember (env.authenticate s)) ≡ some (memo', r))
          × IsTrue env memo'
    go none n = (memo ++ (s, r) ∷ [], rw e refl, IsTrue-snoc env s r memo e h)
    go (some q) m = let same : q ≡ r = cc (h s q m) in (memo, rw same refl, h)

-- The answer of `permits` on the choices that are left, as a run of the gate on them decides.
abbrev Shows : Env → Gate → List Choice → Memo → Verdict → Type 0
Shows env g cs memo v =
    (memo' : Memo) × (permits env g cs memo ≡ some (memo', passes v)) × IsTrue env memo'

Shows-found :
    (env : Env) (g : Gate) (s : ℕ) (options : List (List Requirement)) (cs : List Choice)
    (memo : Memo) (f : Found) (rest : Run)
    → IsCalm env
    → env.authenticate s ≡ f
    → (remember f ≢ none)
    → ((memo' : Memo) → IsTrue env memo' → Shows env g cs memo' rest.1)
    → IsTrue env memo
    → Shows env g ((s, options) ∷ cs) memo (on_found env g (s, options) f rest).1
unfolding permits refuse
Shows-found env g s options cs memo nothing rest c e n ih h =
    let (memo', l, h') = look_up_lem env s absent memo (rw e refl) h in
    let (memo'', p, h'') = ih memo' h' in (memo'', rw l p, h'')
Shows-found env g s options cs memo wrong rest c e n ih h =
    let (memo', l, h') = look_up_lem env s refused memo (rw e refl) h in
    (
      memo',
      rw l (
          ap (λ d. some (memo', is_in_decision d))
            (sym (decision-charge env g.spends none (unauthenticated (some s)) c))),
      h',
    )
Shows-found env g s options cs memo (broken true) rest c e n ih h =
    let (memo', l, h') = look_up_lem env s refused memo (rw e refl) h in (memo', rw l refl, h')
Shows-found env g s options cs memo (broken false) rest c e n ih h = absurd (n refl)
Shows-found env g s options cs memo (found p) rest c e n ih h =
    let (memo', l, h') = look_up_lem env s (present p) memo (rw e refl) h in
    let who = named env s p in
    (
      memo',
      rw l (
          ap (λ b. some (memo', b))
            (sym (
              ap is_in_decision (
                decision-charge env g.spends (some who)
                  (try_options env options who (refuse s options who)) c
                ∙ decision-try_options env options who (refuse s options who) c)
              ∙ ground arith))),
      h',
    )

Shows-try_schemes :
    (env : Env) (g : Gate) (cs : List Choice) (memo : Memo)
    → IsCalm env
    → ((s : ℕ) → remember (env.authenticate s) ≢ none)
    → IsTrue env memo
    → Shows env g cs memo (try_schemes env g cs).1
unfolding permits try_schemes
Shows-try_schemes env g [] memo c n h = (
  memo,
  ap (λ b. some (memo, b))
      (sym (
        ap is_in_decision (
          decision-charge env g.spends none
            (if g.anonymous then admitted none else unauthenticated none) c)
        ∙ ground arith)),
  h,
)
Shows-try_schemes env g ((s, options) ∷ cs) memo c n h =
    Shows-found env g s options cs memo (env.authenticate s) (try_schemes env g cs) c refl (n s)
      (λ memo' h'. Shows-try_schemes env g cs memo' c n h') h

-- A listing shows a tool exactly when the tool's gate lets the request in, whatever other gates
-- were asked about it with the same memo, and leaves the memo true. No check= raises, no limit
-- refuses, and no scheme fails but with an HTTPError.
pub permits-call :
    (env : Env) (g : Gate) (memo : Memo)
    → IsCalm env
    → ((s : ℕ) → remember (env.authenticate s) ≢ none)
    → IsTrue env memo
    → (memo' : Memo) × (permits env g g.schemes memo ≡ some (memo', passes (call env g).1))
      × IsTrue env memo'
permits-call env g memo c n h =
    subst (λ run. Shows env g g.schemes memo run.1) (sym (call_first env g c.first_free))
      (Shows-try_schemes env g g.schemes memo c n h)
