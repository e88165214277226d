-- ===== src/Auth/Refinement.antt =====
-- `plan` and `Gate.__call__` beside the meaning of a declaration.
use oxbrook.Prelude.{
  ℕ, ◌≡◌, refl, sym, ap, ◌∙◌, Bool, true, false, Option, none, some, List, [], ◌∷◌, ◌==◌, ==_iff,
  if◌then◌else◌, arith, Bool-cases, Option-cases, inl, inr,
}
use oxbrook.Auth.Policy.{
  Principal, Requirement, Policy, Declaration, inner, accepts, met, alternatives, Choice, group_all,
  plan,
}
use oxbrook.Auth.Gate.{
  Found, nothing, wrong, found, broken, Env, Gate, Verdict, admitted, all_met, try_options, named,
  try_schemes, call, make_gate, limited, on_found, charge, Run, unauthenticated, listed, any_listed,
  refuse,
}
use oxbrook.Auth.Meaning.{
  schemes, is_nothing, first_credential, Decision, lets_in, unknown, not_allowed, error,
  decide_found, decide_first, decide, decision, IsCalm, keys, first-group_all, options_of,
  any_listed-group_all,
}
use oxbrook.Auth.Ways.{way_schemes-alternatives, any_way-alternatives}

-- Where no `check=` raises, a requirement is met or not.
met-listed :
    (env : Env) (r : Requirement) (who : Principal)
    → IsCalm env
    → met env.check r who ≡ accepts (listed (met env.check r who))
unfolding met
met-listed env r who c = elim (Option-cases r.check) [
  | inl e ↦ ground arith
  | inr (f, e) ↦ ground (arith, c.checks f who)
]

all_met-listed :
    (env : Env) (reqs : List Requirement) (who : Principal)
    → IsCalm env
    → all_met env reqs who ≡ accepts (listed (all_met env reqs who))
all_met-listed env [] who c = refl
all_met-listed env (r ∷ reqs) who c =
    ground (arith, met-listed env r who c, all_met-listed env reqs who c)

pub decision-try_options :
    (env : Env) (options : List (List Requirement)) (who : Principal) (v : Verdict)
    → IsCalm env
    → decision (try_options env options who v)
      ≡ (if any_listed env options who then lets_in (some who) else decision v)
decision-try_options env [] who v c = refl
decision-try_options env (reqs ∷ options) who v c =
    ground (arith, all_met-listed env reqs who c, decision-try_options env options who v c)

-- What the choices decide, with the scheme that finds the first credential.
abbrev by_choices : Env → List Choice → ℕ → Found → Decision
by_choices env cs s nothing = unknown
by_choices env cs s wrong = unknown
by_choices env cs s (broken _) = error
by_choices env cs s (found who) =
    if any_listed env (options_of s cs) (named env s who)
    then lets_in (some (named env s who))
    else not_allowed

abbrev by_first : Env → Gate → List Choice → Option ℕ → Decision
by_first env g cs none = if g.anonymous then lets_in none else unknown
by_first env g cs (some s) = by_choices env cs s (env.authenticate s)

by_choices-skip :
    (env : Env) (t s : ℕ) (options : List (List Requirement)) (cs : List Choice) (f : Found)
    → env.authenticate t ≡ nothing
    → env.authenticate s ≡ f
    → by_choices env ((t, options) ∷ cs) s f ≡ by_choices env cs s f
by_choices-skip env t s options cs nothing n e = refl
by_choices-skip env t s options cs wrong n e = refl
by_choices-skip env t s options cs (broken b) n e = refl
by_choices-skip env t s options cs (found p) n e = elim (Bool-cases (t == s)) [
  | inl same ↦
      let clash : found p ≡ nothing = sym e ∙ ap env.authenticate (sym ((==_iff t s).0 same)) ∙ n in
      absurd cc
  | inr other ↦ rw other refl
]

-- The choice that is looked at is the first whose scheme finds a credential.
by_first-skip :
    (env : Env) (g : Gate) (t : ℕ) (options : List (List Requirement)) (cs : List Choice)
    → env.authenticate t ≡ nothing
    → by_first env g ((t, options) ∷ cs) (first_credential env (keys cs))
      ≡ by_first env g cs (first_credential env (keys cs))
by_first-skip env g t options cs n = elim (Option-cases (first_credential env (keys cs))) [
  | inl e ↦ rw e refl
  | inr (s, e) ↦ rw e (by_choices-skip env t s options cs (env.authenticate s) n refl)
]

pub decision-charge :
    (env : Env) (spends : Bool) (who : Option Principal) (v : Verdict)
    → IsCalm env
    → decision (charge env spends who v).1 ≡ decision v
decision-charge env true who v c = rw (c.free who) refl
decision-charge env false who v c = refl

decision-on_found :
    (env : Env) (g : Gate) (t : ℕ) (options : List (List Requirement)) (cs : List Choice)
    (f : Found) (rest : Run)
    → IsCalm env
    → env.authenticate t ≡ f
    → decision rest.1 ≡ by_first env g cs (first_credential env (keys cs))
    → decision (on_found env g (t, options) f rest).1
      ≡ by_first env g
          ((t, options) ∷ cs)
          (if is_nothing f then first_credential env (keys cs) else some t)
unfolding refuse
decision-on_found env g t options cs nothing rest c e h =
    h ∙ sym (by_first-skip env g t options cs e)
decision-on_found env g t options cs wrong rest c e h =
    rw e (decision-charge env g.spends none (unauthenticated (some t)) c)
decision-on_found env g t options cs (broken b) rest c e h = rw e refl
decision-on_found env g t options cs (found p) rest c e h = rw e (
    decision-charge env g.spends (some (named env t p))
      (try_options env options (named env t p) (refuse t options (named env t p))) c
    ∙ decision-try_options env options (named env t p) (refuse t options (named env t p)) c
    ∙ ground (arith, ==_iff t t))

decision-try_schemes :
    (env : Env) (g : Gate) (cs : List Choice)
    → IsCalm env
    → decision (try_schemes env g cs).1 ≡ by_first env g cs (first_credential env (keys cs))
unfolding try_schemes
decision-try_schemes env g [] c =
    decision-charge env g.spends none (if g.anonymous then admitted none else unauthenticated none)
      c
    ∙ ground arith
decision-try_schemes env g ((t, options) ∷ cs) c =
    decision-on_found env g t options cs (env.authenticate t) (try_schemes env g cs) c refl
      (decision-try_schemes env g cs c)

first-plan :
    (env : Env) (p : Policy)
    → first_credential env (keys (group_all (alternatives p) [])) ≡ first_credential env (schemes p)
first-plan env p =
    first-group_all env (alternatives p) [] ∙ ap (first_credential env) (way_schemes-alternatives p)

by_choices-plan :
    (env : Env) (p : Policy) (s : ℕ) (f : Found)
    → by_choices env (group_all (alternatives p) []) s f ≡ decide_found env p s f
by_choices-plan env p s nothing = refl
by_choices-plan env p s wrong = refl
by_choices-plan env p s (broken b) = refl
by_choices-plan env p s (found q) =
    let who = named env s q in
    ap (λ b. if b then lets_in (some who) else not_allowed)
      (any_listed-group_all env s who (alternatives p) [] ∙ any_way-alternatives env s who p)

by_first-plan :
    (env : Env) (d : Declaration) (spends : Bool) (o : Option ℕ)
    → by_first env (make_gate d spends) (group_all (alternatives (inner d)) []) o
      ≡ decide_first env d o
unfolding make_gate plan
by_first-plan env d spends none = refl
by_first-plan env d spends (some s) = by_choices-plan env (inner d) s (env.authenticate s)

pub call_first :
    (env : Env) (g : Gate) → env.first ≡ none → call env g ≡ try_schemes env g g.schemes
unfolding call
call_first env g h =
    ap (λ o. elim o [ some w ↦ ([], limited w) | none ↦ try_schemes env g g.schemes ]) h

-- The gate made of a declaration decides what the declaration means: the first scheme that finds a
-- credential decides, by the whole policy, and without one a caller is let in where the
-- declaration is optional. No check= raises and no limit refuses.
pub call-decide :
    (env : Env) (d : Declaration) (spends : Bool)
    → IsCalm env
    → decision (call env (make_gate d spends)).1 ≡ decide env d
unfolding make_gate plan decide
call-decide env d spends c =
    let g = make_gate d spends in
    ap (λ run. decision run.1) (call_first env g c.first_free)
    ∙ decision-try_schemes env g g.schemes c
    ∙ by_first-plan env d spends (first_credential env (keys g.schemes))
    ∙ ap (decide_first env d) (first-plan env (inner d))
