-- ===== src/Auth/Ways.antt =====
-- `_alternatives` and `plan`: the ways through a declaration, its schemes, and what they ask.
use oxbrook.Prelude.{ℕ, ◌≡◌, refl, ap, ◌∙◌, ◌&&◌, ◌||◌, List, [], ◌∷◌, ◌++◌, arith}
use oxbrook.Auth.Policy.{
  Principal, Requirement, Policy, Members, scheme, either, required, no_more, more, met, Way,
  with_requirement, alternatives, each_alternative,
}
use oxbrook.Auth.Gate.{Env, all_met, listed}
use oxbrook.Auth.Meaning.{schemes, each_scheme, grants, some_grants, way_schemes, any_way}

way_schemes-append : (xs ys : List Way) → way_schemes (xs ++ ys) ≡ way_schemes xs ++ way_schemes ys
way_schemes-append [] ys = refl
way_schemes-append ((s, _) ∷ xs) ys = ap (◌∷◌ s) (way_schemes-append xs ys)

way_schemes-with_requirement :
    (r : Requirement) (ways : List Way) → way_schemes (with_requirement r ways) ≡ way_schemes ways
way_schemes-with_requirement r [] = refl
way_schemes-with_requirement r ((s, _) ∷ ways) = ap (◌∷◌ s) (way_schemes-with_requirement r ways)

mutual
  unfolding schemes alternatives

  pub way_schemes-alternatives : (p : Policy) → way_schemes (alternatives p) ≡ schemes p
  way_schemes-alternatives (scheme s) = refl
  way_schemes-alternatives (either ms) = way_schemes-each ms
  way_schemes-alternatives (required p r) =
      way_schemes-with_requirement r (alternatives p) ∙ way_schemes-alternatives p

  way_schemes-each : (ms : Members) → way_schemes (each_alternative ms) ≡ each_scheme ms
  way_schemes-each no_more = refl
  way_schemes-each (more p ms) =
      way_schemes-append (alternatives p) (each_alternative ms)
      ∙ ap (λ x. x ++ way_schemes (each_alternative ms)) (way_schemes-alternatives p)
      ∙ ap (◌++◌ (schemes p)) (way_schemes-each ms)

all_met-snoc :
    (env : Env) (who : Principal) (reqs : List Requirement) (r : Requirement)
    → listed (all_met env (reqs ++ r ∷ []) who)
      ≡ (listed (all_met env reqs who) && listed (met env.check r who))
all_met-snoc env who [] r = ground arith
all_met-snoc env who (q ∷ reqs) r = ground (arith, all_met-snoc env who reqs r)

any_way-append :
    (env : Env) (s : ℕ) (who : Principal) (xs ys : List Way)
    → any_way env s who (xs ++ ys) ≡ (any_way env s who xs || any_way env s who ys)
any_way-append env s who [] ys = refl
any_way-append env s who (x ∷ xs) ys = ground (arith, any_way-append env s who xs ys)

any_way-with_requirement :
    (env : Env) (s : ℕ) (who : Principal) (r : Requirement) (ways : List Way)
    → any_way env s who (with_requirement r ways)
      ≡ (any_way env s who ways && listed (met env.check r who))
any_way-with_requirement env s who r [] = refl
any_way-with_requirement env s who r ((t, reqs) ∷ ways) =
    ground (arith, any_way-with_requirement env s who r ways, all_met-snoc env who reqs r)

mutual
  unfolding grants alternatives

  pub any_way-alternatives :
      (env : Env) (s : ℕ) (who : Principal) (p : Policy)
      → any_way env s who (alternatives p) ≡ grants env s who p
  any_way-alternatives env s who (scheme t) = ground arith
  any_way-alternatives env s who (either ms) = any_way-each env s who ms
  any_way-alternatives env s who (required p r) =
      any_way-with_requirement env s who r (alternatives p)
      ∙ ap (λ x. x && listed (met env.check r who)) (any_way-alternatives env s who p)

  any_way-each :
      (env : Env) (s : ℕ) (who : Principal) (ms : Members)
      → any_way env s who (each_alternative ms) ≡ some_grants env s who ms
  any_way-each env s who no_more = refl
  any_way-each env s who (more p ms) =
      any_way-append env s who (alternatives p) (each_alternative ms)
      ∙ ap (λ x. x || any_way env s who (each_alternative ms)) (any_way-alternatives env s who p)
      ∙ ap (λ x. grants env s who p || x) (any_way-each env s who ms)
