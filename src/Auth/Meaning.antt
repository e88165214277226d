-- ===== src/Auth/Meaning.antt =====
-- What a declaration means, read off its text: the description that `Gate` is compared with.
use oxbrook.Prelude.{
  ℕ, ◌≡◌, ◌≢◌, refl, Bool, true, false, ◌&&◌, ◌||◌, Option, none, some, List, [], ◌∷◌, ◌++◌, ◌==◌,
  ==_iff, if◌then◌else◌, arith,
}
use oxbrook.Auth.Policy.{
  Principal, Requirement, Policy, Members, scheme, either, required, no_more, more, Declaration,
  inner, is_optional, fails, met, Way, Choice, group, group_all,
}
use oxbrook.Auth.Gate.{
  Found, nothing, wrong, found, broken, Env, Verdict, admitted, unauthenticated, forbidden, limited,
  failed, all_met, named, listed, any_listed,
}

-- The schemes of a policy, as they are written.
unfoldable mutual
  pub schemes : Policy → List ℕ
  schemes (scheme s) = s ∷ []
  schemes (either ms) = each_scheme ms
  schemes (required p r) = schemes p

  pub each_scheme : Members → List ℕ
  each_scheme no_more = []
  each_scheme (more p ms) = schemes p ++ each_scheme ms

-- Whether a policy lets a principal in whom the given scheme found.
unfoldable mutual
  pub grants : Env → ℕ → Principal → Policy → Bool
  grants env s who (scheme t) = t == s
  grants env s who (either ms) = some_grants env s who ms
  grants env s who (required p r) = grants env s who p && listed (met env.check r who)

  pub some_grants : Env → ℕ → Principal → Members → Bool
  some_grants env s who no_more = false
  some_grants env s who (more p ms) = grants env s who p || some_grants env s who ms

abbrev pub is_nothing : Found → Bool
is_nothing nothing = true
is_nothing _ = false

-- The first scheme that finds a credential of its kind.
abbrev pub first_credential : Env → List ℕ → Option ℕ
first_credential env [] = none
first_credential env (s ∷ ss) =
    if is_nothing (env.authenticate s) then first_credential env ss else some s

pub data Decision : Type 0 where
  lets_in : Option Principal → Decision
  unknown not_allowed too_many error : Decision

abbrev pub decide_found : Env → Policy → ℕ → Found → Decision
decide_found env p s nothing = unknown
decide_found env p s wrong = unknown
decide_found env p s (broken _) = error
decide_found env p s (found who) =
    if grants env s (named env s who) p then lets_in (some (named env s who)) else not_allowed

abbrev pub decide_first : Env → Declaration → Option ℕ → Decision
decide_first env d none = if is_optional d then lets_in none else unknown
decide_first env d (some s) = decide_found env (inner d) s (env.authenticate s)

-- The meaning: the first scheme that finds a credential decides, by the whole policy; without one, a
-- caller is let in where the declaration is optional.
unfoldable pub decide : Env → Declaration → Decision
decide env d = decide_first env d (first_credential env (schemes (inner d)))

abbrev pub decision : Verdict → Decision
decision (admitted who) = lets_in who
decision (unauthenticated _) = unknown
decision (forbidden _ _ _) = not_allowed
decision (limited _) = too_many
decision failed = error

-- No `check=` raises, and no limit refuses.
pub record IsCalm (env : Env) : Type 0 where
  pub checks : (f : ℕ) (who : Principal) → env.check f who ≢ fails
  pub first_free : env.first ≡ none
  pub free : (who : Option Principal) → env.wait who ≡ none

abbrev pub or_else : Option ℕ → Option ℕ → Option ℕ
or_else none o = o
or_else (some s) o = some s

abbrev pub keys : List Choice → List ℕ
keys [] = []
keys ((s, _) ∷ cs) = s ∷ keys cs

abbrev pub way_schemes : List Way → List ℕ
way_schemes [] = []
way_schemes ((s, _) ∷ ways) = s ∷ way_schemes ways

pub first-append :
    (env : Env) (xs ys : List ℕ)
    → first_credential env (xs ++ ys) ≡ or_else (first_credential env xs) (first_credential env ys)
first-append env [] ys = refl
first-append env (x ∷ xs) ys = ground (arith, first-append env xs ys)

first-group :
    (env : Env) (s : ℕ) (reqs : List Requirement) (cs : List Choice)
    → first_credential env (keys (group s reqs cs))
      ≡ or_else (first_credential env (keys cs)) (first_credential env (s ∷ []))
first-group env s reqs [] = refl
first-group env s reqs ((t, o) ∷ cs) = ground (arith, ==_iff t s, first-group env s reqs cs)

pub first-group_all :
    (env : Env) (ways : List Way) (cs : List Choice)
    → first_credential env (keys (group_all ways cs))
      ≡ or_else (first_credential env (keys cs)) (first_credential env (way_schemes ways))
first-group_all env [] cs = ground arith
first-group_all env ((s, reqs) ∷ ways) cs =
    ground (arith, first-group_all env ways (group s reqs cs), first-group env s reqs cs)

-- Whether one of the ways of a scheme is met.
abbrev pub any_way : Env → ℕ → Principal → List Way → Bool
any_way env s who [] = false
any_way env s who ((t, reqs) ∷ ways) =
    (t == s && listed (all_met env reqs who)) || any_way env s who ways

abbrev pub options_of : ℕ → List Choice → List (List Requirement)
options_of s [] = []
options_of s ((t, options) ∷ cs) = if t == s then options else options_of s cs

any_listed-snoc :
    (env : Env) (who : Principal) (options : List (List Requirement)) (reqs : List Requirement)
    → any_listed env (options ++ reqs ∷ []) who
      ≡ (any_listed env options who || listed (all_met env reqs who))
any_listed-snoc env who [] reqs = ground arith
any_listed-snoc env who (o ∷ options) reqs = ground (arith, any_listed-snoc env who options reqs)

any_listed-group :
    (env : Env) (s t : ℕ) (who : Principal) (reqs : List Requirement) (cs : List Choice)
    → any_listed env (options_of s (group t reqs cs)) who
      ≡ (any_listed env (options_of s cs) who || (t == s && listed (all_met env reqs who)))
any_listed-group env s t who reqs [] = ground arith
any_listed-group env s t who reqs ((u, o) ∷ cs) =
    ground (arith, any_listed-snoc env who o reqs, any_listed-group env s t who reqs cs, ==_iff u t)

pub any_listed-group_all :
    (env : Env) (s : ℕ) (who : Principal) (ways : List Way) (cs : List Choice)
    → any_listed env (options_of s (group_all ways cs)) who
      ≡ (any_listed env (options_of s cs) who || any_way env s who ways)
any_listed-group_all env s who [] cs = ground arith
any_listed-group_all env s who ((t, reqs) ∷ ways) cs = ground (
  arith,
  any_listed-group_all env s who ways (group t reqs cs),
  any_listed-group env s t who reqs cs,
)
