-- ===== src/Dependencies/Tests.antt =====
-- Two dependencies that share a transaction, a generator.
use oxbrook.Prelude.{
  ℕ, ◌≤◌, ◌≡◌, ◌↔◌, refl, true, false, none, List, [], ◌∷◌, ◌==◌, if◌then◌else◌, arith, length, All,
  inl, inr,
}
use oxbrook.Dependencies.{
  raised, Attempt, gives, raises, Marker, Produced, plain, opens, stops, Env, resolve, resolve_all,
  bind,
}
use oxbrook.Dependencies.Untouched.{count, IsRanked}
use oxbrook.Dependencies.Once.{Shares, resolve_all-once}
use oxbrook.Dependencies.Outcome.{IsClean, IsEncodable, bind-gives, bind-raises}
use oxbrook.Dependencies.Order.{IsFalling, openings, bind-IsFalling}

abbrev on : ℕ → Marker
on f = record { dependency = f; use_cache = true }

-- 2 and 3 rest on 1.
abbrev declared : ℕ → List Marker
declared g = if g == 2 then on 1 ∷ [] else if g == 3 then on 1 ∷ [] else []

abbrev produce : ℕ → ℕ → List ℕ → Produced
produce i g args = if g == 1 then opens 10 else plain g

-- The generator ends, and swallows an exception.
abbrev env : (List ℕ → Attempt ℕ) → Env
env handler = record {
  declared = declared;
  produce = produce;
  exit = λ _ _. stops;
  handler = handler;
  encode = λ _. none;
  is_socket = false;
}

abbrev rank : ℕ → ℕ
rank g = if g == 2 then 1 else if g == 3 then 1 else 0

abbrev well : Env
well = env (λ _. gives 7)

abbrev ill : Env
ill = env (λ _. raises (raised 5))

abbrev deps : List Marker
deps = on 2 ∷ on 3 ∷ []

well-IsRanked : IsRanked well rank
well-IsRanked g = ground arith

declared-Shares : (g : ℕ) → All (Shares 1) (declared g)
declared-Shares g = ground arith

resolve_all-once_example : count 1 (resolve_all well deps).0.calls ≤ 1
resolve_all-once_example =
    resolve_all-once well deps rank 1 well-IsRanked declared-Shares (λ _. refl, (λ _. refl, tt))

bind-gives_example : ((bind well deps).1 ≡ gives 7) ↔ (
    (args : List ℕ) × ((resolve_all well deps).1 ≡ gives args)
    × (well.handler args ≡ gives 7)
    × IsEncodable well (resolve_all well deps).0.stack 7
    × All (IsClean well) (resolve_all well deps).0.stack)
bind-gives_example = bind-gives well deps 7

bind-raises_example : (bind ill deps).1 ≡ raises (raised 5)
unfolding resolve resolve_all
bind-raises_example =
    bind-raises ill deps (raised 5) (inr (inl (2 ∷ 3 ∷ [], refl, refl))) (inl refl, tt)

bind-IsFalling_example :
    ((bind ill deps).0 ≡ openings (resolve_all ill deps).0.made)
    × (length (resolve_all ill deps).0.made ≡ length (resolve_all ill deps).0.calls)
    × IsFalling (length (resolve_all ill deps).0.calls) (bind ill deps).0
bind-IsFalling_example = bind-IsFalling ill deps
