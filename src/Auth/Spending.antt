-- ===== src/Auth/Spending.antt =====
-- What a request spends from the limits of its gate.
use oxbrook.Prelude.{
  ℕ, ◌≡◌, refl, ap, ◌∙◌, Bool, true, false, Option, none, some, List, [], ◌∷◌, if◌then◌else◌,
}
use oxbrook.Auth.Policy.{Principal, Choice}
use oxbrook.Auth.Gate.{
  Found, nothing, wrong, found, broken, Env, Gate, Effect, asked, spent, on_found, charge, Run,
  named, try_schemes, call,
}
use oxbrook.Auth.Meaning.{is_nothing, first_credential, keys}
use oxbrook.Auth.Refinement.{call_first}

-- The callers that a run spends for.
abbrev pub payers : List Effect → List (Option Principal)
payers [] = []
payers (asked _ ∷ log) = payers log
payers (spent who ∷ log) = who ∷ payers log

-- Who pays: the principal that the first credential is of; nobody, where it is wrong or there is none.
abbrev pub payer_at : Env → ℕ → Found → Option Principal
payer_at env s (found p) = some (named env s p)
payer_at env s _ = none

abbrev pub payer : Env → Option ℕ → Option Principal
payer env none = none
payer env (some s) = payer_at env s (env.authenticate s)

abbrev pub bill : Bool → Option Principal → List (Option Principal)
bill true who = who ∷ []
bill false who = []

abbrev pub IsBroken : Found → Type 0
IsBroken (broken _) = Unit
IsBroken _ = ⊥

payers-charge :
    (env : Env) (spends : Bool) (who : Option Principal) (v : _)
    → payers (charge env spends who v).0 ≡ bill spends who
payers-charge env true who v = refl
payers-charge env false who v = refl

payers-on_found :
    (env : Env) (g : Gate) (c : Choice) (cs : List Choice) (f : Found) (rest : Run)
    → env.authenticate c.0 ≡ f
    → ¬ IsBroken f
    → payers rest.0 ≡ bill g.spends (payer env (first_credential env (keys cs)))
    → payers (on_found env g c f rest).0
      ≡ bill g.spends
          (payer env (if is_nothing f then first_credential env (keys cs) else some c.0))
payers-on_found env g (s, options) cs nothing rest e n h = h
payers-on_found env g (s, options) cs wrong rest e n h = rw e (payers-charge env g.spends none _)
payers-on_found env g (s, options) cs (broken b) rest e n h = absurd (n tt)
payers-on_found env g (s, options) cs (found p) rest e n h =
    rw e (payers-charge env g.spends (some (named env s p)) _)

payers-try_schemes :
    (env : Env) (g : Gate) (cs : List Choice)
    → ((s : ℕ) → ¬ IsBroken (env.authenticate s))
    → payers (try_schemes env g cs).0 ≡ bill g.spends (payer env (first_credential env (keys cs)))
unfolding try_schemes
payers-try_schemes env g [] n = payers-charge env g.spends none _
payers-try_schemes env g ((s, options) ∷ cs) n =
    payers-on_found env g (s, options) cs (env.authenticate s) (try_schemes env g cs) refl (n s)
      (payers-try_schemes env g cs n)

-- A request spends exactly once from a gate's limits, whatever is decided: for the principal that
-- its first credential is of, even one that is then refused, and for nobody where that credential
-- is wrong or there is none. The limits spent first let it pass, and no scheme fails.
pub payers-call :
    (env : Env) (g : Gate)
    → env.first ≡ none
    → ((s : ℕ) → ¬ IsBroken (env.authenticate s))
    → payers (call env g).0 ≡ bill g.spends (payer env (first_credential env (keys g.schemes)))
payers-call env g h n =
    ap (λ run. payers run.0) (call_first env g h) ∙ payers-try_schemes env g g.schemes n
