-- ===== src/Auth/Gate.antt =====
-- `Gate` of python/oxbrook/_auth.py, on one request: `__call__`, `spend`, `forbidden` and `permits`.
--
-- What the request's schemes find, what a `check=` says, and what a limit answers when it is spent
-- from, are the environment's. A run tells what it asked and spent, in order, and how it ends.
use oxbrook.Prelude.{
  is_in, ℕ, Bool, true, false, ◌||◌, not, Option, none, some, List, [], ◌∷◌, ◌++◌, ◌==◌,
  if◌then◌else◌, keep_if,
}
use oxbrook.Auth.Policy.{
  Principal, Requirement, Declaration, Checked, accepts, fails, met, meets, is_empty, Choice, plan,
}

-- What `scheme.authenticate(request)` gives: `None`, a principal, `Unauthenticated`, or an exception
-- of another kind, an `HTTPError` or not.
pub data Found : Type 0 where
  nothing wrong : Found
  found : Principal → Found
  broken : Bool → Found

pub record Env : Type 0 where
  pub authenticate : ℕ → Found
  pub check : ℕ → Principal → Checked
  -- `_name`
  pub name : ℕ → ℕ
  -- the wait of a limit that is spent first, and of those spent with the caller, if one refuses
  pub first : Option ℕ
  pub wait : Option Principal → Option ℕ

pub record Gate : Type 0 where
  pub schemes : List Choice
  pub anonymous : Bool
  -- whether there are limits to spend from with the caller
  pub spends : Bool

pub data Effect : Type 0 where
  asked : ℕ → Effect
  spent : Option Principal → Effect

-- Who is let in, a `401` and the scheme that refused, a `403` with the scopes and roles that lack, a
-- `429`, or an exception that is none of these.
pub data Verdict : Type 0 where
  admitted : Option Principal → Verdict
  unauthenticated : Option ℕ → Verdict
  forbidden : ℕ → List ℕ → List ℕ → Verdict
  limited : ℕ → Verdict
  failed : Verdict

abbrev pub Run : Type 0
Run = List Effect × Verdict

abbrev pub after : Effect → Run → Run
after e (log, v) = (e ∷ log, v)

-- `Requirement.missing`, and how `forbidden` collects it
abbrev pub missing : Requirement → Principal → List ℕ
missing r who =
    keep_if (λ s. not (is_in s who.scopes)) r.all_of
    ++ (if is_empty r.any_of || meets r.any_of who.scopes then [] else r.any_of)

abbrev pub add_new : List ℕ → List ℕ → List ℕ
add_new xs [] = xs
add_new xs (y ∷ ys) = if is_in y xs then add_new xs ys else add_new (xs ++ y ∷ []) ys

abbrev pub all_missing : List Requirement → Principal → List ℕ → List ℕ
all_missing [] who xs = xs
all_missing (r ∷ rs) who xs = all_missing rs who (add_new xs (missing r who))

abbrev pub missing_roles : Requirement → Principal → List ℕ
missing_roles r who = keep_if (λ s. not (is_in s who.roles)) r.roles

abbrev pub all_missing_roles : List Requirement → Principal → List ℕ → List ℕ
all_missing_roles [] who xs = xs
all_missing_roles (r ∷ rs) who xs = all_missing_roles rs who (add_new xs (missing_roles r who))

-- `options[0]`; a choice has an option
abbrev pub first_option : List (List Requirement) → List Requirement
first_option [] = []
first_option (reqs ∷ _) = reqs

unfoldable pub refuse : ℕ → List (List Requirement) → Principal → Verdict
refuse s options who =
    forbidden s (all_missing (first_option options) who [])
      (all_missing_roles (first_option options) who [])

-- The loop over the requirements of an option, up to the first that is not met.
abbrev and_next : Checked → Checked → Checked
and_next (accepts true) rest = rest
and_next (accepts false) rest = accepts false
and_next fails rest = fails

abbrev pub all_met : Env → List Requirement → Principal → Checked
all_met env [] who = accepts true
all_met env (r ∷ rs) who = and_next (met env.check r who) (all_met env rs who)

-- The loop over the options.
abbrev settle : Checked → Principal → Verdict → Verdict
settle (accepts true) who rest = admitted (some who)
settle (accepts false) who rest = rest
settle fails who rest = failed

abbrev pub try_options : Env → List (List Requirement) → Principal → Verdict → Verdict
try_options env [] who refusal = refusal
try_options env (reqs ∷ options) who refusal =
    settle (all_met env reqs who) who (try_options env options who refusal)

-- `spend`, where the gate has limits, and what follows it
abbrev allowed : Option ℕ → Verdict → Verdict
allowed none v = v
allowed (some w) v = limited w

-- `spend` on all limits of the gate as one: `env.wait` is what the first that refuses gives, and those
-- after it are not asked.
abbrev pub charge : Env → Bool → Option Principal → Verdict → Run
charge env true who v = (spent who ∷ [], allowed (env.wait who) v)
charge env false who v = ([], v)

-- `if not found.scheme`
abbrev pub named : Env → ℕ → Principal → Principal
named env s who = if who.scheme == 0 then record who { scheme = env.name s } else who

abbrev pub on_found : Env → Gate → Choice → Found → Run → Run
on_found env g (s, options) nothing rest = rest
on_found env g (s, options) wrong rest = charge env g.spends none (unauthenticated (some s))
on_found env g (s, options) (broken _) rest = ([], failed)
on_found env g (s, options) (found p) rest =
    let who = named env s p in
    charge env g.spends (some who) (try_options env options who (refuse s options who))

-- `for scheme, options in self.schemes`
unfoldable pub try_schemes : Env → Gate → List Choice → Run
unfolding refuse
try_schemes env g [] =
    charge env g.spends none (if g.anonymous then admitted none else unauthenticated none)
try_schemes env g (c ∷ cs) =
    after (asked c.0) (on_found env g c (env.authenticate c.0) (try_schemes env g cs))

-- `__call__`
unfoldable pub call : Env → Gate → Run
unfolding try_schemes
call env g = elim env.first [ some w ↦ ([], limited w) | none ↦ try_schemes env g g.schemes ]

unfoldable pub make_gate : Declaration → Bool → Gate
make_gate d spends =
    let planned = plan d in record { schemes = planned.0; anonymous = planned.1; spends = spends }

-- What a listing sees of a `check=` that raises is that it refuses.
abbrev pub listed : Checked → Bool
listed (accepts b) = b
listed fails = false

abbrev pub any_listed : Env → List (List Requirement) → Principal → Bool
any_listed env [] who = false
any_listed env (reqs ∷ options) who = listed (all_met env reqs who) || any_listed env options who

-- The memo: what each scheme that was asked gave, a refusal told apart from no credential.
pub data Remembered : Type 0 where
  refused absent : Remembered
  present : Principal → Remembered

abbrev pub Memo : Type 0
Memo = List (ℕ × Remembered)

abbrev pub recall : ℕ → Memo → Option Remembered
recall s [] = none
recall s ((t, r) ∷ memo) = if t == s then some r else recall s memo

-- An exception that is no `HTTPError` leaves `permits`; there is then no answer.
abbrev pub remember : Found → Option Remembered
remember nothing = some absent
remember wrong = some refused
remember (found p) = some (present p)
remember (broken true) = some refused
remember (broken false) = none

abbrev pub recalled : ℕ → Memo → Option Remembered → Option Remembered → Option (Memo × Remembered)
recalled s memo (some r) _ = some (memo, r)
recalled s memo none none = none
recalled s memo none (some r) = some (memo ++ (s, r) ∷ [], r)

abbrev pub look_up : Env → ℕ → Memo → Option (Memo × Remembered)
look_up env s memo = recalled s memo (recall s memo) (remember (env.authenticate s))

abbrev pub on_memo :
    Env → Choice → Option (Memo × Remembered) → (Memo → Option (Memo × Bool)) → Option (Memo × Bool)
on_memo env c none rest = none
on_memo env c (some (memo, refused)) rest = some (memo, false)
on_memo env c (some (memo, absent)) rest = rest memo
on_memo env (s, options) (some (memo, present p)) rest =
    some (memo, any_listed env options (named env s p))

-- `permits`, with the memo that it leaves
unfoldable pub permits : Env → Gate → List Choice → Memo → Option (Memo × Bool)
permits env g [] memo = some (memo, g.anonymous)
permits env g (c ∷ cs) memo = on_memo env c (look_up env c.0 memo) (permits env g cs)
