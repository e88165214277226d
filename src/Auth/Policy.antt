-- ===== src/Auth/Policy.antt =====
-- Declarations: `Requirement`, `_Either`, `_Required` and `_Optional` of python/oxbrook/auth.py, and
-- `_alternatives`, `plan` and `presentable` of _auth.py.
use oxbrook.Prelude.{
  is_in, subset, ℕ, Bool, true, false, ◌&&◌, ◌||◌, Option, none, some, List, [], ◌∷◌, ◌++◌, ◌==◌,
  if◌then◌else◌, Result, ok, raise, type_error,
}

pub record Principal : Type 0 where
  pub subject : ℕ
  -- the name of the scheme that found it; 0 is the empty name
  pub scheme : ℕ
  pub scopes : List ℕ
  pub roles : List ℕ

pub record Requirement : Type 0 where
  pub all_of : List ℕ
  pub any_of : List ℕ
  pub check : Option ℕ
  pub roles : List ℕ

mutual
  pub data Policy : Type 0 where
    scheme : ℕ → Policy
    either : Members → Policy
    required : Policy → Requirement → Policy

  pub data Members : Type 0 where
    no_more : Members
    more : Policy → Members → Members

-- A whole declaration: a policy, or `optional(...)` of one.
pub data Declaration : Type 0 where
  always optional : Policy → Declaration

abbrev pub join_members : Members → Members → Members
join_members no_more ns = ns
join_members (more p ms) ns = more p (join_members ms ns)

-- `_members`, and `|`
abbrev pub members : Policy → Members
members (either ms) = ms
members (scheme s) = more (scheme s) no_more
members (required p r) = more (required p r) no_more

unfoldable pub combine : Policy → Policy → Policy
combine p q = either (join_members (members p) (members q))

-- `optional(...)`, and `.requires(...)` on what is declared
unfoldable pub make_optional : Declaration → Result Declaration
make_optional (always p) = ok (optional p)
make_optional (optional p) = raise type_error

abbrev pub meets : List ℕ → List ℕ → Bool
meets [] ys = false
meets (x ∷ xs) ys = is_in x ys || meets xs ys

abbrev pub is_empty : List ℕ → Bool
is_empty [] = true
is_empty (_ ∷ _) = false

-- What a `check=` gives: whether it accepts, or an exception.
pub data Checked : Type 0 where
  accepts : Bool → Checked
  fails : Checked

abbrev pub ask : (ℕ → Principal → Checked) → Option ℕ → Principal → Checked
ask check none who = accepts true
ask check (some f) who = check f who

-- `Requirement.met`
unfoldable pub met : (ℕ → Principal → Checked) → Requirement → Principal → Checked
met check r who =
    if subset r.all_of who.scopes
      && (is_empty r.any_of || meets r.any_of who.scopes)
      && subset r.roles who.roles
    then ask check r.check who
    else accepts false

-- One way through a declaration: a scheme and the requirements on what it finds.
abbrev pub Way : Type 0
Way = ℕ × List Requirement

abbrev pub with_requirement : Requirement → List Way → List Way
with_requirement r [] = []
with_requirement r ((s, reqs) ∷ ways) = (s, reqs ++ r ∷ []) ∷ with_requirement r ways

-- `_alternatives`
unfoldable mutual
  pub alternatives : Policy → List Way
  alternatives (scheme s) = (s, []) ∷ []
  alternatives (either ms) = each_alternative ms
  alternatives (required p r) = with_requirement r (alternatives p)

  pub each_alternative : Members → List Way
  each_alternative no_more = []
  each_alternative (more p ms) = alternatives p ++ each_alternative ms

-- A scheme with every set of requirements that it may satisfy.
abbrev pub Choice : Type 0
Choice = ℕ × List (List Requirement)

-- `grouped.setdefault(id(scheme), (scheme, []))[1].append(requirements)`
abbrev pub group : ℕ → List Requirement → List Choice → List Choice
group s reqs [] = (s, reqs ∷ []) ∷ []
group s reqs ((t, options) ∷ cs) =
    if t == s then (t, options ++ reqs ∷ []) ∷ cs else (t, options) ∷ group s reqs cs

abbrev pub group_all : List Way → List Choice → List Choice
group_all [] cs = cs
group_all ((s, reqs) ∷ ways) cs = group_all ways (group s reqs cs)

abbrev pub is_optional : Declaration → Bool
is_optional (always _) = false
is_optional (optional _) = true

abbrev pub inner : Declaration → Policy
inner (always p) = p
inner (optional p) = p

unfoldable pub plan : Declaration → List Choice × Bool
plan d = (group_all (alternatives (inner d)) [], is_optional d)

-- `presentable`: what is left without the schemes that are tickets.
abbrev keep_required : Requirement → Option Policy → Option Policy
keep_required r none = none
keep_required r (some p) = some (required p r)

abbrev pub keep_member : Option Policy → Members → Members
keep_member none ms = ms
keep_member (some p) ms = more p ms

-- `kept[0] if len(kept) == 1 else _Either(tuple(kept))`
abbrev either_of : Members → Option Policy
either_of no_more = none
either_of (more p no_more) = some p
either_of (more p (more q ms)) = some (either (more p (more q ms)))

unfoldable mutual
  pub presentable : (ℕ → Bool) → Policy → Option Policy
  presentable ticket (scheme s) = if ticket s then none else some (scheme s)
  presentable ticket (either ms) = either_of (presentable_members ticket ms)
  presentable ticket (required p r) = keep_required r (presentable ticket p)

  pub presentable_members : (ℕ → Bool) → Members → Members
  presentable_members ticket no_more = no_more
  presentable_members ticket (more p ms) =
      keep_member (presentable ticket p) (presentable_members ticket ms)

abbrev as_optional : Option Policy → Option Declaration
as_optional none = none
as_optional (some p) = some (optional p)

abbrev as_always : Option Policy → Option Declaration
as_always none = none
as_always (some p) = some (always p)

abbrev pub presentable_declaration : (ℕ → Bool) → Declaration → Option Declaration
presentable_declaration ticket (always p) = as_always (presentable ticket p)
presentable_declaration ticket (optional p) = as_optional (presentable ticket p)
