-- ===== src/Auth/Claims.antt =====
-- Claims into a principal: `_names` and `_Signed._principal` of python/oxbrook/auth.py, and the checks
-- of `JWT` on its algorithms and key.
use oxbrook.Prelude.{
  ℕ, ◌≡◌, inl, inr, Bool, true, false, ◌&&◌, ◌||◌, Option, none, some, List, [], ◌∷◌, ◌==◌,
  if◌then◌else◌, Text, text_eq, All, arith, Bool-cases,
}
use oxbrook.Auth.Session.{is_space}

-- A JSON value, and the members of a list or of an object.
mutual
  pub data Json : Type 0 where
    null : Json
    boolean : Bool → Json
    number : ℕ → Json
    text : Text → Json
    list : Items → Json
    object : Fields → Json

  pub data Items : Type 0 where
    no_items : Items
    item : Json → Items → Items

  pub data Fields : Type 0 where
    no_fields : Fields
    field_of : Text → Json → Fields → Fields

-- `Mapping.get`
abbrev pub member : Text → Fields → Json
member name no_fields = null
member name (field_of n v fields) = if text_eq n name then v else member name fields

abbrev pub at_path : List Text → Json → Option Json
at_path [] v = some v
at_path (s ∷ path) (object fields) = at_path path (member s fields)
at_path (s ∷ path) _ = none

-- `str.split()`
abbrev pub add_word : Text → List Text → List Text
add_word [] ws = ws
add_word (c ∷ w) ws = (c ∷ w) ∷ ws

abbrev pub cons_first : ℕ → Text × List Text → Text × List Text
cons_first c (w, ws) = (c ∷ w, ws)

abbrev pub new_word : Text × List Text → Text × List Text
new_word (w, ws) = ([], add_word w ws)

abbrev pub words_from : Text → Text × List Text
words_from [] = ([], [])
words_from (c ∷ s) = if is_space c then new_word (words_from s) else cons_first c (words_from s)

abbrev pub words : Text → List Text
words s = add_word (words_from s).0 (words_from s).1

abbrev pub texts : Items → List Text
texts no_items = []
texts (item (text t) items) = add_word t (texts items)
texts (item _ items) = texts items

abbrev pub names_at : Option Json → List Text
names_at none = []
names_at (some (text t)) = words t
names_at (some (list items)) = texts items
names_at (some _) = []

-- `_names`
unfoldable pub names : Fields → Option (List Text) → List Text
names claims none = []
names claims (some path) = names_at (at_path path (object claims))

-- An expectation of a claim: a value, or one of some.
pub data Wanted : Type 0 where
  exactly : Json → Wanted
  one_of : List Json → Wanted

-- `==` of Python on what is no list and no object: `True` is 1.
abbrev pub as_number : Bool → ℕ
as_number true = 1
as_number false = 0

abbrev pub same : Json → Json → Bool
same null null = true
same (boolean a) (boolean b) = as_number a == as_number b
same (boolean a) (number n) = as_number a == n
same (number m) (boolean b) = m == as_number b
same (number m) (number n) = m == n
same (text s) (text t) = text_eq s t
same _ _ = false

abbrev pub is_among : Json → List Json → Bool
is_among v [] = false
is_among v (w ∷ ws) = same v w || is_among v ws

abbrev pub is_wanted : Json → Wanted → Bool
is_wanted (list _) wanted = false
is_wanted (object _) wanted = false
is_wanted v (exactly w) = same v w
is_wanted v (one_of ws) = is_among v ws

abbrev pub meets_all : Fields → List (Text × Wanted) → Bool
meets_all claims [] = true
meets_all claims ((name, wanted) ∷ expected) =
    is_wanted (member name claims) wanted && meets_all claims expected

-- A subject: a text, or a number in decimal, which `str` gives.
abbrev pub subject_of : (ℕ → Text) → Json → Option Text
subject_of decimal (number n) = some (decimal n)
subject_of decimal (text []) = none
subject_of decimal (text (c ∷ t)) = some (c ∷ t)
subject_of decimal _ = none

pub record Identity : Type 0 where
  pub subject : Text
  pub scopes : List Text
  pub roles : List Text

pub record Reading : Type 0 where
  pub subject_claim : Text
  pub scopes_claim : Option (List Text)
  pub roles_claim : Option (List Text)
  pub expected : List (Text × Wanted)

abbrev pub identity : Reading → Fields → Option Text → Option Identity
identity r claims none = none
identity r claims (some subject) = some (record {
  subject = subject;
  scopes = names claims r.scopes_claim;
  roles = names claims r.roles_claim;
})

-- `_principal`; a refusal is none
unfoldable pub principal : (ℕ → Text) → Reading → Fields → Option Identity
principal decimal r claims =
    if meets_all claims r.expected
    then identity r claims (subject_of decimal (member r.subject_claim claims))
    else none

-- A claim is as expected: a single value that is the one wanted, or one of those.
abbrev IsSingle : Json → Type 0
IsSingle (list _) = ⊥
IsSingle (object _) = ⊥
IsSingle _ = Unit

abbrev IsOf : Json → Wanted → Type 0
IsOf v (exactly w) = same v w ≡ true
IsOf v (one_of ws) = is_among v ws ≡ true

is_wanted-IsOf : (v : Json) (w : Wanted) → is_wanted v w ≡ true → IsSingle v × IsOf v w
is_wanted-IsOf (list _) w h = absurd cc
is_wanted-IsOf (object _) w h = absurd cc
is_wanted-IsOf null (exactly w) h = (tt, h)
is_wanted-IsOf null (one_of ws) h = (tt, h)
is_wanted-IsOf (boolean b) (exactly w) h = (tt, h)
is_wanted-IsOf (boolean b) (one_of ws) h = (tt, h)
is_wanted-IsOf (number n) (exactly w) h = (tt, h)
is_wanted-IsOf (number n) (one_of ws) h = (tt, h)
is_wanted-IsOf (text t) (exactly w) h = (tt, h)
is_wanted-IsOf (text t) (one_of ws) h = (tt, h)

abbrev Holds : Fields → Text × Wanted → Type 0
Holds claims (name, wanted) = IsSingle (member name claims) × IsOf (member name claims) wanted

meets_all-Holds :
    (claims : Fields) (expected : List (Text × Wanted))
    → meets_all claims expected ≡ true
    → All (Holds claims) expected
meets_all-Holds claims [] h = tt
meets_all-Holds claims ((name, wanted) ∷ expected) h = (
  is_wanted-IsOf (member name claims) wanted (ground (arith, h)),
  meets_all-Holds claims expected (ground (arith, h)),
)

-- A principal is only made of claims that are all as expected.
principal-Holds :
    (decimal : ℕ → Text) (r : Reading) (claims : Fields) (who : Identity)
    → principal decimal r claims ≡ some who
    → All (Holds claims) r.expected
unfolding principal
principal-Holds decimal r claims who h = elim (Bool-cases (meets_all claims r.expected)) [
  | inl e ↦ meets_all-Holds claims r.expected e
  | inr e ↦ absurd (ground (arith, e, h))
]
