-- ===== src/Handling/Problems.antt =====
-- `HTTPError` and `problem` of python/oxbrook/_errors.py: the members of an error's body. The name of
-- a status is of Python's `http` module, and a parameter; encoding the body is a library's.
use oxbrook.Prelude.{
  ℕ, ◌≡◌, refl, Bool, true, false, ◌||◌, ◌&&◌, not, Option, none, some, List, [], ◌∷◌,
  if◌then◌else◌, leb, Result, ok, ◌>>◌, require, value_error, Text, text_eq, text_eq_sound, codes,
  arith, ◌∙◌, ap, ◌≤◌, Bool-cases, inl, inr,
}

pub data Value : Type 0 where
  text : Text → Value
  number : ℕ → Value
  data_value : ℕ → Value

abbrev pub Members : Type 0
Members = List (Text × Value)

pub record HttpError : Type 0 where
  pub status : ℕ
  pub detail : Option Text
  pub kind : Text
  pub title : Text
  pub instance_uri : Option Text
  pub extensions : Members

-- `_STANDARD`
abbrev pub is_standard : Text → Bool
is_standard k =
    text_eq k (codes "type")
    || text_eq k (codes "title")
    || text_eq k (codes "status")
    || text_eq k (codes "detail")
    || text_eq k (codes "instance")

abbrev pub any_standard : Members → Bool
any_standard [] = false
any_standard ((k, _) ∷ ms) = is_standard k || any_standard ms

abbrev pub or_title : (ℕ → Text) → ℕ → Option Text → Text
or_title status_title status none = status_title status
or_title status_title status (some title) = title

unfoldable pub http_error :
    (ℕ → Text) → ℕ → Option Text → Text → Option Text → Option Text → Members → Result HttpError
http_error status_title status detail kind title instance_uri extensions = do
  require (leb 400 status && leb status 599) value_error
  require (not (any_standard extensions)) value_error
  ok (record {
    status = status;
    detail = detail;
    kind = kind;
    title = or_title status_title status title;
    instance_uri = instance_uri;
    extensions = extensions;
  })

-- `body[name] = value`, and `body.update(members)`
abbrev pub set_member : Text → Value → Members → Members
set_member name value [] = (name, value) ∷ []
set_member name value ((k, v) ∷ ms) =
    if text_eq k name then (k, value) ∷ ms else (k, v) ∷ set_member name value ms

abbrev pub update : Members → Members → Members
update body [] = body
update body ((k, v) ∷ ms) = update (set_member k v body) ms

abbrev pub set_optional : Text → Option Text → Members → Members
set_optional name none body = body
set_optional name (some value) body = set_member name (text value) body

unfoldable pub problem : HttpError → Members
problem e =
    let start =
      (codes "type", text e.kind)
      ∷ (codes "title", text e.title)
      ∷ (codes "status", number e.status)
      ∷ [] in
    update
      (set_optional (codes "instance") e.instance_uri
        (set_optional (codes "detail") e.detail start))
      e.extensions

abbrev pub member_of : Text → Members → Option Value
member_of name [] = none
member_of name ((k, v) ∷ ms) = if text_eq k name then some v else member_of name ms

no_both : {b : Bool} → b ≡ true → b ≡ false → ⊥
no_both p q = cc

member_of-set_member :
    (name k : Text) (v : Value) (ms : Members)
    → text_eq k name ≡ false
    → member_of name (set_member k v ms) ≡ member_of name ms
member_of-set_member name k v [] h = ground arith
member_of-set_member name k v ((j, w) ∷ ms) h =
    ground (arith, member_of-set_member name k v ms, text_eq_sound j k)

other_name :
    (k name : Text) → is_standard k ≡ false → is_standard name ≡ true → text_eq k name ≡ false
other_name k name n s = elim (Bool-cases (text_eq k name)) [
  | inl e ↦ absurd (no_both (ap is_standard (text_eq_sound k name e) ∙ s) n)
  | inr e ↦ e
]

neither : (a b : Bool) → (a || b) ≡ false → (a ≡ false) × (b ≡ false)
neither a b h = ground arith

-- Members whose names are none of the standard leave those of a standard name.
member_of-update :
    (name : Text) (body ms : Members)
    → is_standard name ≡ true
    → any_standard ms ≡ false
    → member_of name (update body ms) ≡ member_of name body
member_of-update name body [] s h = refl
member_of-update name body ((k, v) ∷ ms) s h =
    let (n, rest) = neither (is_standard k) (any_standard ms) h in
    member_of-update name (set_member k v body) ms s rest
    ∙ member_of-set_member name k v body (other_name k name n s)

member_of-set_optional :
    (name k : Text) (value : Option Text) (body : Members)
    → text_eq k name ≡ false
    → member_of name (set_optional k value body) ≡ member_of name body
member_of-set_optional name k none body h = refl
member_of-set_optional name k (some value) body h = member_of-set_member name k (text value) body h

accepted :
    (status_title : ℕ → Text) (status : ℕ) (detail : Option Text) (kind : Text)
    (title instance_uri : Option Text) (extensions : Members) (e : HttpError)
    → http_error status_title status detail kind title instance_uri extensions ≡ ok e
    → (any_standard e.extensions ≡ false)
      × (e.status ≡ status)
      × (e.kind ≡ kind)
      × (400 ≤ status)
      × (status ≤ 599)
unfolding http_error
accepted status_title status detail kind title instance_uri extensions e h =
    ground (arith, Bool-cases (any_standard extensions))

kept_member :
    (name : Text) (e : HttpError)
    → any_standard e.extensions ≡ false
    → is_standard name ≡ true
    → text_eq (codes "instance") name ≡ false
    → text_eq (codes "detail") name ≡ false
    → member_of name (problem e)
      ≡ member_of name (
          (codes "type", text e.kind)
          ∷ (codes "title", text e.title)
          ∷ (codes "status", number e.status)
          ∷ [])
unfolding problem
kept_member name e a s i d =
    member_of-update name _ e.extensions s a
    ∙ member_of-set_optional name (codes "instance") e.instance_uri _ i
    ∙ member_of-set_optional name (codes "detail") e.detail _ d

-- An accepted HTTPError has a 4xx or 5xx status, and the body that tells of it has that status and
-- the type that it was given, whatever extensions it carries.
pub problem-http_error :
    (status_title : ℕ → Text) (status : ℕ) (detail : Option Text) (kind : Text)
    (title instance_uri : Option Text) (extensions : Members) (e : HttpError)
    → http_error status_title status detail kind title instance_uri extensions ≡ ok e
    → (member_of (codes "status") (problem e) ≡ some (number status))
      × (member_of (codes "type") (problem e) ≡ some (text kind))
      × (400 ≤ status)
      × (status ≤ 599)
problem-http_error status_title status detail kind title instance_uri extensions e h =
    let (a, s, k, low, high) =
      accepted status_title status detail kind title instance_uri extensions e h in
    (
      kept_member (codes "status") e a refl refl refl ∙ ap (λ x. some (number x)) s,
      kept_member (codes "type") e a refl refl refl ∙ ap (λ x. some (text x)) k,
      low,
      high,
    )
