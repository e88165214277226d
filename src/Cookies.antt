-- ===== src/Cookies.antt =====
-- Signed cookie sessions, python/oxbrook/_sessions.py: `Session`, `Sessions.encode` and `decode`, the
-- dependency that loads a session and the middleware that writes it back.
--
-- A session maps numbers to numbers, which stand for its keys and JSON values. HMAC, base64 and JSON
-- are parameters. Times are seconds. A cookie's text is ASCII, as the server reads no other: on other
-- text `hmac.compare_digest` would raise, where a signature here only differs.
pub mod Trips
mod Tests
use oxbrook.Prelude.{
  ℕ, ◌-◌, Bool, true, false, ◌&&◌, not, Option, none, some, is_some, List, [], ◌∷◌, ◌++◌, ◌==◌, ltb,
  if◌then◌else◌, Text, text_eq, codes, Result, ok, raise, key_error, value_error,
}
use oxbrook.Prelude.Dicts.{Dict, get, pop, put}

abbrev pub Data : Type 0
Data = Dict ℕ

pub record Session : Type 0 where
  pub items : Data
  pub modified : Bool

-- What a handler does to its session.
pub data Operation : Type 0 where
  set_item : ℕ → ℕ → Operation
  delete_item : ℕ → Operation
  clear : Operation
  pop_item : ℕ → Option ℕ → Operation
  update : Data → Operation
  set_default : ℕ → ℕ → Operation

abbrev pub put_all : Data → Data → Data
put_all [] d = d
put_all ((k, v) ∷ kvs) d = put_all kvs (put k v d)

-- A session after an operation, and whether it raised `KeyError`. `setdefault` is the dictionary's own.
abbrev pub deleted : ℕ → Bool → Session → Session × Bool
deleted k true s = (record s { items = pop k s.items; modified = true }, false)
deleted k false s = (s, true)

abbrev pub popped : ℕ → Option ℕ → Bool → Session → Session × Bool
popped k default true s = (record s { items = pop k s.items; modified = true }, false)
popped k none false s = (record s { modified = true }, true)
popped k (some _) false s = (record s { modified = true }, false)

unfoldable pub apply : Operation → Session → Session × Bool
apply (set_item k v) s = (record s { items = put k v s.items; modified = true }, false)
apply (delete_item k) s = deleted k (is_some (get k s.items)) s
apply clear s = (record s { items = []; modified = true }, false)
apply (pop_item k default) s = popped k default (is_some (get k s.items)) s
apply (update kvs) s = (record s { items = put_all kvs s.items; modified = true }, false)
apply (set_default k v) s =
    (if is_some (get k s.items) then s else record s { items = put k v s.items }, false)

-- The cookie's body: `t`, 0 if it has none, and `d`, if that is an object.
pub record Body : Type 0 where
  pub issued : ℕ
  pub items : Option Data

-- `_sign` under the secret, `_b64encode` after `json.dumps`, and `json.loads` after `_b64decode`, or
-- the `ValueError` that one of them raises.
pub record Codec : Type 0 where
  pub sign : Text → Text
  pub pack : Data → ℕ → Text
  pub unpack : Text → Option Body

pub record Sessions : Type 0 where
  pub has_secret : Bool
  pub max_age : ℕ

unfoldable pub create : Bool → ℕ → Result Sessions
create has_secret max_age =
    if has_secret
    then ok (record { has_secret = has_secret; max_age = max_age })
    else raise value_error

abbrev pub dot : ℕ
dot = 46

unfoldable pub encode : Codec → ℕ → Data → Text
encode c now items = c.pack items now ++ dot ∷ c.sign (c.pack items now)

-- `raw.partition(".")`, without the separator
abbrev pub onto : ℕ → Text × Text → Text × Text
onto c (a, b) = (c ∷ a, b)

abbrev pub partition : Text → Text × Text
partition [] = ([], [])
partition (c ∷ raw) = if c == dot then ([], raw) else onto c (partition raw)

abbrev pub is_empty : Text → Bool
is_empty [] = true
is_empty (_ ∷ _) = false

abbrev pub data_of : Option Data → Data
data_of none = []
data_of (some d) = d

-- `if self.max_age and ...`
abbrev pub is_over : ℕ → ℕ → ℕ → Bool
is_over max_age now issued = not (max_age == 0) && ltb max_age (now - issued)

abbrev pub read_body : Sessions → ℕ → Option Body → Data
read_body ss now none = []
read_body ss now (some body) = if is_over ss.max_age now body.issued then [] else data_of body.items

abbrev pub verified : Codec → Sessions → ℕ → Text → Text → Data
verified c ss now payload signature =
    if text_eq signature (c.sign payload) then read_body ss now (c.unpack payload) else []

abbrev pub parted : Codec → Sessions → ℕ → Text × Text → Data
parted c ss now ([], signature) = []
parted c ss now (_ ∷ _, []) = []
parted c ss now (p ∷ payload, s ∷ signature) = verified c ss now (p ∷ payload) (s ∷ signature)

unfoldable pub decode : Codec → Sessions → ℕ → Text → Data
decode c ss now raw = parted c ss now (partition raw)

-- `load`: an absent or empty cookie is an empty session.
abbrev pub loaded : Codec → Sessions → ℕ → Option Text → Data
loaded c ss now none = []
loaded c ss now (some []) = []
loaded c ss now (some (r ∷ raw)) = decode c ss now (r ∷ raw)

unfoldable pub load : Codec → Sessions → ℕ → Option Text → Session
load c ss now raw = record { items = loaded c ss now raw; modified = false }

-- A handler's operations, up to one that raises.
unfoldable pub operate : List Operation → Session → Session × Bool
operate [] s = (s, false)
operate (o ∷ os) s =
    let rest = operate os (apply o s).0 in if (apply o s).1 then (apply o s) else rest

-- `middleware`: the cookie that is written, on a session and a handler that returned or raised
abbrev pub written : Codec → ℕ → Session × Bool → Option Text
written c now (s, true) = none
written c now (s, false) = if s.modified then some (encode c now s.items) else none

unfoldable pub middleware : Codec → Sessions → ℕ → Option Text → List Operation → Option Text
middleware c ss now raw os = written c now (operate os (load c ss now raw))
