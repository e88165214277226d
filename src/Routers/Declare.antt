-- ===== src/Routers/Declare.antt =====
-- `Router` and its registration methods, python/oxbrook/_routers.py.
use oxbrook.Prelude.{
  ℕ, ◌≡◌, refl, Bool, false, ◌&&◌, ◌||◌, not, List, [], ◌∷◌, ◌++◌, ◌==◌, Result, ok, ◌>>=◌, ◌>>◌,
  require, value_error, runtime_error, Text, text_eq, text_eq_comm, starts_with, arith, Option,
}
use oxbrook.Routers.Shape.{route_shape, check_prefix, slash, join}

-- A declaration that may be left out: unset, `None`, or a value.
pub data Setting : Type 0 where
  unset off : Setting
  on : ℕ → Setting

pub record Declared : Type 0 where
  pub method : Text
  pub path : Text
  pub fn : ℕ
  pub tool : Bool
  pub websocket : Bool
  pub authorize : Option ℕ
  pub cancel_on_disconnect : Bool
  pub blocking : Bool
  pub auth : Setting
  pub rate_limit : Setting
  pub recheck : Option ℕ

pub record Router : Type 0 where
  pub prefix : Text
  pub auth : Setting
  pub rate_limit : Setting
  pub tags : List Text
  -- exception class and handler
  pub handlers : List (ℕ × ℕ)
  pub declared : List Declared
  pub middleware : List ℕ
  -- child router and the prefix of its include
  pub children : List (ℕ × Text)
  -- prefix and directory with its options
  pub statics : List (Text × ℕ)
  pub included : Bool

-- Whether `build_route` accepts a declaration at a full path.
abbrev pub Builds : Type 0
Builds = Declared → Text → Bool

-- Two routes of one method whose paths have one shape.
abbrev pub clashes : Text → Declared → Declared → Bool
clashes prefix a b =
    text_eq a.method b.method
    && text_eq (route_shape (prefix ++ a.path)) (route_shape (prefix ++ b.path))

abbrev pub clashes_any : Text → Declared → List Declared → Bool
clashes_any prefix d [] = false
clashes_any prefix d (e ∷ es) = clashes prefix d e || clashes_any prefix d es

-- `_mutable`
unfoldable pub mutable : Router → Result (Unit {0})
mutable r = require (not r.included) runtime_error

-- `_declare`
unfoldable pub declare : Builds → Declared → Router → Result Router
unfolding mutable
declare builds d r = do
  mutable r
  require (starts_with (slash ∷ []) (r.prefix ++ d.path)) value_error
  require (builds d (r.prefix ++ d.path)) value_error
  require (not (clashes_any r.prefix d r.declared)) value_error
  ok (record r { declared = r.declared ++ d ∷ [] })

unfoldable pub middleware : ℕ → Router → Result Router
unfolding mutable
middleware fn r = do mutable r; ok (record r { middleware = r.middleware ++ fn ∷ [] })

-- `include`, of another router than itself
unfoldable pub include : ℕ → ℕ → Text → Router → Result Router
unfolding mutable
include self child prefix r = do
  mutable r
  require (not (self == child)) value_error
  p ← check_prefix prefix
  ok (record r { children = r.children ++ (child, p) ∷ [] })

-- `static`, where `mounts` stands for what `build_mount` accepts
unfoldable pub static : (Text → ℕ → Bool) → Text → ℕ → Router → Result Router
unfolding mutable
static mounts prefix directory r = do
  mutable r
  require (mounts (join r.prefix prefix) directory) value_error
  ok (record r { statics = r.statics ++ (prefix, directory) ∷ [] })

-- No two routes of the router clash.
abbrev pub Distinct : Text → List Declared → Type 0
Distinct prefix [] = Unit
Distinct prefix (d ∷ ds) = (clashes_any prefix d ds ≡ false) × Distinct prefix ds

clashes_sym : (p : Text) (a b : Declared) → clashes p a b ≡ false → clashes p b a ≡ false
clashes_sym p a b h =
    rw
      (
        text_eq_comm b.method a.method,
        text_eq_comm (route_shape (p ++ b.path)) (route_shape (p ++ a.path)),
      )
      h

clashes_any-snoc :
    (p : Text) (e d : Declared) (es : List Declared)
    → clashes_any p e es ≡ false
    → clashes p e d ≡ false
    → clashes_any p e (es ++ d ∷ []) ≡ false
clashes_any-snoc p e d [] h k = rw k refl
clashes_any-snoc p e d (f ∷ es) h k = ground (arith, clashes_any-snoc p e d es)

or-eq-false : (a b : Bool) → (a || b) ≡ false → (a ≡ false) × (b ≡ false)
or-eq-false a b h = ground arith

Distinct-snoc :
    (p : Text) (ds : List Declared) (d : Declared)
    → Distinct p ds
    → clashes_any p d ds ≡ false
    → Distinct p (ds ++ d ∷ [])
Distinct-snoc p [] d h k = (refl, tt)
Distinct-snoc p (e ∷ es) d (a, h) k =
    let (here, later) = or-eq-false (clashes p d e) (clashes_any p d es) k in
    (clashes_any-snoc p e d es a (clashes_sym p d e here), Distinct-snoc p es d h later)

-- Every accepted declaration keeps the routes of a router free of conflicts, and is its last
-- route; a router that has been included accepts none.
pub declare-Distinct :
    (builds : Builds) (d : Declared) (r s : Router)
    → Distinct r.prefix r.declared
    → declare builds d r ≡ ok s
    → Distinct s.prefix s.declared × (s.declared ≡ r.declared ++ d ∷ []) × (r.included ≡ false)
unfolding declare
declare-Distinct builds d r s h e = ground (arith, Distinct-snoc r.prefix r.declared d h)
