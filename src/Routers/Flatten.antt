-- ===== src/Routers/Flatten.antt =====
-- `Router._flatten` and `Router._mounts` of python/oxbrook/_routers.py: the routes and the static
-- mounts of a router and of all that it includes.
use oxbrook.Prelude.{
  ℕ, zero, suc, Bool, true, false, ◌||◌, not, List, [], ◌∷◌, ◌++◌, ◌==◌, if◌then◌else◌, Result, ok,
  raise, ◌>>=◌, ◌>>◌, require, value_error, Text, text_eq, Option, none, some,
}
use oxbrook.Routers.Shape.{join}
use oxbrook.Routers.Declare.{Setting, unset, off, on, Declared, Router, Builds}

-- The part of `RouteInfo` that flattening fills.
pub record Route : Type 0 where
  pub declared : Declared
  pub path : Text
  pub middleware : List ℕ
  pub auth : Setting
  pub rate_limit : Option ℕ
  pub tags : List Text
  pub handlers : List (ℕ × ℕ)

-- `declared if declared is not UNSET else inherited`
abbrev pub nearest : Setting → Setting → Setting
nearest unset inherited = inherited
nearest off inherited = off
nearest (on p) inherited = on p

abbrev pub limit_of : Setting → Option ℕ
limit_of unset = none
limit_of off = none
limit_of (on p) = some p

abbrev pub member : ℕ → List ℕ → Bool
member x [] = false
member x (y ∷ ys) = x == y || member x ys

abbrev pub has_tag : Text → List Text → Bool
has_tag t [] = false
has_tag t (u ∷ us) = text_eq t u || has_tag t us

-- `(*tags, *(t for t in self.tags if t not in tags))`
abbrev pub add_tags : List Text → List Text → List Text
add_tags tags [] = []
add_tags tags (t ∷ ts) = if has_tag t tags then add_tags tags ts else t ∷ add_tags tags ts

-- `handlers[cls] = handler`, and `{**outer, **inner}`
abbrev pub set_handler : ℕ → ℕ → List (ℕ × ℕ) → List (ℕ × ℕ)
set_handler k v [] = (k, v) ∷ []
set_handler k v ((j, w) ∷ hs) = if j == k then (k, v) ∷ hs else (j, w) ∷ set_handler k v hs

abbrev pub merge : List (ℕ × ℕ) → List (ℕ × ℕ) → List (ℕ × ℕ)
merge outer [] = outer
merge outer ((k, v) ∷ inner) = merge (set_handler k v outer) inner

-- What a router inherits from those that include it.
pub record Context : Type 0 where
  pub outer : Text
  pub middleware : List ℕ
  pub seen : List ℕ
  pub auth : Setting
  pub rate_limit : Setting
  pub tags : List Text
  pub handlers : List (ℕ × ℕ)

-- The context that a router makes of its own and the inherited declarations; `outer` is then the
-- base of its paths.
unfoldable pub inside : ℕ → Router → Context → Context
inside self r c = record {
  outer = c.outer ++ r.prefix;
  middleware = c.middleware ++ r.middleware;
  seen = c.seen ++ self ∷ [];
  auth = nearest r.auth c.auth;
  rate_limit = nearest r.rate_limit c.rate_limit;
  tags = c.tags ++ add_tags c.tags r.tags;
  handlers = merge c.handlers r.handlers;
}

unfoldable pub route_of : Context → Declared → Route
route_of c d = record {
  declared = d;
  path = c.outer ++ d.path;
  middleware = c.middleware;
  auth = nearest d.auth c.auth;
  rate_limit = limit_of (nearest d.rate_limit c.rate_limit);
  tags = c.tags;
  handlers = c.handlers;
}

-- Out of fuel, or what Python returns or raises.
pub data Outcome {ℓ} (A : Type ℓ) : Type ℓ where
  done : Result A → Outcome A
  exhausted : Outcome A

abbrev pub prepend {ℓ} : {A : Type ℓ} → Result (List A) → Outcome (List A) → Outcome (List A)
prepend (raise e) rest = done (raise e)
prepend (ok xs) exhausted = exhausted
prepend (ok xs) (done (raise e)) = done (raise e)
prepend (ok xs) (done (ok ys)) = done (ok (xs ++ ys))

abbrev pub and_then {ℓ} : {A : Type ℓ} → Outcome (List A) → Outcome (List A) → Outcome (List A)
and_then exhausted rest = exhausted
and_then (done r) rest = prepend r rest

-- The routes that a router declares itself, in order.
unfoldable pub own_routes : Builds → Context → List Declared → Result (List Route)
unfolding route_of
own_routes builds c [] = ok []
own_routes builds c (d ∷ ds) = do
  require (builds d (c.outer ++ d.path)) value_error
  rest ← own_routes builds c ds
  ok (route_of c d ∷ rest)

abbrev pub under : Text → Context → Context
under prefix c = record c { outer = c.outer ++ prefix }

-- The loop over the children, where `visit` flattens one.
unfoldable pub each_child :
    (ℕ → Context → Outcome (List Route)) → Context → List (ℕ × Text) → Outcome (List Route)
each_child visit c [] = done (ok [])
each_child visit c ((child, prefix) ∷ rest) =
    and_then (visit child (under prefix c)) (each_child visit c rest)

-- `_flatten`, on the routers of a store. A router that stands in `seen` includes itself.
unfoldable pub flatten : (ℕ → Router) → Builds → ℕ → ℕ → Context → Outcome (List Route)
flatten store builds zero self c = exhausted
flatten store builds (suc fuel) self c =
    let inner = inside self (store self) c in
    let nested = each_child (flatten store builds fuel) inner (store self).children in
    if member self c.seen
    then done (raise value_error)
    else prepend (own_routes builds inner (store self).declared) nested

-- `_mounts`: a mount that an `auth=` covers is refused.
abbrev is_on : Setting → Bool
is_on (on _) = true
is_on _ = false

unfoldable pub own_mounts : Text → Setting → List (Text × ℕ) → Result (List (Text × ℕ))
own_mounts base auth [] = ok []
own_mounts base auth ((prefix, directory) ∷ statics) = do
  require (not (is_on auth)) value_error
  rest ← own_mounts base auth statics
  ok ((join base prefix, directory) ∷ rest)

unfoldable pub each_mounted :
    (ℕ → Text → Outcome (List (Text × ℕ))) → Text → List (ℕ × Text) → Outcome (List (Text × ℕ))
each_mounted visit base [] = done (ok [])
each_mounted visit base ((child, prefix) ∷ rest) =
    and_then (visit child (base ++ prefix)) (each_mounted visit base rest)

unfoldable pub mounts : (ℕ → Router) → ℕ → ℕ → Text → List ℕ → Setting → Outcome (List (Text × ℕ))
mounts store zero self outer seen auth = exhausted
mounts store (suc fuel) self outer seen auth =
    let base = outer ++ (store self).prefix in
    let covered = nearest (store self).auth auth in
    let nested =
      each_mounted (λ child prefix. mounts store fuel child prefix (seen ++ self ∷ []) covered) base
        (store self).children in
    if member self seen
    then done (raise value_error)
    else prepend (own_mounts base covered (store self).statics) nested
