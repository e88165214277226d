-- ===== src/Auth/Session.antt =====
-- `SessionAuth` of python/oxbrook/auth.py: the user of a session cookie, and whether another site's
-- page may have sent the request.
--
-- What the cookie decodes to, which Cookies models, and how a user is loaded are parameters.
use oxbrook.Prelude.{
  ℕ, ◌+◌, Bool, true, false, not, ◌&&◌, ◌||◌, Option, none, some, List, [], ◌∷◌, ◌==◌, leb,
  if◌then◌else◌, Text, codes, text_eq, starts_with, drop,
}
use oxbrook.Auth.Policy.{Principal}

-- The headers that are read, the method, and the cookie.
pub record Request : Type 0 where
  pub method : Text
  pub site : Option Text
  pub origin : Option Text
  pub host : Option Text
  pub forwarded_host : Option Text
  pub csrf : Option Text
  pub cookie : Option Text

-- `str.strip` and `str.lower`, on ASCII
abbrev pub is_space : ℕ → Bool
is_space c = c == 32 || (leb 9 c && leb c 13)

abbrev pub lstrip : Text → Text
lstrip [] = []
lstrip (c ∷ s) = if is_space c then lstrip s else c ∷ s

abbrev pub unless_blank : ℕ → Text → Text
unless_blank c [] = if is_space c then [] else c ∷ []
unless_blank c (d ∷ s) = c ∷ d ∷ s

abbrev pub rstrip : Text → Text
rstrip [] = []
rstrip (c ∷ s) = unless_blank c (rstrip s)

abbrev pub lower : Text → Text
lower [] = []
lower (c ∷ s) = (if leb 65 c && leb c 90 then c + 32 else c) ∷ lower s

unfoldable pub normal : Text → Text
normal s = lower (rstrip (lstrip s))

-- `value[: -len(port)]`, if the value ends with the port
abbrev pub without : Text → Text → Option Text
without port [] = none
without port (c ∷ s) =
    if text_eq (c ∷ s) port
    then some []
    else elim (without port s) [ none ↦ none | some rest ↦ some (c ∷ rest) ]

abbrev pub implies : Option Text → Text → Bool
implies none scheme = true
implies (some s) scheme = text_eq s scheme

abbrev pub portless : Option Text → Text → Text → Option Text
portless scheme default value =
    if implies scheme default
    then without (if text_eq default (codes "http") then codes ":80" else codes ":443") value
    else none

abbrev pub or_text : Option Text → Text → Text
or_text none t = t
or_text (some s) t = s

-- `_authority`
unfoldable pub authority : Text → Option Text → Text
unfolding normal
authority value scheme =
    let v = normal value in
    or_text (portless scheme (codes "http") v) (or_text (portless scheme (codes "https") v) v)

-- `partition("://")`, if it is there, and `split(",")[0]`
abbrev pub onto : ℕ → Option (Text × Text) → Option (Text × Text)
onto c none = none
onto c (some (a, b)) = some (c ∷ a, b)

abbrev pub parted : Text → Option (Text × Text)
parted [] = none
parted (c ∷ s) =
    if starts_with (codes "://") (c ∷ s) then some ([], drop 3 (c ∷ s)) else onto c (parted s)

abbrev pub before_comma : Text → Text
before_comma [] = []
before_comma (c ∷ s) = if c == 44 then [] else c ∷ before_comma s

-- `_same_origin`
abbrev pub names : Text → Option Text → Bool
names wanted none = false
names wanted (some []) = false
names wanted (some (c ∷ value)) = text_eq (authority (before_comma (c ∷ value)) none) wanted

abbrev pub names_host : Request → Option (Text × Text) → Bool
names_host r none = false
names_host r (some (scheme, [])) = false
names_host r (some (scheme, c ∷ rest)) =
    names (authority (c ∷ rest) (some scheme)) r.host
    || names (authority (c ∷ rest) (some scheme)) r.forwarded_host

unfoldable pub same_origin : Text → Request → Bool
same_origin origin r = names_host r (parted (normal origin))

-- What the session holds for the scheme: the value under its key, and a CSRF token that is a text.
pub record Data : Type 0 where
  pub value : Option ℕ
  pub token : Option Text

-- What `load` gives: nobody, a principal, or another user.
pub data Loaded : Type 0 where
  nobody : Loaded
  known : Principal → Loaded
  user : Loaded

pub record SessionAuth : Type 0 where
  pub name : ℕ
  pub csrf : Bool
  -- `_trusted`
  pub trusted : List Text
  pub decode : Text → Data
  pub load : Option (ℕ → Loaded)

abbrev pub is_listed : Text → List Text → Bool
is_listed s [] = false
is_listed s (t ∷ ts) = text_eq s t || is_listed s ts

abbrev pub is_safe : Text → Bool
is_safe method = is_listed method (codes "GET" ∷ codes "HEAD" ∷ codes "OPTIONS" ∷ [])

abbrev pub site_of : Option Text → Text
site_of none = []
site_of (some s) = normal s

abbrev pub is_own_site : Text → Bool
is_own_site site = is_listed site (codes "same-origin" ∷ codes "none" ∷ [])

abbrev pub is_empty : Text → Bool
is_empty [] = true
is_empty (_ ∷ _) = false

abbrev pub shows_token : Option Text → Option Text → Bool
shows_token none offered = false
shows_token (some expected) none = false
shows_token (some expected) (some offered) = not (is_empty expected) && text_eq offered expected

-- `_forged`, from the origin on
abbrev pub from_origin : SessionAuth → Request → Data → Text → Option Text → Bool
from_origin a r d site (some origin) =
    not (same_origin origin r || is_listed (normal origin) a.trusted)
from_origin a r d site none = not (is_empty site && shows_token d.token r.csrf)

unfoldable pub forged : SessionAuth → Request → Data → Bool
forged a r d =
    if is_safe r.method || is_own_site (site_of r.site)
    then false
    else from_origin a r d (site_of r.site) r.origin

-- What `authenticate` gives: `None`, a `403`, or a principal.
pub data Outcome : Type 0 where
  nothing refused : Outcome
  found : Principal → Outcome

abbrev pub plain : ℕ → ℕ → Principal
plain name value = record { subject = value; scheme = name; scopes = []; roles = [] }

abbrev pub as_outcome : ℕ → ℕ → Loaded → Outcome
as_outcome name value nobody = nothing
as_outcome name value (known who) = found who
as_outcome name value user = found (plain name value)

-- What is returned or raised, and the values that `load` was called with.
abbrev pub loaded : SessionAuth → ℕ → Option (ℕ → Loaded) → Outcome × List ℕ
loaded a value none = (found (plain a.name value), [])
loaded a value (some load) = (as_outcome a.name value (load value), value ∷ [])

abbrev pub with_value : SessionAuth → Request → Data → Option ℕ → Outcome × List ℕ
with_value a r d none = (nothing, [])
with_value a r d (some value) =
    if a.csrf && forged a r d then (refused, []) else loaded a value a.load

abbrev pub from_cookie : SessionAuth → Request → Option Text → Outcome × List ℕ
from_cookie a r none = (nothing, [])
from_cookie a r (some []) = (nothing, [])
from_cookie a r (some (c ∷ raw)) = with_value a r (a.decode (c ∷ raw)) (a.decode (c ∷ raw)).value

unfoldable pub authenticate : SessionAuth → Request → Outcome × List ℕ
authenticate a r = from_cookie a r r.cookie
