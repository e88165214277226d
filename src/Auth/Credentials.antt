-- ===== src/Auth/Credentials.antt =====
-- `Bearer`, `APIKey` and `Basic` of python/oxbrook/auth.py: credentials in a header or a cookie.
--
-- The functions that verify them, the digest of a key, and base64 with UTF-8 are parameters.
use oxbrook.Prelude.{
  ℕ, ◌≡◌, ◌⊎◌, inl, inr, refl, Bool, true, false, not, ◌&&◌, ◌||◌, Option, none, some, is_some,
  List, [], ◌∷◌, ◌==◌, if◌then◌else◌, Text, codes, text_eq, Result, ok, raise, type_error,
}
use oxbrook.Auth.Policy.{Principal}
use oxbrook.Auth.Gate.{Found, nothing, wrong, found}
use oxbrook.Auth.Session.{lstrip, rstrip, lower, normal, or_text, before_comma, is_listed}

unfoldable pub strip : Text → Text
strip s = rstrip (lstrip s)

-- `str.partition` at a character: what is before it, and what is after it, if it is there.
abbrev pub onto : ℕ → Text × Option Text → Text × Option Text
onto c (a, b) = (c ∷ a, b)

abbrev pub partition : ℕ → Text → Text × Option Text
partition sep [] = ([], none)
partition sep (c ∷ s) = if c == sep then ([], some s) else onto c (partition sep s)

-- `_authorization`
abbrev pub of_kind : Text → Text × Option Text → Option Text
of_kind kind (scheme, credentials) =
    if text_eq (lower scheme) kind then some (strip (or_text credentials [])) else none

abbrev pub authorization : Text → Option Text → Option Text
authorization kind none = none
authorization kind (some header) = of_kind kind (partition 32 (strip header))

abbrev pub if_verified : Option Principal → Found
if_verified none = wrong
if_verified (some who) = found who

-- `Bearer.authenticate`, and `check`
abbrev pub bearer_token : (Text → Option Principal) → Option Text → Found
bearer_token verify none = nothing
bearer_token verify (some []) = wrong
bearer_token verify (some (c ∷ token)) = if_verified (verify (c ∷ token))

unfoldable pub bearer : (Text → Option Principal) → Option Text → Found
bearer verify header = bearer_token verify (authorization (codes "bearer") header)

-- `APIKey`, which reads one of a header and a cookie
unfoldable pub create_key : Option Text → Option Text → Result (Option Text × Option Text)
create_key header cookie =
    if is_some header && is_some cookie || not (is_some header || is_some cookie)
    then raise type_error
    else ok (header, cookie)

abbrev pub stripped_key : (Text → Text) → (Text → Option Principal) → Text → Found
stripped_key digest verify [] = wrong
stripped_key digest verify (c ∷ raw) = if_verified (verify (digest (c ∷ raw)))

unfoldable pub api_key : (Text → Text) → (Text → Option Principal) → Option Text → Found
api_key digest verify none = nothing
api_key digest verify (some raw) = stripped_key digest verify (strip raw)

-- How a request came: over TLS, and the headers that `_secure` reads.
pub record Request : Type 0 where
  pub is_tls : Bool
  pub forwarded : Option Text
  pub host : Option Text
  pub authorization_header : Option Text

-- `host.startswith("[")`, and the port of a host with one colon
abbrev pub one_colon : Text → Text × Option Text → Text
one_colon host (name, none) = host
one_colon host (name, some rest) = if is_some (partition 58 rest).1 then host else name

abbrev pub bare_host : Text → Text
bare_host [] = []
bare_host (c ∷ host) =
    if c == 91 then (partition 93 host).0 else one_colon (c ∷ host) (partition 58 (c ∷ host))

abbrev pub loopback : List Text
loopback = codes "localhost" ∷ codes "127.0.0.1" ∷ codes "::1" ∷ []

-- `_secure`
unfoldable pub secure : Request → Bool
secure r =
    r.is_tls
    || (text_eq (normal (before_comma (or_text r.forwarded []))) (codes "https")
        || is_listed (bare_host (normal (or_text r.host []))) loopback)

-- `Basic.authenticate`
abbrev pub with_password :
    (Text → Text → Option Principal) → Bool → Request → Text × Option Text → Found
with_password verify allow_http r (username, none) = wrong
with_password verify allow_http r (username, some password) =
    if not allow_http && not (secure r) then wrong else if_verified (verify username password)

abbrev pub decoded : (Text → Text → Option Principal) → Bool → Request → Option Text → Found
decoded verify allow_http r none = wrong
decoded verify allow_http r (some pair) = with_password verify allow_http r (partition 58 pair)

abbrev pub encoded :
    (Text → Option Text) → (Text → Text → Option Principal) → Bool → Request → Option Text → Found
encoded decode verify allow_http r none = nothing
encoded decode verify allow_http r (some credentials) =
    decoded verify allow_http r (decode credentials)

unfoldable pub basic :
    (Text → Option Text) → (Text → Text → Option Principal) → Bool → Request → Found
basic decode verify allow_http r =
    encoded decode verify allow_http r (authorization (codes "basic") r.authorization_header)

-- A password that crossed a network in clear text lets nobody in, where that is not allowed.
basic-secure :
    (decode : Text → Option Text) (verify : Text → Text → Option Principal) (allow_http : Bool)
    (r : Request) (who : Principal)
    → basic decode verify allow_http r ≡ found who
    → (allow_http ≡ true) ⊎ (secure r ≡ true)
unfolding basic
basic-secure decode verify allow_http r who =
    header (authorization (codes "basic") r.authorization_header)
  where
    at :
        (a b : Bool) (o : Option Principal)
        → (if not a && not b then wrong else if_verified o) ≡ found who
        → (a ≡ true) ⊎ (b ≡ true)
    at true b o h = inl refl
    at false true o h = inr refl
    at false false o h = absurd cc

    password :
        (q : Text × Option Text)
        → with_password verify allow_http r q ≡ found who
        → (allow_http ≡ true) ⊎ (secure r ≡ true)
    password (u, none) h = absurd cc
    password (u, some p) h = at allow_http (secure r) (verify u p) h

    pair :
        (o : Option Text)
        → decoded verify allow_http r o ≡ found who
        → (allow_http ≡ true) ⊎ (secure r ≡ true)
    pair none h = absurd cc
    pair (some t) h = password (partition 58 t) h

    header :
        (o : Option Text)
        → encoded decode verify allow_http r o ≡ found who
        → (allow_http ≡ true) ⊎ (secure r ≡ true)
    header none h = absurd cc
    header (some t) h = pair (decode t) h
