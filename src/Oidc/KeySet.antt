-- ===== src/Oidc/KeySet.antt =====
-- `KeySet` of python/oxbrook/_jwks.py. The fetch itself runs on a thread: it is started at one moment
-- and completes at another, and a request that waits for it goes on at a third.
use oxbrook.Prelude.{
  is_in, subset, ℕ, suc, ◌-◌, Bool, true, false, ◌&&◌, not, Option, none, some, is_some, List, [],
  ◌∷◌, ◌==◌, ltb, if◌then◌else◌, keep_if,
}
use oxbrook.Oidc.Keys.{
  Keys, Entry, Jwk, parse, compatible, all_algorithms, pick, Answer, refused, unavailable,
  use_entry,
}

-- Times are milliseconds.
abbrev pub refetch_interval : ℕ
refetch_interval = 60000

abbrev pub retry_interval : ℕ
retry_interval = 5000

pub record KeySet : Type 0 where
  pub issuer : ℕ
  pub max_age : ℕ
  -- the algorithms that were given, if any
  pub explicit : Option (List ℕ)
  pub keys : Option Keys
  pub algorithms : List ℕ
  pub jwks_uri : Option ℕ
  pub fingerprint : List ℕ
  pub fetched : ℕ
  pub attempted : Option ℕ
  pub fetching : Bool
  pub fetches : ℕ

abbrev pub or_empty : Option (List ℕ) → List ℕ
or_empty none = []
or_empty (some algorithms) = algorithms

unfoldable pub create : ℕ → ℕ → Option (List ℕ) → KeySet
create issuer max_age explicit = record {
  issuer = issuer;
  max_age = max_age;
  explicit = explicit;
  keys = none;
  algorithms = or_empty explicit;
  jwks_uri = none;
  fingerprint = [];
  fetched = 0;
  attempted = none;
  fetching = false;
  fetches = 0;
}

abbrev pub is_recent : ℕ → ℕ → Option ℕ → Bool
is_recent now spacing none = false
is_recent now spacing (some attempted) = ltb (now - attempted) spacing

-- `_start`, and whether there is a fetch to wait for: whether one is in flight, and whether one was
-- started too recently, decide.
abbrev pub start_if : ℕ → Bool → Bool → KeySet → KeySet × Bool
start_if now true _ s = (s, true)
start_if now false true s = (s, false)
start_if now false false s =
    (record s { attempted = some now; fetches = suc s.fetches; fetching = true }, true)

unfoldable pub start : ℕ → ℕ → KeySet → KeySet × Bool
start now spacing s = start_if now s.fetching (is_recent now spacing s.attempted) s

-- A discovery document.
pub record Document : Type 0 where
  pub issuer : ℕ
  pub jwks_uri : Option ℕ
  pub advertised : Option (List ℕ)

abbrev pub accepted : Option (List ℕ) → Option (List ℕ) → Option (List ℕ)
accepted (some explicit) advertised = some explicit
accepted none none = some all_algorithms
accepted none (some advertised) = elim (keep_if (λ a. is_some (compatible a)) advertised) [
  | [] ↦ none
  | a ∷ algorithms ↦ some (a ∷ algorithms)
]

abbrev with_uri : Option ℕ → Option (List ℕ) → (ℕ → Bool) → Option (ℕ × List ℕ)
with_uri none algorithms is_allowed = none
with_uri (some uri) none is_allowed = none
with_uri (some uri) (some algorithms) is_allowed =
    if is_allowed uri then some (uri, algorithms) else none

-- `_discover`; `check_url` is the predicate of URLs
unfoldable pub discover : (ℕ → Bool) → Option Document → KeySet → Option (ℕ × List ℕ)
discover is_allowed none s = none
discover is_allowed (some document) s =
    if document.issuer == s.issuer
    then with_uri document.jwks_uri (accepted s.explicit document.advertised) is_allowed
    else none

abbrev pub located : (ℕ → Bool) → Option Document → KeySet → Option ℕ → Option (ℕ × List ℕ)
located is_allowed document s (some uri) = some (uri, s.algorithms)
located is_allowed document s none = discover is_allowed document s

-- What the network gave: the document, if it was read, and the key set, if it was.
pub record Network : Type 0 where
  pub is_allowed : ℕ → Bool
  pub document : Option Document
  pub key_set : ℕ → Option (List Jwk)

pub record Fetched : Type 0 where
  pub keys : Keys
  pub fingerprint : List ℕ
  pub uri : ℕ
  pub algorithms : List ℕ

abbrev pub usable : ℕ → List ℕ → Keys × List ℕ → Option Fetched
usable uri algorithms ([], seen) = none
usable uri algorithms (k ∷ keys, seen) =
    some (record { keys = k ∷ keys; fingerprint = seen; uri = uri; algorithms = algorithms })

abbrev pub parsed : ℕ → List ℕ → Option (List Jwk) → Option Fetched
parsed uri algorithms none = none
parsed uri algorithms (some jwks) = usable uri algorithms (parse jwks ([], []))

abbrev pub at_location : Network → Option (ℕ × List ℕ) → Option Fetched
at_location net none = none
at_location net (some (uri, algorithms)) = parsed uri algorithms (net.key_set uri)

unfoldable pub fetch : Network → KeySet → Option Fetched
fetch net s = at_location net (located net.is_allowed net.document s s.jwks_uri)

-- The end of `_fetch`, and whether the keys changed, so that the remembered tokens are forgotten.
abbrev pub on_fetched : ℕ → Option Fetched → KeySet → KeySet × Bool
on_fetched now none s = (record s { fetching = false }, false)
on_fetched now (some f) s = (
  record s {
    keys = some f.keys;
    algorithms = f.algorithms;
    jwks_uri = some f.uri;
    fingerprint = f.fingerprint;
    fetched = now;
    fetching = false;
  },
  is_some s.keys && not (subset f.fingerprint s.fingerprint && subset s.fingerprint f.fingerprint),
)

unfoldable pub complete : ℕ → Network → KeySet → KeySet × Bool
complete now net s = on_fetched now (fetch net s) s

-- `-inf > fetched` is false
abbrev pub has_failed : Option ℕ → ℕ → Bool
has_failed none fetched = false
has_failed (some attempted) fetched = ltb fetched attempted

unfoldable pub refresh_if_stale : ℕ → KeySet → KeySet
refresh_if_stale now s =
    if is_some s.keys && ltb s.max_age (now - s.fetched)
    then (start now (if has_failed s.attempted s.fetched then retry_interval else 0) s).0
    else s

-- How far `find` comes: to an answer, or to waiting for a fetch, with or without keys in hand.
pub data Found : Type 0 where
  answers : Answer → Found
  waits_for_keys waits_for_key : Found

abbrev pub after_start : Found → KeySet × Bool → KeySet × Found
after_start otherwise (s, true) = (s, otherwise)
after_start otherwise (s, false) = (s, answers unavailable)

abbrev pub after_refetch : KeySet × Bool → KeySet × Found
after_refetch (s, true) = (s, waits_for_key)
after_refetch (s, false) = (s, answers refused)

abbrev pub picked : ℕ → Option ℕ → ℕ → Option Entry → KeySet → KeySet × Found
picked now kid alg (some e) s = (s, answers (use_entry alg (some e)))
picked now none alg none s = (s, answers refused)
picked now (some kid) alg none s = after_refetch (start now refetch_interval s)

abbrev pub if_accepted : Bool → KeySet → KeySet × Found → KeySet × Found
if_accepted true s found = found
if_accepted false s found = (s, answers refused)

unfoldable pub with_keys : ℕ → Option ℕ → ℕ → Keys → KeySet → KeySet × Found
with_keys now kid alg keys s =
    if_accepted (is_in alg s.algorithms) s (picked now kid alg (pick keys kid) s)

abbrev pub find_from : ℕ → Option ℕ → ℕ → Option Keys → KeySet → KeySet × Found
find_from now kid alg none s = after_start waits_for_keys (start now retry_interval s)
find_from now kid alg (some keys) s = with_keys now kid alg keys (refresh_if_stale now s)

-- `find`, up to where it answers or waits
unfoldable pub find : ℕ → Option ℕ → ℕ → KeySet → KeySet × Found
find now kid alg s = find_from now kid alg s.keys s

-- How it goes on: with the keys of the fetch it waited for, if that did not fail.
unfoldable pub resume_first : ℕ → Option ℕ → ℕ → Option Keys → KeySet → KeySet × Found
resume_first now kid alg none s = (s, answers unavailable)
resume_first now kid alg (some keys) s = with_keys now kid alg keys s

abbrev pub keys_or : Option Keys → Option Keys → Keys
keys_or (some keys) held = keys
keys_or none (some held) = held
keys_or none none = []

unfoldable pub resume_unknown : Option ℕ → ℕ → Option Keys → KeySet → Answer
resume_unknown kid alg keys s = use_entry alg (pick (keys_or keys s.keys) kid)

-- `discovered`, up to where it waits
unfoldable pub discovered : ℕ → KeySet → KeySet
discovered now s = if is_some s.jwks_uri then s else (start now retry_interval s).0

-- `load`, up to where it waits: a fetch with no spacing
unfoldable pub load : ℕ → KeySet → KeySet
load now s = (start now 0 s).0
