-- ===== src/Oidc/Keys.antt =====
-- `COMPATIBLE`, `_parse`, `_pick` and the checks of `KeySet.find` on an entry.
use oxbrook.Prelude.{
  is_in, ℕ, Bool, true, false, ◌&&◌, ◌||◌, Option, none, some, List, [], ◌∷◌, ◌++◌, ◌==◌, leb,
  if◌then◌else◌, is_some,
}

abbrev pub rsa : ℕ
rsa = 1

abbrev pub ec : ℕ
ec = 2

abbrev pub okp : ℕ
okp = 3

-- The type of a key and the curves, which an algorithm may be used with.
unfoldable pub compatible : ℕ → Option (ℕ × Option (List ℕ))
compatible alg =
    if leb alg 5
    then some (rsa, none)
    else if alg == 6
    then some (ec, some (1 ∷ []))
    else if alg == 7
    then some (ec, some (2 ∷ []))
    else if alg == 8
    then some (ec, some (3 ∷ []))
    else if alg == 9
    then some (ec, some (4 ∷ []))
    else if alg == 10
    then some (okp, some (5 ∷ 6 ∷ []))
    else none

abbrev pub all_algorithms : List ℕ
all_algorithms = 0 ∷ 1 ∷ 2 ∷ 3 ∷ 4 ∷ 5 ∷ 6 ∷ 7 ∷ 8 ∷ 9 ∷ 10 ∷ []

-- The `kid` of a key: none, a text, or a value that is no text.
pub data KeyId : Type 0 where
  absent : KeyId
  text : ℕ → KeyId
  no_text : KeyId

-- A member of the set that is a JSON object: `use`, where `sig` is 0; `key_ops`, if it is a list, where
-- `verify` is 0; its text with sorted keys; and what PyJWT makes of it.
pub record Jwk : Type 0 where
  pub use_of : Option ℕ
  pub kty : ℕ
  pub operations : Option (List ℕ)
  pub alg : Option ℕ
  pub kid : KeyId
  pub crv : Option ℕ
  pub dumped : ℕ
  pub read : Option ℕ

pub record Entry : Type 0 where
  pub kty : ℕ
  pub crv : Option ℕ
  pub alg : Option ℕ
  pub key : ℕ

abbrev pub Keys : Type 0
Keys = List (Option ℕ × Entry)

abbrev pub same_id : Option ℕ → Option ℕ → Bool
same_id none none = true
same_id none (some _) = false
same_id (some _) none = false
same_id (some j) (some k) = j == k

abbrev pub entry_at : Option ℕ → Keys → Option Entry
entry_at kid [] = none
entry_at kid ((j, e) ∷ keys) = if same_id j kid then some e else entry_at kid keys

-- The guards of `_parse`, in order.
abbrev pub is_sig : Option ℕ → Bool
is_sig none = true
is_sig (some u) = u == 0

abbrev pub may_verify : Option (List ℕ) → Bool
may_verify none = true
may_verify (some operations) = is_in 0 operations

abbrev pub is_known : Option ℕ → Bool
is_known none = true
is_known (some alg) = is_some (compatible alg)

abbrev pub is_public : ℕ → Bool
is_public kty = kty == rsa || (kty == ec || kty == okp)

unfoldable pub is_usable : Jwk → Bool
is_usable jwk =
    (is_sig jwk.use_of && is_public jwk.kty) && (may_verify jwk.operations && is_known jwk.alg)

abbrev pub insert : Option ℕ → Jwk → Option ℕ → Keys × List ℕ → Keys × List ℕ
insert kid jwk none (keys, seen) = (keys, seen)
insert kid jwk (some key) (keys, seen) = if is_some (entry_at kid keys) then (keys, seen) else (
  keys ++ (kid, record { kty = jwk.kty; crv = jwk.crv; alg = jwk.alg; key = key }) ∷ [],
  jwk.dumped ∷ seen,
)

abbrev pub insert_at : KeyId → Jwk → Keys × List ℕ → Keys × List ℕ
insert_at absent jwk kept = insert none jwk jwk.read kept
insert_at (text kid) jwk kept = insert (some kid) jwk jwk.read kept
insert_at no_text jwk kept = kept

unfoldable pub parse : List Jwk → Keys × List ℕ → Keys × List ℕ
unfolding is_usable
parse [] kept = kept
parse (jwk ∷ jwks) kept = parse jwks (if is_usable jwk then insert_at jwk.kid jwk kept else kept)

-- A token without a key id is checked only against a set of one.
unfoldable pub pick : Keys → Option ℕ → Option Entry
pick keys (some kid) = entry_at (some kid) keys
pick [] none = none
pick ((_, e) ∷ []) none = some e
pick (_ ∷ _ ∷ _) none = none

-- What a token gets: a key, a refusal, or no keys to check it with.
pub data Answer : Type 0 where
  key : ℕ → Answer
  refused unavailable : Answer

abbrev pub on_curve : Option (List ℕ) → Option ℕ → Bool
on_curve none crv = true
on_curve (some curves) none = false
on_curve (some curves) (some crv) = is_in crv curves

abbrev pub same_alg : Option ℕ → ℕ → Bool
same_alg none alg = true
same_alg (some key_alg) alg = key_alg == alg

abbrev pub fits : ℕ → Option (ℕ × Option (List ℕ)) → Entry → Bool
fits alg none e = false
fits alg (some (kty, curves)) e = e.kty == kty && (on_curve curves e.crv && same_alg e.alg alg)

-- The last checks of `find`; an algorithm that was accepted is in `COMPATIBLE`.
unfoldable pub use_entry : ℕ → Option Entry → Answer
use_entry alg none = refused
use_entry alg (some e) = if fits alg (compatible alg) e then key e.key else refused
