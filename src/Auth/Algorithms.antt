-- ===== src/Auth/Algorithms.antt =====
-- The checks of `JWT` of python/oxbrook/auth.py on its algorithms and its key.
--
-- The algorithms with a shared secret, HS256, HS384 and HS512, are 0, 1 and 2; those with a public key
-- are 3 to 13; any other name, `none` included, is unknown. A secret is its length and whether it
-- begins as a PEM key; a public key that suits none of the algorithms is PyJWT's to refuse.
use oxbrook.Prelude.{
  ℕ, ◌≤◌, ◌<◌, ◌≡◌, ◌⊎◌, inl, inr, refl, Bool, true, false, not, ◌&&◌, ◌||◌, List, [], ◌∷◌, leb,
  ltb, ◌==◌, if◌then◌else◌, all, All, arith, Bool-cases, Result, ok, raise, value_error, type_error,
  max,
}

abbrev pub is_hmac : ℕ → Bool
is_hmac a = leb a 2

abbrev pub is_known : ℕ → Bool
is_known a = leb a 13

-- `_HMAC`
abbrev pub needed : ℕ → ℕ
needed a = if a == 0 then 32 else if a == 1 then 48 else 64

abbrev pub needed_all : List ℕ → ℕ
needed_all [] = 0
needed_all (a ∷ algs) = max (needed a) (needed_all algs)

abbrev pub any_hmac : List ℕ → Bool
any_hmac [] = false
any_hmac (a ∷ algs) = is_hmac a || any_hmac algs

-- A key: a text or bytes, with its length and whether it is a PEM key, or another object.
pub data Key : Type 0 where
  secret : ℕ → Bool → Key
  other : Key

abbrev pub check_secret : List ℕ → Key → Result (List ℕ)
check_secret algorithms other = raise type_error
check_secret algorithms (secret size is_pem) =
    if is_pem || ltb size (needed_all algorithms) then raise value_error else ok algorithms

unfoldable pub create_jwt : List ℕ → Key → Result (List ℕ)
create_jwt [] key = raise value_error
create_jwt (a ∷ algs) key =
    if not (all is_known (a ∷ algs)) || (any_hmac (a ∷ algs) && not (all is_hmac (a ∷ algs)))
    then raise value_error
    else if any_hmac (a ∷ algs)
    then check_secret (a ∷ algs) key
    else ok (a ∷ algs)

-- A secret that is no PEM key and is as long as each algorithm's hash.
abbrev pub Suits : Key → List ℕ → Type 0
Suits other algs = ⊥
Suits (secret size is_pem) algs = (is_pem ≡ false) × All (λ a. (a ≤ 2) × (needed a ≤ size)) algs

all-needed :
    (size : ℕ) (algs : List ℕ)
    → all is_hmac algs ≡ true
    → needed_all algs ≤ size
    → All (λ a. (a ≤ 2) × (needed a ≤ size)) algs
all-needed size [] h l = tt
all-needed size (a ∷ algs) h l = (
  (ground (arith, h), omega (arith, l)),
  all-needed size algs (ground (arith, h)) (omega (arith, l)),
)

all-public : (algs : List ℕ) → any_hmac algs ≡ false → All (λ a. 2 < a) algs
all-public [] h = tt
all-public (a ∷ algs) h = (ground (arith, h), all-public algs (ground (arith, h)))

-- An accepted `JWT` uses shared secrets alone, and its key is one that suits each of them, or public
-- keys alone: no public key is ever a secret.
pub create_jwt-families :
    (algs bs : List ℕ) (key : Key)
    → create_jwt algs key ≡ ok bs
    → Suits key algs ⊎ All (λ a. 2 < a) algs
unfolding create_jwt
create_jwt-families [] bs key h = absurd cc
create_jwt-families (a ∷ algs) bs key h =
    go (all is_known (a ∷ algs)) (any_hmac (a ∷ algs)) (all is_hmac (a ∷ algs)) refl refl h
  where
    suits :
        (k : Key)
        → all is_hmac (a ∷ algs) ≡ true
        → check_secret (a ∷ algs) k ≡ ok bs
        → Suits k (a ∷ algs)
    suits other q e = absurd cc
    suits (secret size true) q e = absurd cc
    suits (secret size false) q e = elim (Bool-cases (ltb size (needed_all (a ∷ algs)))) [
      | inl b ↦ absurd (ground (arith, b, e))
      | inr b ↦ (refl, all-needed size (a ∷ algs) q (ground (arith, b)))
    ]

    go :
        (k u v : Bool)
        → any_hmac (a ∷ algs) ≡ u
        → all is_hmac (a ∷ algs) ≡ v
        → (if not k || (u && not v)
            then raise value_error
            else if u
            then check_secret (a ∷ algs) key
            else ok (a ∷ algs))
          ≡ ok bs
        → Suits key (a ∷ algs) ⊎ All (λ a. 2 < a) (a ∷ algs)
    go false u v p q e = absurd cc
    go true true false p q e = absurd cc
    go true true true p q e = inl (suits key q e)
    go true false v p q e = inr (all-public (a ∷ algs) p)
