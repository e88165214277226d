-- ===== src/Oidc/Fit.antt =====
-- Which published keys are for checking signatures, and with which algorithm: the description that
-- `_parse` and `find` are compared with.
use oxbrook.Prelude.{
  ℕ, ◌≡◌, ◌⊎◌, inl, inr, refl, ap, true, Option, none, some, List, ◌==◌, ==_iff, arith, is_in,
  Bool-cases,
}
use oxbrook.Oidc.Keys.{
  rsa, ec, okp, compatible, Jwk, Entry, is_sig, may_verify, is_public, is_usable, on_curve,
  same_alg, fits,
}

-- A published key that is for checking signatures: its `use` and its operations say no other, and its
-- type is one of public keys.
abbrev pub MayVerify : Option (List ℕ) → Type 0
MayVerify none = Unit
MayVerify (some operations) = is_in 0 operations ≡ true

pub record IsForChecking (jwk : Jwk) : Type 0 where
  pub sig : (jwk.use_of ≡ none) ⊎ (jwk.use_of ≡ some 0)
  pub public_type : (jwk.kty ≡ rsa) ⊎ ((jwk.kty ≡ ec) ⊎ (jwk.kty ≡ okp))
  pub verifies : MayVerify jwk.operations

pub is_usable-IsForChecking : (jwk : Jwk) → is_usable jwk ≡ true → IsForChecking jwk
unfolding is_usable
is_usable-IsForChecking jwk h = record {
  sig = go_sig jwk.use_of (ground (arith, h));
  public_type = go_type jwk.kty (ground (arith, h));
  verifies = go jwk.operations (ground (arith, h));
}
  where
    go_type : (k : ℕ) → is_public k ≡ true → (k ≡ rsa) ⊎ ((k ≡ ec) ⊎ (k ≡ okp))
    go_type k e = elim (Bool-cases (k == rsa)) [
      | inl a ↦ inl ((==_iff k rsa).0 a)
      | inr a ↦ elim (Bool-cases (k == ec)) [
        | inl b ↦ inr (inl ((==_iff k ec).0 b))
        | inr b ↦ inr (inr (ground (arith, e, a, b)))
      ]
    ]

    go_sig : (u : Option ℕ) → is_sig u ≡ true → (u ≡ none) ⊎ (u ≡ some 0)
    go_sig none e = inl refl
    go_sig (some u) e = inr (ap some ((==_iff u 0).0 e))

    go : (o : Option (List ℕ)) → may_verify o ≡ true → MayVerify o
    go none e = tt
    go (some operations) e = e

-- A kept key that an algorithm may be used with: its type, its curve, and its own algorithm if it
-- has one.
abbrev pub IsOnCurve : Option (List ℕ) → Option ℕ → Type 0
IsOnCurve none crv = Unit
IsOnCurve (some curves) none = ⊥
IsOnCurve (some curves) (some crv) = is_in crv curves ≡ true

abbrev pub IsForAlg : Option ℕ → ℕ → Type 0
IsForAlg none alg = Unit
IsForAlg (some key_alg) alg = key_alg ≡ alg

abbrev pub IsFit : ℕ → Entry → Type 0
IsFit alg e =
    (kty : ℕ) × (curves : Option (List ℕ)) × (compatible alg ≡ some (kty, curves))
    × (e.kty ≡ kty)
    × IsOnCurve curves e.crv
    × IsForAlg e.alg alg

pub fits-IsFit : (alg : ℕ) (e : Entry) → fits alg (compatible alg) e ≡ true → IsFit alg e
fits-IsFit alg e h = go (compatible alg) refl h
  where
    on_curve_lem :
        (curves : Option (List ℕ)) (crv : Option ℕ)
        → on_curve curves crv ≡ true
        → IsOnCurve curves crv
    on_curve_lem none crv k = tt
    on_curve_lem (some curves) none k = absurd cc
    on_curve_lem (some curves) (some crv) k = k

    same_alg_lem : (o : Option ℕ) → same_alg o alg ≡ true → IsForAlg o alg
    same_alg_lem none k = tt
    same_alg_lem (some a) k = (==_iff a alg).0 k

    go : (o : Option (ℕ × Option (List ℕ))) → compatible alg ≡ o → fits alg o e ≡ true → IsFit alg e
    go none c k = absurd cc
    go (some (kty, curves)) c k = (
      kty,
      curves,
      c,
      (==_iff e.kty kty).0 (ground (arith, k)),
      on_curve_lem curves e.crv (ground (arith, k)),
      same_alg_lem e.alg (ground (arith, k)),
    )
