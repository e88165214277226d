-- ===== src/Oidc/Safety.antt =====
-- `_parse`, `_pick` and the checks of `find`: which key a token is checked with.
use oxbrook.Prelude.{
  ℕ, ◌≡◌, ◌⊎◌, inl, inr, refl, ap, subst, Bool, true, false, Option, none, some, is_some, List, [],
  ◌∷◌, ==_iff, if◌then◌else◌, arith, All, All-append, Bool-cases,
}
use oxbrook.Oidc.Fit.{IsForChecking, is_usable-IsForChecking, IsFit, fits-IsFit}
use oxbrook.Oidc.Keys.{
  compatible, KeyId, absent, text, no_text, Jwk, Entry, Keys, same_id, entry_at, is_usable, insert,
  insert_at, parse, pick, key, fits, use_entry,
}

abbrev pub Any : (Jwk → Type 0) → List Jwk → Type 0
Any P [] = ⊥
Any P (jwk ∷ jwks) = P jwk ⊎ Any P jwks

abbrev pub id_of : Option ℕ → KeyId
id_of none = absent
id_of (some kid) = text kid

-- A kept entry and the member of the set that it was read from.
abbrev pub IsSource : Option ℕ → Entry → Jwk → Type 0
IsSource kid e jwk =
    IsForChecking jwk
    × (jwk.kid ≡ id_of kid)
    × (jwk.read ≡ some e.key)
    × (jwk.kty ≡ e.kty)
    × (jwk.crv ≡ e.crv)
    × (jwk.alg ≡ e.alg)

module _ (Q : Option ℕ × Entry → Type 0) where
  All-insert :
      (kid : Option ℕ) (jwk : Jwk) (read : Option ℕ) (kept : Keys × List ℕ)
      → jwk.read ≡ read
      → jwk.kid ≡ id_of kid
      → is_usable jwk ≡ true
      → ((j : Option ℕ) (e : Entry) → IsSource j e jwk → Q (j, e))
      → All Q kept.0
      → All Q (insert kid jwk read kept).0
  All-insert kid jwk none kept r i u q h = h
  All-insert kid jwk (some k) (keys, seen) r i u q h =
      elim (Bool-cases (is_some (entry_at kid keys))) [
        | inl e ↦ rw e h
        | inr e ↦ rw e (
            All-append Q keys _ h (
              q kid (record { kty = jwk.kty; crv = jwk.crv; alg = jwk.alg; key = k })
                  (is_usable-IsForChecking jwk u, i, r, refl, refl, refl),
              tt,
            ))
      ]

  All-insert_at :
      (kid : KeyId) (jwk : Jwk) (kept : Keys × List ℕ)
      → jwk.kid ≡ kid
      → is_usable jwk ≡ true
      → ((j : Option ℕ) (e : Entry) → IsSource j e jwk → Q (j, e))
      → All Q kept.0
      → All Q (insert_at kid jwk kept).0
  All-insert_at absent jwk kept i u q h = All-insert none jwk jwk.read kept refl i u q h
  All-insert_at (text kid) jwk kept i u q h = All-insert (some kid) jwk jwk.read kept refl i u q h
  All-insert_at no_text jwk kept i u q h = h

  All-parse :
      (jwks : List Jwk) (kept : Keys × List ℕ)
      → ((j : Option ℕ) (e : Entry) → Any (IsSource j e) jwks → Q (j, e))
      → All Q kept.0
      → All Q (parse jwks kept).0
  unfolding parse
  All-parse [] kept q h = h
  All-parse (jwk ∷ jwks) kept q h =
      go (is_usable jwk) refl (λ k i. All-parse jwks k (λ j e a. q j e (inr a)) i)
    where
      go :
          (b : Bool)
          → is_usable jwk ≡ b
          → ((k : Keys × List ℕ) → All Q k.0 → All Q (parse jwks k).0)
          → All Q (parse jwks (if b then insert_at jwk.kid jwk kept else kept)).0
      go true u rest =
          rest (insert_at jwk.kid jwk kept)
            (All-insert_at jwk.kid jwk kept refl u (λ j e s. q j e (inl s)) h)
      go false u rest = rest kept h

same_id-eq : (i j : Option ℕ) → same_id i j ≡ true → i ≡ j
same_id-eq none none h = refl
same_id-eq none (some j) h = absurd cc
same_id-eq (some i) none h = absurd cc
same_id-eq (some i) (some j) h = ap some ((==_iff i j).0 h)

-- Whose id an entry has that was picked for a token's.
abbrev pub IsPicked : Option ℕ → Option ℕ → Type 0
IsPicked none j = Unit
IsPicked (some kid) j = j ≡ some kid

entry_at-All :
    (Q : Option ℕ × Entry → Type 0) (kid : Option ℕ) (e : Entry) (keys : Keys)
    → All Q keys
    → entry_at kid keys ≡ some e
    → Q (kid, e)
entry_at-All Q kid e [] h p = absurd cc
entry_at-All Q kid e ((j, d) ∷ keys) (q, h) p = elim (Bool-cases (same_id j kid)) [
  | inl b ↦
      let i = same_id-eq j kid b in
      let same : (j, d) ≡ (kid, e) = ground (arith, i) in subst Q same q
  | inr b ↦ entry_at-All Q kid e keys h (ground arith)
]

pick-All :
    (Q : Option ℕ × Entry → Type 0) (kid : Option ℕ) (e : Entry) (keys : Keys)
    → All Q keys
    → pick keys kid ≡ some e
    → (j : Option ℕ) × IsPicked kid j × Q (j, e)
unfolding pick
pick-All Q (some kid) e keys h p = (some kid, refl, entry_at-All Q (some kid) e keys h p)
pick-All Q none e [] h p = absurd cc
pick-All Q none e ((j, d) ∷ []) (q, h) p =
    (j, tt, (let same : d ≡ e = cc in subst (λ x. Q (j, x)) same q))
pick-All Q none e (_ ∷ _ ∷ _) h p = absurd cc

pub use_entry-key :
    (alg k : ℕ) (o : Option Entry)
    → use_entry alg o ≡ key k
    → (e : Entry) × (o ≡ some e) × (e.key ≡ k) × (fits alg (compatible alg) e ≡ true)
unfolding use_entry
use_entry-key alg k none h = absurd cc
use_entry-key alg k (some e) h = elim (Bool-cases (fits alg (compatible alg) e)) [
  | inl b ↦ (e, refl, ground arith, b)
  | inr b ↦ absurd (ground arith)
]

-- The member of a key set that a token's algorithm and key id were given as the key `k`.
abbrev pub IsKeyOf : ℕ → Option ℕ → ℕ → List Jwk → Type 0
IsKeyOf alg kid k jwks =
    (j : Option ℕ) × (e : Entry) × IsPicked kid j
    × Any (IsSource j e) jwks
    × (e.key ≡ k)
    × IsFit alg e

-- A token is only ever checked with a key that the key set publishes for checking signatures, under
-- the key id that the token names if it names one, of the type and on a curve of the token's
-- algorithm, and not kept for another algorithm.
pub use_entry-parse :
    (alg k : ℕ) (kid : Option ℕ) (jwks : List Jwk)
    → use_entry alg (pick (parse jwks ([], [])).0 kid) ≡ key k
    → IsKeyOf alg kid k jwks
use_entry-parse alg k kid jwks h =
    let keys = (parse jwks ([], [])).0 in
    let (e, p, same, f) = use_entry-key alg k (pick keys kid) h in
    let (j, i, a) =
      pick-All (λ (j, d). Any (IsSource j d) jwks) kid e keys
        (All-parse (λ (j, d). Any (IsSource j d) jwks) jwks ([], []) (λ j d a. a) tt) p in
    (j, e, i, a, same, fits-IsFit alg e f)
