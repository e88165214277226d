-- ===== src/Auth/Remembering.antt =====
-- `_Signed.check` beside a verifier without a memory.
use oxbrook.Prelude.{
  ℕ, zero, suc, ◌+◌, ◌/◌, ◌≤◌, ◌<◌, ◌≡◌, ◌≢◌, refl, sym, ap, subst, max, false, Option, none, some,
  List, [], ◌∷◌, ◌==◌, ==_iff, leb, length, drop, arith, Bool-cases, inl, inr, length-drop, All,
}
use oxbrook.Auth.Policy.{Principal}
use oxbrook.Auth.Tokens.{
  Entry, Memory, find, erase, store, trim, remember, keep, verified_now, check_found, check,
}

-- What a library that verifies tokens does while the keys stay the same: a token was issued with an
-- expiry and a principal, or was not, and is accepted until its expiry and the leeway are over.
pub record IsVerifier (leeway : ℕ) (issued : ℕ → Option (ℕ × Principal))
    (verify : ℕ → ℕ → Option (ℕ × Principal)) : Type 0 where
  pub sound :
      (now token exp : ℕ) (who : Principal)
      → verify now token ≡ some (exp, who)
      → (issued token ≡ some (exp, who)) × (now < exp + leeway)
  pub complete :
      (now token exp : ℕ) (who : Principal)
      → issued token ≡ some (exp, who)
      → now < exp + leeway
      → verify now token ≡ some (exp, who)

-- An entry is of a token that was issued so.
abbrev pub IsIssued : ℕ → (ℕ → Option (ℕ × Principal)) → Entry → Type 0
IsIssued leeway issued e =
    (exp : ℕ) × (issued e.token ≡ some (exp, e.who)) × (e.until ≡ exp + leeway)

abbrev pub IsSound : (ℕ → Option (ℕ × Principal)) → Memory → Type 0
IsSound issued m = All (IsIssued m.leeway issued) m.verified × (length m.verified ≤ m.cache_size)

abbrev pub answer : Option (ℕ × Principal) → Option Principal
answer none = none
answer (some (_, who)) = some who

-- The clock does not stand at the very end of the token's time.
abbrev pub IsOff : ℕ → (ℕ → Option (ℕ × Principal)) → ℕ → ℕ → Type 0
IsOff leeway issued now token =
    (exp : ℕ) (who : Principal) → issued token ≡ some (exp, who) → now ≢ exp + leeway

module _ (P : Entry → Type 0) where
  All-drop : (n : ℕ) (es : List Entry) → All P es → All P (drop n es)
  All-drop zero es h = h
  All-drop (suc n) [] h = h
  All-drop (suc n) (e ∷ es) (p, h) = All-drop n es h

  All-store : (n : Entry) (es : List Entry) → P n → All P es → All P (store n es)
  All-store n [] p h = (p, tt)
  All-store n (e ∷ es) p (q, h) = ground (arith, All-store n es p h)

  All-erase : (t : ℕ) (es : List Entry) → All P es → All P (erase t es)
  All-erase t [] h = h
  All-erase t (e ∷ es) (q, h) = ground (arith, All-erase t es h)

  abbrev OfToken : ℕ → Option Entry → Type 0
  OfToken t none = Unit
  OfToken t (some e) = P e × (e.token ≡ t)

  find-OfToken : (t : ℕ) (es : List Entry) → All P es → OfToken t (find t es)
  find-OfToken t [] h = tt
  find-OfToken t (d ∷ es) (q, h) = elim (Bool-cases (d.token == t)) [
    | inl e ↦ rw e (q, (==_iff d.token t).0 e)
    | inr e ↦ rw e (find-OfToken t es h)
  ]

length-store-le : (n : Entry) (es : List Entry) → length (store n es) ≤ suc (length es)
length-store-le n [] = omega arith
length-store-le n (e ∷ es) = ground (arith, length-store-le n es)

length-erase-le : (t : ℕ) (es : List Entry) → length (erase t es) ≤ length es
length-erase-le t [] = omega arith
length-erase-le t (e ∷ es) = ground (arith, length-erase-le t es)

All-trim : (P : Entry → Type 0) (size : ℕ) (es : List Entry) → All P es → All P (trim size es)
unfolding trim
All-trim P size es h = ground (arith, h, All-drop P (max 1 (size / 4)) es h)

length-trim-lt :
    (size : ℕ) (es : List Entry)
    → (size == 0) ≡ false
    → length es ≤ size
    → length (trim size es) < size
unfolding trim
length-trim-lt size es p h = ground (arith, length-drop (max 1 (size / 4)) es)

module _ (leeway : ℕ) (issued : ℕ → Option (ℕ × Principal))
    (verify : ℕ → ℕ → Option (ℕ × Principal)) (v : IsVerifier leeway issued verify) where
  keep-IsSound :
      (token exp : ℕ) (who : Principal) (m : Memory)
      → m.leeway ≡ leeway
      → issued token ≡ some (exp, who)
      → IsSound issued m
      → IsSound issued (keep token (exp, who) m) × ((keep token (exp, who) m).leeway ≡ leeway)
  unfolding keep remember
  keep-IsSound token exp who m l i (a, b) = elim (Bool-cases (m.cache_size == 0)) [
    | inl e ↦ rw e ((a, b), l)
    | inr e ↦
        let n : Entry = record { token = token; until = exp + m.leeway; who = who } in
        let es = trim m.cache_size m.verified in
        rw e (
          (
            All-store (IsIssued m.leeway issued) n es (exp, i, refl)
                (All-trim (IsIssued m.leeway issued) m.cache_size m.verified a),
            omega (arith, length-store-le n es, length-trim-lt m.cache_size m.verified e b),
          ),
          l,
        )
  ]

  verified_now-lem :
      (now token : ℕ) (m : Memory)
      → m.leeway ≡ leeway
      → IsSound issued m
      → ((verified_now token (verify now token) m).1 ≡ answer (verify now token))
        × IsSound issued (verified_now token (verify now token) m).0
        × ((verified_now token (verify now token) m).0.leeway ≡ leeway)
  verified_now-lem now token m l s = go (verify now token) refl
    where
      go :
          (o : Option (ℕ × Principal))
          → verify now token ≡ o
          → ((verified_now token o m).1 ≡ answer o)
            × IsSound issued (verified_now token o m).0
            × ((verified_now token o m).0.leeway ≡ leeway)
      go none e = (refl, s, l)
      go (some (exp, who)) e =
          let k = keep-IsSound token exp who m l (v.sound now token exp who e).0 s in
          (refl, k.0, k.1)

  -- A check answers what verifying at that moment would answer, while every token that the memory
  -- holds was issued so, and leaves such a memory; the one instant at which an expiry and the leeway
  -- are just over is left out.
  check-lem :
      (now token : ℕ) (m : Memory)
      → m.leeway ≡ leeway
      → IsSound issued m
      → IsOff leeway issued now token
      → ((check verify now token m).1 ≡ answer (verify now token))
        × IsSound issued (check verify now token m).0
        × ((check verify now token m).0.leeway ≡ leeway)
  unfolding check
  check-lem now token m l s off =
      go (find token m.verified) refl (find-OfToken (IsIssued m.leeway issued) token m.verified s.0)
    where
      go :
          (o : Option Entry)
          → find token m.verified ≡ o
          → OfToken (IsIssued m.leeway issued) token o
          → ((check_found verify now token o m).1 ≡ answer (verify now token))
            × IsSound issued (check_found verify now token o m).0
            × ((check_found verify now token o m).0.leeway ≡ leeway)
      go none _ _ = verified_now-lem now token m l s
      go (some e) _ ((exp, i, u), t) = elim (Bool-cases (leb now e.until)) [
        | inl b ↦
            let i2 : issued token ≡ some (exp, e.who) =
              subst (λ x. issued x ≡ some (exp, e.who)) t i in
            let h = v.complete now token exp e.who i2 (ground (arith, off exp e.who i2)) in
            rw b (ap answer (sym h), s, l)
        | inr b ↦ rw b (
            verified_now-lem now token (record m { verified = erase token m.verified }) l
              (
                All-erase (IsIssued m.leeway issued) token m.verified s.0,
                omega (arith, length-erase-le token m.verified, s.1),
              ))
      ]

-- Checks one after another, with what each answered.
abbrev pub checks :
    (ℕ → ℕ → Option (ℕ × Principal)) → List (ℕ × ℕ) → Memory → Memory × List (Option Principal)
checks verify [] m = (m, [])
checks verify ((now, token) ∷ cs) m =
    let a = check verify now token m in let r = checks verify cs a.0 in (r.0, a.1 ∷ r.1)

abbrev pub answers : (ℕ → ℕ → Option (ℕ × Principal)) → List (ℕ × ℕ) → List (Option Principal)
answers verify [] = []
answers verify ((now, token) ∷ cs) = answer (verify now token) ∷ answers verify cs

abbrev pub AreOff : ℕ → (ℕ → Option (ℕ × Principal)) → ℕ × ℕ → Type 0
AreOff leeway issued (now, token) = IsOff leeway issued now token

-- Over any checks of any tokens at any times, a memory that starts empty changes no answer: each
-- is what verifying the token at that moment gives. And the memory never holds more than
-- cache_size tokens. The verifier accepts a token exactly while its issued expiry and the leeway
-- lie ahead, and no check falls on the instant at which they end.
pub checks-answers :
    (leeway size : ℕ) (issued : ℕ → Option (ℕ × Principal))
    (verify : ℕ → ℕ → Option (ℕ × Principal)) (cs : List (ℕ × ℕ))
    → IsVerifier leeway issued verify
    → All (AreOff leeway issued) cs
    → ((checks verify cs (record { verified = []; cache_size = size; leeway = leeway })).1
        ≡ answers verify cs)
      × IsSound issued
          (checks verify cs (record { verified = []; cache_size = size; leeway = leeway })).0
checks-answers leeway size issued verify cs v off =
    go cs off (record { verified = []; cache_size = size; leeway = leeway }) refl (tt, omega arith)
  where
    go :
        (cs : List (ℕ × ℕ))
        → All (AreOff leeway issued) cs
        → (m : Memory) → m.leeway ≡ leeway
        → IsSound issued m
        → ((checks verify cs m).1 ≡ answers verify cs) × IsSound issued (checks verify cs m).0
    go [] _ m l s = (refl, s)
    go ((now, token) ∷ cs) (o, os) m l s =
        let c = check-lem leeway issued verify v now token m l s o in
        let r = go cs os (check verify now token m).0 c.2 c.1 in (rw (c.0, r.0) refl, r.1)
