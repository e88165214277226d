-- ===== src/Login/Landing.antt =====
-- `_finish` over what a browser did before: where it leads.
use oxbrook.Prelude.{
  ℕ, ◌+◌, ◌-◌, ◌≤◌, ◌≡◌, ◌⊎◌, inl, inr, refl, subst, not, ◌||◌, Bool, true, false, Option, none,
  some, List, [], ◌∷◌, ◌==◌, ==_iff, leb, if◌then◌else◌, Text, arith, All, Bool-cases,
}
use oxbrook.Prelude.Dicts.{Dict, get, All-get}
use oxbrook.Login.Begin.{pending_ttl, Entry, Session, empty, live, pending}
use oxbrook.Login.Finish.{
  exchange, identify, is_nonce, with_claims, Claims, Checked, verified, unverified, unreachable,
  Callback, Step, gives, refuses, Flow, refused, redirected, iss_refused, welcomed, identified,
  exchanged, with_code, called_back, on_entry, on_state, finish,
}
use oxbrook.Login.Targets.{Call, begins, finishes, run, IsBegun, IsPath, target-IsPath}
use oxbrook.Login.Callbacks.{All-pending, AreFrom-run}

-- The provider vouched for this login: a token that it gave verifies, and has the login's nonce.
abbrev pub IsSameNonce : Option ℕ → Option ℕ → Type 0
IsSameNonce none nonce_of = ⊥
IsSameNonce (some offered) none = offered ≡ 0
IsSameNonce (some offered) (some expected) = offered ≡ expected

abbrev pub IsVouched : Flow → Option ℕ → Type 0
IsVouched f expected =
    (token : ℕ) × (claims : Claims) × (f.check token ≡ verified claims)
    × IsSameNonce claims.nonce expected

is_nonce-IsSameNonce : (o n : Option ℕ) → is_nonce o n ≡ true → IsSameNonce o n
is_nonce-IsSameNonce none n h = absurd cc
is_nonce-IsSameNonce (some a) none h = (==_iff a 0).0 h
is_nonce-IsSameNonce (some a) (some b) h = (==_iff a b).0 h

identify-IsVouched :
    (f : Flow) (tokens expected : Option ℕ) (who : ℕ)
    → identify f tokens expected ≡ gives who
    → IsVouched f expected
identify-IsVouched f none expected who h = absurd cc
identify-IsVouched f (some token) expected who h = at (f.check token) refl h
  where
    at :
        (c : Checked)
        → f.check token ≡ c
        → with_claims f expected c ≡ gives who
        → IsVouched f expected
    at unverified q k = absurd cc
    at unreachable q k = absurd cc
    at (verified claims) q k =
        let b : is_nonce claims.nonce expected ≡ true =
          elim (Bool-cases (is_nonce claims.nonce expected)) [
            | inl e ↦ e
            | inr e ↦ absurd (ground (arith, e, k))
          ] in
        (token, claims, q, is_nonce-IsSameNonce claims.nonce expected b)

identified-target :
    (f : Flow) (t u : Text) (o : Step ℕ) (s : Session)
    → (identified f t o s).1 ≡ redirected u
    → (t ≡ u) × ((who : ℕ) × (o ≡ gives who))
identified-target f t u (refuses status) s h = absurd cc
identified-target f t u (gives who) s h = (go (f.on_login who) h, (who, refl))
  where
    go : (o : Option ℕ) → (welcomed t o s).1 ≡ redirected u → t ≡ u
    go none e = absurd cc
    go (some v) e = cc

with_code-target :
    (f : Flow) (e : Entry) (u : Text) (error : Option Bool) (code : Option ℕ) (s : Session)
    → (with_code f e error code s).1 ≡ redirected u
    → (e.target ≡ u) × IsVouched f e.nonce
with_code-target f e u (some _) code s h = absurd cc
with_code-target f e u none none s h = absurd cc
with_code-target f e u none (some code) s h =
    go (exchange (f.post code e.verifier e.redirect_uri)) h
  where
    go :
        (o : Step (Option ℕ))
        → (exchanged f e o s).1 ≡ redirected u
        → (e.target ≡ u) × IsVouched f e.nonce
    go (refuses status) k = absurd cc
    go (gives tokens) k =
        let (same, (who, q)) = identified-target f e.target u (identify f tokens e.nonce) s k in
        (same, identify-IsVouched f tokens e.nonce who q)

called_back-target :
    (f : Flow) (c : Callback) (e : Entry) (u : Text) (s : Session)
    → (called_back f c e s).1 ≡ redirected u
    → (e.name ≡ f.name) × (e.target ≡ u) × IsVouched f e.nonce
called_back-target f c e u s = go (e.name == f.name) (iss_refused f.issuer_ok f.promised c.iss) refl
  where
    go :
        (a b : Bool)
        → (e.name == f.name) ≡ a
        → (if not a || b then (s, refused 400) else with_code f e c.error c.code s).1 ≡ redirected u
        → (e.name ≡ f.name) × (e.target ≡ u) × IsVouched f e.nonce
    go true true n h = absurd cc
    go true false n h =
        (let w = with_code-target f e u c.error c.code s h in
          ((==_iff e.name f.name).0 n, w.0, w.1))
    go false _ n h = absurd cc

-- The login that a callback finished.
abbrev Finished : Flow → ℕ → Callback → Session → Text → Type 0
Finished f now c s u =
    (state : ℕ) × (e : Entry) × (c.state ≡ some state)
    × (get state (pending now s.stored) ≡ some e)
    × (e.name ≡ f.name)
    × (e.target ≡ u)
    × IsVouched f e.nonce

finish-Finished :
    (f : Flow) (now : ℕ) (c : Callback) (s : Session) (u : Text)
    → (finish f now c s).1 ≡ redirected u
    → Finished f now c s u
unfolding finish
finish-Finished f now c s u h = go c.repeats c.state refl h
  where
    at :
        (state : ℕ) (o : Option Entry)
        → c.state ≡ some state
        → get state (pending now s.stored) ≡ o
        → (on_entry f c state (pending now s.stored) o s).1 ≡ redirected u
        → Finished f now c s u
    at state none q g k = absurd cc
    at state (some e) q g k =
        let r = called_back-target f c e u _ k in (state, e, q, g, r.0, r.1, r.2)

    go :
        (b : Bool) (o : Option ℕ)
        → c.state ≡ o
        → (if b then (s, refused 400) else on_state f now c o s).1 ≡ redirected u
        → Finished f now c s u
    go true o q k = absurd cc
    go false none q k = absurd cc
    go false (some state) q k = at state (get state (pending now s.stored)) q refl k

abbrev IsLive : ℕ → ℕ × Entry → Type 0
IsLive now (_, e) = now - e.began ≤ pending_ttl

live-IsLive : (now : ℕ) (found : Dict (Option Entry)) → All (IsLive now) (live now found)
live-IsLive now [] = tt
live-IsLive now ((state, none) ∷ found) = live-IsLive now found
live-IsLive now ((state, some e) ∷ found) = elim (Bool-cases (leb (now - e.began) pending_ttl)) [
  | inl b ↦ rw b (ground (arith, b), live-IsLive now found)
  | inr b ↦ rw b (live-IsLive now found)
]

pending-IsLive : (now : ℕ) (o : Option (Dict (Option Entry))) → All (IsLive now) (pending now o)
pending-IsLive now none = tt
pending-IsLive now (some found) = live-IsLive now found

-- The place that one of the calls' flows is set to lead to.
abbrev pub IsAfter : List Call → Text → Type 0
IsAfter [] t = ⊥
IsAfter (begins f _ _ _ _ _ _ ∷ ks) t = (t ≡ f.after_login) ⊎ IsAfter ks t
IsAfter (finishes _ _ _ ∷ ks) t = IsAfter ks t

IsBegun-IsPath :
    (ks : List Call) (d : ℕ × Entry) → IsBegun ks d → IsPath d.1.target ⊎ IsAfter ks d.1.target
IsBegun-IsPath [] d i = absurd i
IsBegun-IsPath (begins f now state verifier token wanted redirect ∷ ks) d (inl e) =
    subst
      (λ x.
        IsPath x.1.target
        ⊎ IsAfter (begins f now state verifier token wanted redirect ∷ ks) x.1.target)
      e (elim (target-IsPath f.after_login wanted) [ inl p ↦ inl p | inr q ↦ inr (inl q) ])
IsBegun-IsPath (begins f now state verifier token wanted redirect ∷ ks) d (inr i) =
    elim (IsBegun-IsPath ks d i) [ inl p ↦ inl p | inr q ↦ inr (inr q) ]
IsBegun-IsPath (finishes f now c ∷ ks) d i = IsBegun-IsPath ks d i

-- Whatever a browser did before, a callback that logs it in finishes a login that it began with
-- the same state and with the same provider, at most ten minutes ago, on a token that the
-- provider's verifier accepts and that has that login's nonce, and leads where that login was to:
-- to a path on this site, whatever was asked for in the link, or to where the flow is set to lead.
pub finish-IsBegun :
    (f : Flow) (now : ℕ) (c : Callback) (ks : List Call) (t : Text)
    → (finish f now c (run ks empty)).1 ≡ redirected t
    → ((state : ℕ) × (e : Entry) × (c.state ≡ some state)
        × IsBegun ks (state, e)
        × (e.name ≡ f.name)
        × (now ≤ e.began + pending_ttl)
        × (e.target ≡ t)
        × IsVouched f e.nonce)
      × (IsPath t ⊎ IsAfter ks t)
finish-IsBegun f now c ks t h =
    let s = run ks empty in
    let (state, e, q, g, n, u, v) = finish-Finished f now c s t h in
    let all =
      All-pending (IsBegun ks) now s.stored (AreFrom-run (IsBegun ks) ks empty (λ d i. i) tt) in
    let begun = All-get (IsBegun ks) state e (pending now s.stored) all g in
    let fresh =
      All-get (IsLive now) state e (pending now s.stored) (pending-IsLive now s.stored) g in
    (
      (state, e, q, begun, n, omega (arith, fresh), u, v),
      subst (λ x. IsPath x ⊎ IsAfter ks x) u (IsBegun-IsPath ks (state, e) begun),
    )
