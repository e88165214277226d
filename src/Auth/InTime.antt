-- ===== src/Auth/InTime.antt =====
-- `Tickets` over calls in any order: whom a ticket lets in, and until when.
use oxbrook.Prelude.{
  ℕ, ◌+◌, ◌-◌, ◌≤◌, ◌≡◌, ◌⊎◌, inl, inr, refl, sym, ap, subst, max, Bool, true, false, Option, none,
  some, List, [], ◌∷◌, leb, if◌then◌else◌, length, take, keep_if, arith, All, Bool-cases, ◌∙◌,
}
use oxbrook.Prelude.Dicts.{get, keys, All-pop, All-put, All-pop_each, All-get}
use oxbrook.Auth.Policy.{Principal}
use oxbrook.Auth.Gate.{nothing, found}
use oxbrook.Auth.Tickets.{
  Tickets, Request, expired, drop_expired, make_room, issue, offered, entry_of, redeem,
  authenticate,
}
use oxbrook.Auth.Redeeming.{Call, issues, asks, step, run}

-- One of the calls issued the ticket, with this principal and until this moment.
abbrev pub IsIssuedIn : ℕ → List Call → ℕ × (ℕ × Principal) → Type 0
IsIssuedIn ttl [] e = ⊥
IsIssuedIn ttl (issues at ticket who ∷ cs) e = ((ticket, (at + ttl, who)) ≡ e) ⊎ IsIssuedIn ttl cs e
IsIssuedIn ttl (asks _ _ ∷ cs) e = IsIssuedIn ttl cs e

abbrev Contributes : ℕ → (ℕ × (ℕ × Principal) → Type 0) → Call → Type 0
Contributes ttl P (issues at ticket who) = P (ticket, (at + ttl, who))
Contributes ttl P (asks _ _) = Unit

All-Contributes :
    (ttl : ℕ) (P : ℕ × (ℕ × Principal) → Type 0) (cs : List Call)
    → ((e : _) → IsIssuedIn ttl cs e → P e)
    → All (Contributes ttl P) cs
All-Contributes ttl P [] h = tt
All-Contributes ttl P (issues at ticket who ∷ cs) h =
    (h _ (inl refl), All-Contributes ttl P cs (λ e i. h e (inr i)))
All-Contributes ttl P (asks _ _ ∷ cs) h = (tt, All-Contributes ttl P cs h)

redeem-kept :
    (now : ℕ) (js : List ℕ) (t : Tickets)
    → ((redeem now js t).0.ttl ≡ t.ttl)
      × ((redeem now js t).0.param ≡ t.param)
      × ((redeem now js t).0.limit ≡ t.limit)
redeem-kept now [] t = (refl, refl, refl)
redeem-kept now (_ ∷ []) t = (refl, refl, refl)
redeem-kept now (_ ∷ _ ∷ _) t = (refl, refl, refl)

pub step-kept :
    (c : Call) (t : Tickets)
    → ((step c t).ttl ≡ t.ttl) × ((step c t).param ≡ t.param) × ((step c t).limit ≡ t.limit)
unfolding step authenticate issue
step-kept (issues now ticket who) t = (refl, refl, refl)
step-kept (asks now request) t = elim (Bool-cases request.is_websocket) [
  | inl e ↦ rw e (redeem-kept now (offered t.param request.query) t)
  | inr e ↦ rw e (refl, refl, refl)
]

run-kept :
    (cs : List Call) (t : Tickets) → ((run cs t).param ≡ t.param) × ((run cs t).limit ≡ t.limit)
unfolding run
run-kept [] t = (refl, refl)
run-kept (c ∷ cs) t =
    let k = step-kept c t in let r = run-kept cs (step c t) in (r.0 ∙ k.1, r.1 ∙ k.2)

module _ (P : ℕ × (ℕ × Principal) → Type 0) where
  All-make_room : (now : ℕ) (t : Tickets) → All P t.waiting → All P (make_room now t)
  unfolding make_room
  All-make_room now t h = elim (Bool-cases (leb t.limit (length t.waiting))) [
    | inl e ↦
        let w = drop_expired now t.waiting in
        rw e (
          All-pop_each P (keys (take (max 1 ((length w + 1) - t.limit)) w)) w
            (All-pop_each P (keys (keep_if (expired now) t.waiting)) t.waiting h))
    | inr e ↦ rw e h
  ]

  All-redeem :
      (now : ℕ) (js : List ℕ) (t : Tickets) → All P t.waiting → All P (redeem now js t).0.waiting
  All-redeem now [] t h = h
  All-redeem now (j ∷ []) t h = All-pop P j t.waiting h
  All-redeem now (_ ∷ _ ∷ _) t h = h

  All-step :
      (c : Call) (t : Tickets) → Contributes t.ttl P c → All P t.waiting → All P (step c t).waiting
  unfolding step authenticate issue
  All-step (issues now ticket who) t p h =
      All-put P ticket (now + t.ttl, who) (make_room now t) p (All-make_room now t h)
  All-step (asks now request) t p h = elim (Bool-cases request.is_websocket) [
    | inl e ↦ rw e (All-redeem now (offered t.param request.query) t h)
    | inr e ↦ rw e h
  ]

  All-run :
      (cs : List Call) (t : Tickets)
      → All (Contributes t.ttl P) cs
      → All P t.waiting
      → All P (run cs t).waiting
  unfolding run
  All-run [] t p h = h
  All-run (c ∷ cs) t (p, ps) h =
      let same = sym (step-kept c t).0 in
      All-run cs (step c t) (subst (λ ttl. All (Contributes ttl P) cs) same ps) (All-step c t p h)

-- What a redemption that finds someone rests on.
abbrev pub Lets : ℕ → Tickets → List ℕ → Principal → Type 0
Lets now t js who =
    (ticket : ℕ) × (until : ℕ) × (js ≡ ticket ∷ [])
    × (get ticket t.waiting ≡ some (until, who))
    × (now ≤ until)

entry_of-found :
    (now : ℕ) (who : Principal) (o : Option (ℕ × Principal))
    → entry_of now o ≡ found who
    → (until : ℕ) × (o ≡ some (until, who)) × (now ≤ until)
entry_of-found now who none h = absurd cc
entry_of-found now who (some (until, w)) h = (until, ground arith, ground arith)

redeem-Lets :
    (now : ℕ) (js : List ℕ) (t : Tickets) (who : Principal)
    → (redeem now js t).1 ≡ found who
    → Lets now t js who
redeem-Lets now [] t who h = absurd cc
redeem-Lets now (j ∷ []) t who h =
    let (until, e, l) = entry_of-found now who (get j t.waiting) h in (j, until, refl, e, l)
redeem-Lets now (_ ∷ _ ∷ _) t who h = absurd cc

authenticate-Lets :
    (now : ℕ) (request : Request) (t : Tickets) (who : Principal)
    → (authenticate now request t).1 ≡ found who
    → (request.is_websocket ≡ true) × Lets now t (offered t.param request.query) who
unfolding authenticate
authenticate-Lets now request t who = go request.is_websocket
  where
    go :
        (b : Bool)
        → (if b then redeem now (offered t.param request.query) t else (t, nothing)).1 ≡ found who
        → (b ≡ true) × Lets now t (offered t.param request.query) who
    go true h = (refl, redeem-Lets now (offered t.param request.query) t who h)
    go false h = absurd cc

abbrev pub empty : ℕ → ℕ → ℕ → Tickets
empty ttl param limit = record { waiting = []; ttl = ttl; param = param; limit = limit }

-- Whatever was called before, a ticket lets in the principal that it was issued for, on a request
-- that asks for a websocket and offers it alone, and not later than ttl after it was issued.
pub run-Issued :
    (ttl param limit : ℕ) (cs : List Call) (now : ℕ) (request : Request) (who : Principal)
    → (authenticate now request (run cs (empty ttl param limit))).1 ≡ found who
    → (request.is_websocket ≡ true)
      × ((ticket : ℕ) × (until : ℕ) × (offered param request.query ≡ ticket ∷ [])
          × (now ≤ until)
          × IsIssuedIn ttl cs (ticket, (until, who)))
run-Issued ttl param limit cs now request who h =
    let t0 = empty ttl param limit in
    let t = run cs t0 in
    let (w, (ticket, until, o, g, l)) = authenticate-Lets now request t who h in
    let all =
      All-run (IsIssuedIn ttl cs) cs t0 (All-Contributes ttl (IsIssuedIn ttl cs) cs (λ e i. i))
        tt in
    let same = ap (λ p. offered p request.query) (run-kept cs t0).0 in
    (
      w,
      (
        ticket,
        until,
        sym same ∙ o,
        l,
        All-get (IsIssuedIn ttl cs) ticket (until, who) t.waiting all g,
      ),
    )
