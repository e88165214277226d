-- ===== src/Auth/Tests.antt =====
-- Two schemes at concrete values: a session that finds a caller, and a token that is remembered.
use oxbrook.Prelude.{
  ℕ, ◌≤◌, ◌≡◌, ◌≢◌, refl, true, false, Option, none, some, List, [], ◌∷◌, ◌==◌, ltb, if◌then◌else◌,
  arith,
}
use oxbrook.Auth.Policy.{
  Principal, Requirement, scheme, either, required, no_more, more, Declaration, always, accepts,
  alternatives, plan,
}
use oxbrook.Auth.Gate.{Found, nothing, found, Env, call, make_gate, remember, permits}
use oxbrook.Auth.Meaning.{decision, decide, IsCalm}
use oxbrook.Auth.Refinement.{call-decide}
use oxbrook.Auth.Listing.{passes, IsTrue, permits-call}
use oxbrook.Auth.Spending.{payers, payers-call, IsBroken}
use oxbrook.Auth.Tickets.{Request, offered, issue, make_room, authenticate}
use oxbrook.Auth.Redeeming.{Call, issues, asks, step, run, redeemed, run-redeemed}
use oxbrook.Auth.InTime.{IsIssuedIn, empty, run-Issued}
use oxbrook.Auth.Remembering.{IsVerifier, IsSound, checks, checks-answers}

abbrev alice : Principal
alice = record { subject = 1; scheme = 5; scopes = 7 ∷ []; roles = [] }

abbrev needs_seven : Requirement
needs_seven = record { all_of = 7 ∷ []; any_of = []; check = none; roles = [] }

-- Scheme 1 finds nothing; scheme 2 finds alice.
abbrev finds : ℕ → Found
finds s = if s == 2 then found alice else nothing

abbrev env : Env
env = record {
  authenticate = finds;
  check = λ _ _. accepts true;
  name = λ s. s;
  first = none;
  wait = λ _. none;
}

abbrev declared : Declaration
declared = always (either (more (scheme 1) (more (required (scheme 2) needs_seven) no_more)))

env-IsCalm : IsCalm env
env-IsCalm = record { checks = λ f who h. ground arith; first_free = refl; free = λ _. refl }

call-decide_example : decision (call env (make_gate declared true)).1 ≡ decide env declared
call-decide_example = call-decide env declared true env-IsCalm

finds-remember : (s : ℕ) → remember (finds s) ≢ none
finds-remember s = ground arith

permits-call_example :
    (memo' : _) × (permits env (make_gate declared false) (make_gate declared false).schemes []
      ≡ some (memo', passes (call env (make_gate declared false)).1))
    × IsTrue env memo'
permits-call_example =
    permits-call env (make_gate declared false) [] env-IsCalm finds-remember (λ s r e. ground arith)

finds-IsBroken : (s : ℕ) → ¬ IsBroken (finds s)
finds-IsBroken s = ground arith

payers-call_example : payers (call env (make_gate declared true)).0 ≡ some alice ∷ []
unfolding make_gate plan alternatives
payers-call_example = payers-call env (make_gate declared true) refl finds-IsBroken

-- Token 3 expires at 100.
abbrev issued : ℕ → Option (ℕ × Principal)
issued t = if t == 3 then some (100, alice) else none

abbrev verify : ℕ → ℕ → Option (ℕ × Principal)
verify now t = if ltb now 110 then issued t else none

verify-IsVerifier : IsVerifier 10 issued verify
verify-IsVerifier = record {
  sound = λ now t exp who h. ground arith;
  complete = λ now t exp who h k. ground arith;
}

checks-answers_example :
    ((checks verify
        ((90, 3) ∷ (109, 3) ∷ (111, 3) ∷ [])
        (record { verified = []; cache_size = 8; leeway = 10 })).1
      ≡ some alice ∷ some alice ∷ none ∷ [])
    × IsSound issued
        (checks verify
          ((90, 3) ∷ (109, 3) ∷ (111, 3) ∷ [])
          (record { verified = []; cache_size = 8; leeway = 10 })).0
checks-answers_example =
    checks-answers 10 8 issued verify ((90, 3) ∷ (109, 3) ∷ (111, 3) ∷ []) verify-IsVerifier
      (λ exp who h. ground arith, (λ exp who h. ground arith, (λ exp who h. ground arith, tt)))

-- Ticket 9 is issued, redeemed, and offered again.
abbrev offers : ℕ → Request
offers ticket = record { is_websocket = true; query = (6, ticket) ∷ [] }

abbrev calls : List Call
calls = issues 10 9 alice ∷ asks 20 (offers 9) ∷ asks 21 (offers 9) ∷ []

run-redeemed_example : redeemed 9 calls (empty 30 6 5) ≤ 1
run-redeemed_example = run-redeemed 9 calls (empty 30 6 5) tt

run-Issued_example :
    (true ≡ true)
    × ((ticket : ℕ) × (until : ℕ) × (offered 6 ((6, 9) ∷ []) ≡ ticket ∷ [])
        × (20 ≤ until)
        × IsIssuedIn 30 (issues 10 9 alice ∷ []) (ticket, (until, alice)))
unfolding run step issue make_room authenticate
run-Issued_example = run-Issued 30 6 5 (issues 10 9 alice ∷ []) 20 (offers 9) alice refl
