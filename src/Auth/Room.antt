-- ===== src/Auth/Room.antt =====
-- How many tickets `Tickets` keeps.
use oxbrook.Prelude.{
  ℕ, suc, ◌+◌, ◌-◌, ◌≤◌, inl, inr, sym, subst, max, List, [], ◌∷◌, length, length-drop, keep_if,
  arith, Bool-cases,
}
use oxbrook.Prelude.Dicts.{keys, length-put-le, length-pop-le, length-pop_each-le, pop_each-first}
use oxbrook.Auth.Tickets.{
  Tickets, expired, drop_expired, make_room, issue, offered, redeem, authenticate,
}
use oxbrook.Auth.Redeeming.{Call, issues, asks, step, run}
use oxbrook.Auth.InTime.{step-kept}

length-make_room :
    (now : ℕ) (t : Tickets)
    → length t.waiting ≤ max 1 t.limit
    → suc (length (make_room now t)) ≤ max 1 t.limit
unfolding make_room
length-make_room now t h =
    let w = drop_expired now t.waiting in
    let n = max 1 ((length w + 1) - t.limit) in
    ground (
      arith,
      pop_each-first n w,
      length-drop n w,
      length-pop_each-le (keys (keep_if (expired now) t.waiting)) t.waiting,
    )

length-redeem :
    (now : ℕ) (js : List ℕ) (t : Tickets) → length (redeem now js t).0.waiting ≤ length t.waiting
length-redeem now [] t = omega arith
length-redeem now (j ∷ []) t = length-pop-le j t.waiting
length-redeem now (_ ∷ _ ∷ _) t = omega arith

length-step :
    (c : Call) (t : Tickets)
    → length t.waiting ≤ max 1 t.limit
    → length (step c t).waiting ≤ max 1 t.limit
unfolding step authenticate issue
length-step (issues now ticket who) t h =
    omega
      (arith, length-put-le ticket (now + t.ttl, who) (make_room now t), length-make_room now t h)
length-step (asks now request) t h = elim (Bool-cases request.is_websocket) [
  | inl e ↦ rw e (omega (arith, h, length-redeem now (offered t.param request.query) t))
  | inr e ↦ rw e h
]

-- However many tickets are issued, no more than the limit wait, or one where the limit is 0.
pub run-length :
    (cs : List Call) (t : Tickets)
    → length t.waiting ≤ max 1 t.limit
    → length (run cs t).waiting ≤ max 1 t.limit
unfolding run
run-length [] t h = h
run-length (c ∷ cs) t h =
    let same = (step-kept c t).2 in
    subst (λ l. length (run cs (step c t)).waiting ≤ max 1 l) same
      (run-length cs (step c t)
        (subst (λ l. length (step c t).waiting ≤ max 1 l) (sym same) (length-step c t h)))
