-- ===== src/Auth/Redeeming.antt =====
-- `Tickets.issue` and `authenticate` over calls in any order.
use oxbrook.Prelude.{
  ℕ, ◌+◌, ◌-◌, ◌≤◌, ◌≡◌, inl, inr, refl, max, Option, none, some, is_some, List, [], ◌∷◌, ◌==◌,
  ==_iff, leb, if◌then◌else◌, length, take, keep_if, arith, Bool-cases, Option-cases,
}
use oxbrook.Prelude.Dicts.{
  Dict, get, pop, put, pop_each, keys, Distinct, Distinct-pop, Distinct-put, Distinct-pop_each,
  get-pop_same, get-pop_other, get-pop_each_absent, get-put_other,
}
use oxbrook.Auth.Policy.{Principal}
use oxbrook.Auth.Gate.{Found, nothing, found}
use oxbrook.Auth.Tickets.{
  Tickets, Request, expired, drop_expired, make_room, issue, offered, entry_of, redeem,
  authenticate,
}

pub data Call : Type 0 where
  issues : ℕ → ℕ → Principal → Call
  asks : ℕ → Request → Call

unfoldable pub step : Call → Tickets → Tickets
step (issues now ticket who) t = issue now ticket who t
step (asks now request) t = (authenticate now request t).0

unfoldable pub run : List Call → Tickets → Tickets
run [] t = t
run (c ∷ cs) t = run cs (step c t)

-- How often a ticket is issued, waits, and lets a request in.
abbrev pub issued_by : ℕ → Call → ℕ
issued_by k (issues _ ticket _) = if ticket == k then 1 else 0
issued_by k (asks _ _) = 0

abbrev pub issued : ℕ → List Call → ℕ
issued k [] = 0
issued k (c ∷ cs) = issued_by k c + issued k cs

abbrev pub held : ℕ → Dict (ℕ × Principal) → ℕ
held k waiting = if is_some (get k waiting) then 1 else 0

abbrev pub admits : ℕ → List ℕ → Found → ℕ
admits k (j ∷ []) (found _) = if j == k then 1 else 0
admits k _ _ = 0

abbrev pub redeemed_by : ℕ → Call → Tickets → ℕ
redeemed_by k (issues _ _ _) t = 0
redeemed_by k (asks now request) t =
    admits k (offered t.param request.query) (authenticate now request t).1

abbrev pub redeemed : ℕ → List Call → Tickets → ℕ
redeemed k [] t = 0
redeemed k (c ∷ cs) t = redeemed_by k c t + redeemed k cs (step c t)

Distinct-make_room : (now : ℕ) (t : Tickets) → Distinct t.waiting → Distinct (make_room now t)
unfolding make_room
Distinct-make_room now t h = elim (Bool-cases (leb t.limit (length t.waiting))) [
  | inl e ↦ rw e (
      let w = drop_expired now t.waiting in
      Distinct-pop_each (keys (take (max 1 ((length w + 1) - t.limit)) w)) w
        (Distinct-pop_each (keys (keep_if (expired now) t.waiting)) t.waiting h))
  | inr e ↦ rw e h
]

held-pop_each : (k : ℕ) (ks : List ℕ) (d : Dict (ℕ × Principal)) → held k (pop_each ks d) ≤ held k d
held-pop_each k ks d = elim (Option-cases (get k d)) [
  | inl n ↦ rw (get-pop_each_absent ks k d n) (omega arith)
  | inr (v, e) ↦ ground (arith, e)
]

held-make_room : (k now : ℕ) (t : Tickets) → held k (make_room now t) ≤ held k t.waiting
unfolding make_room
held-make_room k now t = elim (Bool-cases (leb t.limit (length t.waiting))) [
  | inl e ↦ rw e (
      omega (
        arith,
        held-pop_each k (keys (keep_if (expired now) t.waiting)) t.waiting,
        held-pop_each k
            (keys (
              take (max 1 ((length (drop_expired now t.waiting) + 1) - t.limit))
                (drop_expired now t.waiting)))
            (drop_expired now t.waiting),
      ))
  | inr e ↦ rw e (omega arith)
]

held-put :
    (j k : ℕ) (v : ℕ × Principal) (d : Dict (ℕ × Principal))
    → held k (put j v d) ≤ (if j == k then 1 else 0) + held k d
held-put j k v d = ground (arith, get-put_other j k v d)

held-pop :
    (j k : ℕ) (d : Dict (ℕ × Principal))
    → Distinct d
    → (o : Option (ℕ × Principal)) → get j d ≡ o
    → (now : ℕ) → admits k (j ∷ []) (entry_of now o) + held k (pop j d) ≤ held k d
held-pop j k d h none e now = omega (arith, held-pop_each k (j ∷ []) d)
held-pop j k d h (some (until, who)) e now = elim (Bool-cases (j == k)) [
  | inl b ↦ let same = (==_iff j k).0 b in ground (arith, e, same, get-pop_same k d h)
  | inr b ↦ ground (arith, b, get-pop_other j k d b)
]

held-redeem :
    (k now : ℕ) (js : List ℕ) (t : Tickets)
    → Distinct t.waiting
    → admits k js (redeem now js t).1 + held k (redeem now js t).0.waiting ≤ held k t.waiting
held-redeem k now [] t h = omega arith
held-redeem k now (j ∷ []) t h = held-pop j k t.waiting h (get j t.waiting) refl now
held-redeem k now (_ ∷ _ ∷ _) t h = omega arith

admits-nothing : (k : ℕ) (js : List ℕ) → admits k js nothing ≡ 0
admits-nothing k [] = refl
admits-nothing k (_ ∷ []) = refl
admits-nothing k (_ ∷ _ ∷ _) = refl

Distinct-redeem :
    (now : ℕ) (js : List ℕ) (t : Tickets)
    → Distinct t.waiting
    → Distinct (redeem now js t).0.waiting
Distinct-redeem now [] t h = h
Distinct-redeem now (j ∷ []) t h = Distinct-pop j t.waiting h
Distinct-redeem now (_ ∷ _ ∷ _) t h = h

Distinct-step : (c : Call) (t : Tickets) → Distinct t.waiting → Distinct (step c t).waiting
unfolding step authenticate issue
Distinct-step (issues now ticket who) t h =
    Distinct-put ticket (now + t.ttl, who) (make_room now t) (Distinct-make_room now t h)
Distinct-step (asks now request) t h = elim (Bool-cases request.is_websocket) [
  | inl e ↦ rw e (Distinct-redeem now (offered t.param request.query) t h)
  | inr e ↦ rw e h
]

held-step :
    (k : ℕ) (c : Call) (t : Tickets)
    → Distinct t.waiting
    → redeemed_by k c t + held k (step c t).waiting ≤ issued_by k c + held k t.waiting
unfolding step authenticate issue
held-step k (issues now ticket who) t h =
    omega (arith, held-put ticket k (now + t.ttl, who) (make_room now t), held-make_room k now t)
held-step k (asks now request) t h = elim (Bool-cases request.is_websocket) [
  | inl e ↦ rw e (omega (arith, held-redeem k now (offered t.param request.query) t h))
  | inr e ↦ rw (e, admits-nothing k (offered t.param request.query)) (omega arith)
]

-- A ticket lets in at most one request for each time that it is issued: whatever is called, in any
-- order, it lets requests in no more often than it was issued, and once more if it already waits.
-- Each ticket waits once.
pub run-redeemed :
    (k : ℕ) (cs : List Call) (t : Tickets)
    → Distinct t.waiting
    → redeemed k cs t ≤ issued k cs + held k t.waiting
run-redeemed k [] t h = omega arith
run-redeemed k (c ∷ cs) t h =
    omega (arith, run-redeemed k cs (step c t) (Distinct-step c t h), held-step k c t h)
