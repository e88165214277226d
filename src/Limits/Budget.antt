-- ===== src/Limits/Budget.antt =====
-- The shared budget: what `_GCRA` of python/oxbrook/_limits.py lets through.
use oxbrook.Prelude.{
  ℕ, zero, suc, ◌+◌, ◌-◌, ◌*◌, ◌/◌, ◌∙◌, sym, subst, ◌≤◌, ◌<◌, ◌≡◌, refl, ap, ◌≢◌, none, some, List,
  [], ◌∷◌, arith, max, false, ltb, inl, inr, ◌⊎◌, Bool-cases,
}
use oxbrook.Limits.{RateLimit, Shared, share, Spent, spent_at, gcra, retry_after}

-- A request that a shared limit refuses learns the exact wait: asked again that much later it
-- passes, asked again any earlier it is refused, and its refusal spends nothing. The interval is
-- at most the tolerance.
pub gcra-wait :
    (s : Shared) (now : ℕ) (spent : Spent) (w v : ℕ)
    → s.interval ≤ s.tolerance
    → (gcra s now spent).1 ≡ some w
    → v < w
    → ((gcra s now spent).0 ≡ spent)
      × ((gcra s (now + w) spent).1 ≡ none)
      × ((gcra s (now + v) spent).1 ≢ none)
unfolding gcra
gcra-wait s now none w v i h lt = absurd (ground arith)
gcra-wait s now (some spent) w v i h lt = (ground arith, ground arith, ground arith)

-- A key that Redis let expire and one that is past answer alike.
pub gcra_expired :
    (s : Shared) (now spent : ℕ) → spent ≤ now → (gcra s now (some spent)).1 ≡ (gcra s now none).1
unfolding gcra
gcra_expired s now spent h = ground arith

-- Requests at the given times: the state after them, and how many passed.
unfoldable pub passed : Shared → List ℕ → Spent → Spent × ℕ
passed s [] spent = (spent, 0)
passed s (now ∷ times) spent =
    let (spent', wait) = gcra s now spent in
    let (last, n) = passed s times spent' in (last, elim wait [ none ↦ suc n | some _ ↦ n ])

abbrev pub Within : ℕ → ℕ → List ℕ → Type 0
Within from to [] = Unit
Within from to (t ∷ times) = (from ≤ t) × (t ≤ to) × Within from to times

-- The value of the state, never before the start of the window.
abbrev level : ℕ → Spent → ℕ
level from none = from
level from (some spent) = max from spent

gcra-level :
    (s : Shared) (from now : ℕ) (spent : Spent)
    → from ≤ now
    → (((gcra s now spent).1 ≡ none)
        × (level from spent + s.interval ≤ level from (gcra s now spent).0)
        × (level from (gcra s now spent).0 ≤ max from (now + s.tolerance)))
      ⊎ ((w : ℕ) × (gcra s now spent ≡ (spent, some w)))
unfolding gcra
gcra-level s from now spent h =
    elim (Bool-cases (ltb s.tolerance (spent_at spent now + s.interval - now))) [
      | inl over ↦ inr (spent_at spent now + s.interval - s.tolerance - now, ground arith)
      | inr within ↦ inl (ground arith, by_case spent within, below spent within)
    ]
  where
    by_case :
        (k : Spent)
        → ltb s.tolerance (spent_at k now + s.interval - now) ≡ false
        → level from k + s.interval ≤ level from (gcra s now k).0
    by_case none e = ground arith
    by_case (some k) e = ground arith

    below :
        (k : Spent)
        → ltb s.tolerance (spent_at k now + s.interval - now) ≡ false
        → level from (gcra s now k).0 ≤ max from (now + s.tolerance)
    below none e = ground arith
    below (some k) e = ground arith

passed_allowed :
    (s : Shared) (now : ℕ) (times : List ℕ) (spent : Spent)
    → (gcra s now spent).1 ≡ none
    → passed s (now ∷ times) spent
      ≡ ((passed s times (gcra s now spent).0).0, suc (passed s times (gcra s now spent).0).1)
unfolding passed
passed_allowed s now times spent e = ground arith

passed_refused :
    (s : Shared) (now w : ℕ) (times : List ℕ) (spent : Spent)
    → gcra s now spent ≡ (spent, some w)
    → passed s (now ∷ times) spent ≡ passed s times spent
unfolding passed
passed_refused s now w times spent e = ground arith

-- What a run from `spent` within the window reaches, and with how many passed.
abbrev LevelOf : Shared → ℕ → ℕ → Spent → Spent × ℕ → Type 0
LevelOf s from to spent r =
    (level from spent + r.1 * s.interval ≤ level from r.0)
    × ((r.1 ≡ 0) × (r.0 ≡ spent) ⊎ (level from r.0 ≤ max from (to + s.tolerance)))

passed-level :
    (s : Shared) (from to : ℕ) (times : List ℕ) (spent : Spent)
    → Within from to times
    → LevelOf s from to spent (passed s times spent)
unfolding passed
passed-level s from to [] spent h = (omega arith, inl (refl, refl))
passed-level s from to (now ∷ times) spent (a, b, h) = elim (gcra-level s from now spent a) [
  | inr (w, e) ↦
      subst (LevelOf s from to spent) (sym (passed_refused s now w times spent e))
        (passed-level s from to times spent h)
  | inl (e, up, low) ↦
      let (rise, cap) = passed-level s from to times (gcra s now spent).0 h in
      subst (LevelOf s from to spent) (sym (passed_allowed s now times spent e))
        (omega arith, inr (elim cap [ inl (_, same) ↦ rw same (omega arith) | inr under ↦ under ]))
]

-- Of any requests made within a window, in any order, at most a burst and one for each interval of
-- the window pass a shared limit, whatever was spent before it.
pub passed_bound :
    (s : Shared) (from to : ℕ) (times : List ℕ) (spent : Spent)
    → from ≤ to
    → Within from to times
    → (passed s times spent).1 * s.interval ≤ (to - from) + s.tolerance
passed_bound s from to times spent o h =
    let (rise, cap) = passed-level s from to times spent h in
    let start : from ≤ level from spent = at_least spent in
    elim cap [ inl (none_passed, _) ↦ rw none_passed (omega arith) | inr under ↦ omega arith ]
  where
    at_least : (k : Spent) → from ≤ level from k
    at_least none = omega arith
    at_least (some k) = omega arith

abbrev pub repeat : ℕ → ℕ → List ℕ
repeat zero t = []
repeat (suc n) t = t ∷ repeat n t

scaled : (i k burst : ℕ) → suc k ≤ burst → i * k + i ≤ i * burst
scaled i k burst h = grind arith

burst_step :
    (i burst now k : ℕ)
    → suc k ≤ burst
    → gcra (record { interval = i; tolerance = i * burst }) now (some (now + i * k))
      ≡ (some (now + i * suc k), none)
unfolding gcra
burst_step i burst now k h = ground (arith, scaled i k burst h)

burst_from :
    (i burst now k n : ℕ)
    → k + n ≤ burst
    → (passed
        (record { interval = i; tolerance = i * burst })
        (repeat n now)
        (some (now + i * k))).1
      ≡ n
unfolding passed
burst_from i burst now k zero h = refl
burst_from i burst now k (suc n) h =
    let step = burst_step i burst now k (omega arith) in
    ap (λ r. r.1) (passed_allowed _ now (repeat n now) _ (ap (λ r. r.1) step))
    ∙ (rw step (ap suc (burst_from i burst now (suc k) n (omega arith))))

first_step :
    (r : RateLimit) (now : ℕ) (spent : Spent)
    → spent_at spent now ≡ now
    → 1 ≤ r.burst
    → gcra (share r) now spent ≡ (some (now + (share r).interval * 1), none)
unfolding gcra share
first_step r now spent h b = rw h (ground (arith, scaled (max 1 (r.interval / 1000)) 0 r.burst b))

-- A client that Redis holds no time for, or one not after now, can spend its whole burst at once.
pub passed_burst :
    (r : RateLimit) (now n : ℕ) (spent : Spent)
    → spent_at spent now ≡ now
    → n ≤ r.burst
    → (passed (share r) (repeat n now) spent).1 ≡ n
unfolding passed share
passed_burst r now zero spent h b = refl
passed_burst r now (suc n) spent h b =
    let step = first_step r now spent h (omega arith) in
    ap (λ k. k.1) (passed_allowed (share r) now (repeat n now) spent (ap (λ k. k.1) step))
    ∙ (rw step (ap suc (burst_from (share r).interval r.burst now 1 n (omega arith))))

-- A client that waits the whole seconds of the Retry-After and is alone in its budget passes. The
-- interval is at most the tolerance.
pub gcra-retry_after :
    (s : Shared) (now : ℕ) (spent : Spent) (w : ℕ)
    → s.interval ≤ s.tolerance
    → (gcra s now spent).1 ≡ some w
    → (gcra s (now + retry_after w * 1000000) spent).1 ≡ none
unfolding gcra retry_after
gcra-retry_after s now none w i h = absurd (ground arith)
gcra-retry_after s now (some spent) w i h = ground arith
