-- ===== src/Health/Readiness.antt =====
-- What the readiness probe answers, of what each check did on each loop.
use oxbrook.Prelude.{
  ◌++◌, ℕ, ◌≡◌, refl, Bool, true, false, ◌&&◌, ◌||◌, List, [], ◌∷◌, if◌then◌else◌, Text, text_eq,
  text_eq_refl, text_eq_sound, arith, All, All-append, ap, ◌∙◌, sym,
}
use oxbrook.Health.{
  Health, Ended, passed, refused, pending, Verdict, fine, failed, timed_out, on_loop, jobs, judge,
  mark, judged, all_fine, has_label, is_fine, are_fine, is_some_loop, evaluate,
}

abbrev pub is_passed : Ended → Bool
is_passed passed = true
is_passed _ = false

abbrev pub all_passed : List (Text × Ended) → Bool
all_passed [] = true
all_passed ((_, e) ∷ js) = is_passed e && all_passed js

abbrev pub present : Text → List (Text × Verdict) → Bool
present label [] = false
present label ((l, _) ∷ rs) = text_eq l label || present label rs

-- A job of a label that has a result.
abbrev Known : List (Text × Verdict) → Text × Ended → Type 0
Known rs (label, _) = present label rs ≡ true

present-mark :
    (l label : Text) (e : Ended) (rs : List (Text × Verdict))
    → present l (mark label e rs) ≡ present l rs
present-mark l label e [] = refl
present-mark l label e ((k, v) ∷ rs) = ground (arith, present-mark l label e rs)

are_fine-mark :
    (label : Text) (e : Ended) (rs : List (Text × Verdict))
    → present label rs ≡ true
    → are_fine (mark label e rs) ≡ (are_fine rs && is_passed e)
are_fine-mark label e [] h = cc
are_fine-mark label e ((k, v) ∷ rs) h = ground (arith, are_fine-mark label e rs)

Known-mark :
    (label : Text) (e : Ended) (rs : List (Text × Verdict)) (js : List (Text × Ended))
    → All (Known rs) js
    → All (Known (mark label e rs)) js
Known-mark label e rs [] h = tt
Known-mark label e rs ((l, f) ∷ js) (k, h) =
    (present-mark l label e rs ∙ k, Known-mark label e rs js h)

are_fine-judged :
    (js : List (Text × Ended)) (rs : List (Text × Verdict))
    → All (Known rs) js
    → are_fine (judged js rs) ≡ (are_fine rs && all_passed js)
unfolding judged
are_fine-judged [] rs h = ground arith
are_fine-judged ((label, e) ∷ js) rs (k, h) = ground (
  arith,
  are_fine-mark label e rs k,
  are_fine-judged js (mark label e rs) (Known-mark label e rs js h),
)

Known-weaken :
    (l : Text) (v : Verdict) (rs : List (Text × Verdict)) (js : List (Text × Ended))
    → All (Known rs) js
    → All (Known ((l, v) ∷ rs)) js
Known-weaken l v rs [] h = tt
Known-weaken l v rs ((k, e) ∷ js) (p, h) = (ground arith, Known-weaken l v rs js h)

Known-on_loop :
    (run : ℕ → ℕ → Ended) (loop : ℕ) (checks : List (Text × ℕ))
    → All (Known (all_fine checks)) (on_loop run loop checks)
Known-on_loop run loop [] = tt
Known-on_loop run loop ((l, fn) ∷ checks) = (
  ground (arith, text_eq_refl l),
  Known-weaken l fine (all_fine checks) (on_loop run loop checks) (Known-on_loop run loop checks),
)

Known-jobs :
    (run : ℕ → ℕ → Ended) (loops : List ℕ) (checks : List (Text × ℕ))
    → All (Known (all_fine checks)) (jobs run loops checks)
unfolding jobs
Known-jobs run [] checks = tt
Known-jobs run (loop ∷ loops) checks =
    All-append (Known (all_fine checks)) (on_loop run loop checks) (jobs run loops checks)
      (Known-on_loop run loop checks) (Known-jobs run loops checks)

are_fine-all_fine : (checks : List (Text × ℕ)) → are_fine (all_fine checks) ≡ true
are_fine-all_fine [] = refl
are_fine-all_fine (_ ∷ checks) = are_fine-all_fine checks

all_passed-append :
    (js ks : List (Text × Ended)) → all_passed (js ++ ks) ≡ (all_passed js && all_passed ks)
all_passed-append [] ks = refl
all_passed-append ((_, e) ∷ js) ks = ground (arith, all_passed-append js ks)

-- Every check passed on one loop, and on every loop.
abbrev pub passed_on : (ℕ → ℕ → Ended) → ℕ → List (Text × ℕ) → Bool
passed_on run loop [] = true
passed_on run loop ((_, fn) ∷ checks) = is_passed (run loop fn) && passed_on run loop checks

abbrev pub every_passed : (ℕ → ℕ → Ended) → List ℕ → List (Text × ℕ) → Bool
every_passed run [] checks = true
every_passed run (loop ∷ loops) checks = passed_on run loop checks && every_passed run loops checks

all_passed-on_loop :
    (run : ℕ → ℕ → Ended) (loop : ℕ) (checks : List (Text × ℕ))
    → all_passed (on_loop run loop checks) ≡ passed_on run loop checks
all_passed-on_loop run loop [] = refl
all_passed-on_loop run loop ((l, fn) ∷ checks) = ground (arith, all_passed-on_loop run loop checks)

all_passed-jobs :
    (run : ℕ → ℕ → Ended) (loops : List ℕ) (checks : List (Text × ℕ))
    → all_passed (jobs run loops checks) ≡ every_passed run loops checks
unfolding jobs
all_passed-jobs run [] checks = refl
all_passed-jobs run (loop ∷ loops) checks = ground (
  arith,
  all_passed-append (on_loop run loop checks) (jobs run loops checks),
  all_passed-on_loop run loop checks,
  all_passed-jobs run loops checks,
)

-- The readiness probe answers that a server is ready exactly when it has a worker loop and every
-- check passed on every one of them.
pub evaluate-all_passed :
    (run : ℕ → ℕ → Ended) (loops : List ℕ) (h : Health)
    → (evaluate run loops h).0 ≡ (is_some_loop loops && every_passed run loops h.checks)
unfolding evaluate
evaluate-all_passed run loops h = ground (
  arith,
  are_fine-judged (jobs run loops h.checks) (all_fine h.checks) (Known-jobs run loops h.checks),
  are_fine-all_fine h.checks,
  all_passed-jobs run loops h.checks,
)

-- The result of a label, if it has one, and the ends of its jobs.
abbrev pub result_of : Text → List (Text × Verdict) → Verdict
result_of label [] = fine
result_of label ((l, v) ∷ rs) = if text_eq l label then v else result_of label rs

abbrev pub any_end : (Ended → Bool) → Text → List (Text × Ended) → Bool
any_end p label [] = false
any_end p label ((l, e) ∷ js) = (text_eq l label && p e) || any_end p label js

abbrev pub is_pending : Ended → Bool
is_pending pending = true
is_pending _ = false

abbrev pub is_refused : Ended → Bool
is_refused refused = true
is_refused _ = false

-- The verdict on a label that starts from `v`.
abbrev pub worst : Text → List (Text × Ended) → Verdict → Verdict
worst label js v =
    if any_end is_pending label js
    then timed_out
    else if is_fine v && any_end is_refused label js
    then failed
    else v

result_of-mark :
    (l label : Text) (e : Ended) (rs : List (Text × Verdict))
    → present l rs ≡ true
    → result_of l (mark label e rs)
      ≡ (if text_eq label l then judge e (result_of l rs) else result_of l rs)
result_of-mark l label e [] h = cc
result_of-mark l label e ((k, v) ∷ rs) h = ground (
  arith,
  result_of-mark l label e rs,
  text_eq_sound k label,
  text_eq_sound k l,
  text_eq_sound label l,
  text_eq_refl l,
)

worst-judge :
    (l label : Text) (e : Ended) (js : List (Text × Ended)) (v : Verdict)
    → worst l ((label, e) ∷ js) v ≡ worst l js (if text_eq label l then judge e v else v)
worst-judge l label e js v = ground arith

result_of-judged :
    (l : Text) (js : List (Text × Ended)) (rs : List (Text × Verdict))
    → present l rs ≡ true
    → result_of l (judged js rs) ≡ worst l js (result_of l rs)
unfolding judged
result_of-judged l [] rs h = ground arith
result_of-judged l ((label, e) ∷ js) rs h =
    result_of-judged l js (mark label e rs) (present-mark l label e rs ∙ h)
    ∙ ap (worst l js) (result_of-mark l label e rs h)
    ∙ sym (worst-judge l label e js (result_of l rs))

present-all_fine :
    (l : Text) (checks : List (Text × ℕ)) → has_label l checks ≡ present l (all_fine checks)
present-all_fine l [] = refl
present-all_fine l ((k, fn) ∷ checks) = ground (arith, present-all_fine l checks)

result_of-all_fine : (l : Text) (checks : List (Text × ℕ)) → result_of l (all_fine checks) ≡ fine
result_of-all_fine l [] = refl
result_of-all_fine l ((k, fn) ∷ checks) = ground (arith, result_of-all_fine l checks)

any_end-append :
    (p : Ended → Bool) (l : Text) (js ks : List (Text × Ended))
    → any_end p l (js ++ ks) ≡ (any_end p l js || any_end p l ks)
any_end-append p l [] ks = refl
any_end-append p l ((k, e) ∷ js) ks = ground (arith, any_end-append p l js ks)

-- A check of a label ended so on one loop, and on some loop.
abbrev pub ended_on : (Ended → Bool) → (ℕ → ℕ → Ended) → ℕ → Text → List (Text × ℕ) → Bool
ended_on p run loop label [] = false
ended_on p run loop label ((l, fn) ∷ checks) =
    (text_eq l label && p (run loop fn)) || ended_on p run loop label checks

abbrev pub ever_ended : (Ended → Bool) → (ℕ → ℕ → Ended) → List ℕ → Text → List (Text × ℕ) → Bool
ever_ended p run [] label checks = false
ever_ended p run (loop ∷ loops) label checks =
    ended_on p run loop label checks || ever_ended p run loops label checks

any_end-on_loop :
    (p : Ended → Bool) (run : ℕ → ℕ → Ended) (loop : ℕ) (l : Text) (checks : List (Text × ℕ))
    → any_end p l (on_loop run loop checks) ≡ ended_on p run loop l checks
any_end-on_loop p run loop l [] = refl
any_end-on_loop p run loop l ((k, fn) ∷ checks) =
    ground (arith, any_end-on_loop p run loop l checks)

any_end-jobs :
    (p : Ended → Bool) (run : ℕ → ℕ → Ended) (loops : List ℕ) (l : Text) (checks : List (Text × ℕ))
    → any_end p l (jobs run loops checks) ≡ ever_ended p run loops l checks
unfolding jobs
any_end-jobs p run [] l checks = refl
any_end-jobs p run (loop ∷ loops) l checks = ground (
  arith,
  any_end-append p l (on_loop run loop checks) (jobs run loops checks),
  any_end-on_loop p run loop l checks,
  any_end-jobs p run loops l checks,
)

-- The worst that the check of a label did on any loop.
abbrev pub worst_of : (ℕ → ℕ → Ended) → List ℕ → Text → List (Text × ℕ) → Verdict
worst_of run loops label checks =
    if ever_ended is_pending run loops label checks
    then timed_out
    else if ever_ended is_refused run loops label checks
    then failed
    else fine

worst-jobs :
    (run : ℕ → ℕ → Ended) (loops : List ℕ) (l : Text) (checks : List (Text × ℕ))
    → worst l (jobs run loops checks) fine ≡ worst_of run loops l checks
worst-jobs run loops l checks =
    rw (any_end-jobs is_pending run loops l checks, any_end-jobs is_refused run loops l checks) refl

-- The body of the readiness probe tells of a registered check the worst that it did on any loop: a
-- time-out before a failure, and a failure before success.
pub evaluate-worst :
    (run : ℕ → ℕ → Ended) (loops : List ℕ) (h : Health) (l : Text)
    → has_label l h.checks ≡ true
    → result_of l (evaluate run loops h).1 ≡ worst_of run loops l h.checks
unfolding evaluate
evaluate-worst run loops h l k =
    result_of-judged l (jobs run loops h.checks) (all_fine h.checks)
      (sym (present-all_fine l h.checks) ∙ k)
    ∙ ap (worst l (jobs run loops h.checks)) (result_of-all_fine l h.checks)
    ∙ worst-jobs run loops l h.checks
