-- ===== src/Oidc/Rate.antt =====
-- How often `KeySet` fetches the keys.
use oxbrook.Prelude.{
  ◌≡◌, ℕ, ◌+◌, ◌*◌, ◌≤◌, refl, min, Bool, true, false, Option, none, some, is_some, List, [], ◌∷◌,
  arith, is_in, Bool-cases, inl, inr,
}
use oxbrook.Oidc.Keys.{Keys, Entry, pick}
use oxbrook.Oidc.KeySet.{
  KeySet, refetch_interval, retry_interval, create, start, if_accepted, waits_for_keys, Fetched,
  fetch, on_fetched, complete, refresh_if_stale, Found, after_refetch, picked, with_keys, find_from,
  find, resume_first, discovered,
}
use oxbrook.Oidc.Calls.{
  count_loads, loads, Call, finds, resumes, discovers, completes, moment, step, run, IsOrdered,
}
use oxbrook.Oidc.Paid.{
  IsPaid-load, Paid, Past, IsPaid, IsPaid-later, IsPaid-retry, IsPaid-refetch, IsPaid-refresh,
  IsPaid-after_start,
}

module _ (gap t0 x : ℕ) (fast : gap ≤ retry_interval) where
  IsPaid-picked :
      (now : ℕ) (kid : Option ℕ) (alg : ℕ) (o : Option Entry) (s : KeySet)
      → IsPaid gap t0 x now s
      → IsPaid gap t0 x now (picked now kid alg o s).0
  IsPaid-picked now kid alg (some e) s h = h
  IsPaid-picked now none alg none s h = h
  IsPaid-picked now (some kid) alg none s h =
      go (start now refetch_interval s) (IsPaid-refetch gap t0 x fast now s h)
    where
      go : (r : KeySet × Bool) → IsPaid gap t0 x now r.0 → IsPaid gap t0 x now (after_refetch r).0
      go (t, true) k = k
      go (t, false) k = k

  IsPaid-with_keys :
      (now : ℕ) (kid : Option ℕ) (alg : ℕ) (keys : Keys) (s : KeySet)
      → IsPaid gap t0 x now s
      → IsPaid gap t0 x now (with_keys now kid alg keys s).0
  unfolding with_keys
  IsPaid-with_keys now kid alg keys s h =
      go (is_in alg s.algorithms) (picked now kid alg (pick keys kid) s)
        (IsPaid-picked now kid alg (pick keys kid) s h)
    where
      go :
          (b : Bool) (r : KeySet × Found)
          → IsPaid gap t0 x now r.0
          → IsPaid gap t0 x now (if_accepted b s r).0
      go true r k = k
      go false r k = h

  IsPaid-find_from :
      (now : ℕ) (kid : Option ℕ) (alg : ℕ) (o : Option Keys) (s : KeySet)
      → IsPaid gap t0 x now s
      → IsPaid gap t0 x now (find_from now kid alg o s).0
  IsPaid-find_from now kid alg none s h =
      IsPaid-after_start gap t0 x fast now waits_for_keys (start now retry_interval s)
        (IsPaid-retry gap t0 x fast now s h)
  IsPaid-find_from now kid alg (some keys) s h =
      IsPaid-with_keys now kid alg keys (refresh_if_stale now s)
        (IsPaid-refresh gap t0 x fast now s h)

  IsPaid-on_fetched :
      (now : ℕ) (o : Option Fetched) (s : KeySet)
      → IsPaid gap t0 x now s
      → IsPaid gap t0 x now (on_fetched now o s).0
  IsPaid-on_fetched now none s h = record {
    paid = h.paid;
    past = h.past;
    fetched_past = h.fetched_past;
    begun = h.begun;
    aged = h.aged;
  }
  IsPaid-on_fetched now (some f) s h = record {
    paid = h.paid;
    past = h.past;
    fetched_past = omega arith;
    begun = h.begun;
    aged = h.aged;
  }

  IsPaid-discovered :
      (now : ℕ) (s : KeySet) → IsPaid gap t0 x now s → IsPaid gap t0 x now (discovered now s)
  unfolding discovered
  IsPaid-discovered now s h = elim (Bool-cases (is_some s.jwks_uri)) [
    | inl e ↦ ground (arith, e, h)
    | inr e ↦ ground (arith, e, IsPaid-retry gap t0 x fast now s h)
  ]

  -- The time that pays for loads, after a call.
  abbrev paid_after : Call → ℕ
  paid_after (loads _) = x + gap
  paid_after _ = x

  IsPaid-step :
      (c : Call) (s : KeySet)
      → IsPaid gap t0 x (moment c) s
      → IsPaid gap t0 (paid_after c) (moment c) (step c s)
  unfolding step find resume_first complete
  IsPaid-step (finds now kid alg) s h = IsPaid-find_from now kid alg s.keys s h
  IsPaid-step (resumes now kid alg none) s h = h
  IsPaid-step (resumes now kid alg (some keys)) s h = IsPaid-with_keys now kid alg keys s h
  IsPaid-step (discovers now) s h = IsPaid-discovered now s h
  IsPaid-step (loads now) s h = IsPaid-load gap t0 x now s h
  IsPaid-step (completes now net) s h = IsPaid-on_fetched now (fetch net s) s h

module _ (gap t0 : ℕ) (fast : gap ≤ retry_interval) where
  abbrev paid_run : List Call → ℕ → ℕ
  paid_run [] x = x
  paid_run (c ∷ cs) x = paid_run cs (paid_after gap t0 x fast c)

  paid_run-count_loads : (cs : List Call) (x : ℕ) → paid_run cs x ≡ x + count_loads cs * gap
  paid_run-count_loads [] x = omega arith
  paid_run-count_loads (loads _ ∷ cs) x = omega (arith, paid_run-count_loads cs (x + gap))
  paid_run-count_loads (finds _ _ _ ∷ cs) x = paid_run-count_loads cs x
  paid_run-count_loads (resumes _ _ _ _ ∷ cs) x = paid_run-count_loads cs x
  paid_run-count_loads (discovers _ ∷ cs) x = paid_run-count_loads cs x
  paid_run-count_loads (completes _ _ ∷ cs) x = paid_run-count_loads cs x

  IsPaid-run :
      (cs : List Call) (x now last : ℕ) (s : KeySet)
      → IsOrdered now cs last
      → IsPaid gap t0 x now s
      → IsPaid gap t0 (paid_run cs x) last (run cs s)
  IsPaid-run [] x now last s o h = IsPaid-later gap t0 x now last s o h
  IsPaid-run (c ∷ cs) x now last s (l, o) h =
      IsPaid-run cs (paid_after gap t0 x fast c) (moment c) last (step c s) o
        (IsPaid-step gap t0 x fast c s (IsPaid-later gap t0 x now (moment c) s l h))

-- Whatever tokens ask for, made-up key ids included, and however fetches end, the provider is
-- asked at most once in every five seconds, or in every max_age where that is shorter, once more,
-- and once for each load: from a set with no keys at a moment, no more fetches than that are
-- started by any later moment. Time does not go back.
pub run-fetches :
    (issuer max_age : ℕ) (explicit : Option (List ℕ)) (cs : List Call) (t0 last : ℕ)
    → IsOrdered t0 cs last
    → (run cs (create issuer max_age explicit)).fetches * min retry_interval max_age + t0
      ≤ last + (1 + count_loads cs) * min retry_interval max_age
unfolding create
run-fetches issuer max_age explicit cs t0 last o =
    let gap = min retry_interval max_age in
    let s = create issuer max_age explicit in
    let fast : gap ≤ retry_interval = omega arith in
    let h = IsPaid-run gap t0 fast cs 0 t0 last s o (record {
      paid = refl;
      past = tt;
      fetched_past = omega arith;
      begun = omega arith;
      aged = omega arith;
    }) in
    go gap (paid_run gap t0 fast cs 0) (run cs s).fetches (run cs s).attempted
      (paid_run-count_loads gap t0 fast cs 0) h.paid h.past h.begun
  where
    go :
        (gap x fetches : ℕ) (o : Option ℕ)
        → x ≡ 0 + count_loads cs * gap
        → Paid gap t0 x fetches o
        → Past last o
        → t0 ≤ last
        → fetches * gap + t0 ≤ last + (1 + count_loads cs) * gap
    go gap x fetches none e p q b = ground (arith, p, b)
    go gap x fetches (some a) e p q b = omega (arith, p, q, e)
