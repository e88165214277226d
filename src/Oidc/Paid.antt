-- ===== src/Oidc/Paid.antt =====
-- `KeySet._start` and the time between fetches.
use oxbrook.Prelude.{
  ℕ, suc, ◌+◌, ◌-◌, ◌*◌, ◌≤◌, ◌≡◌, refl, Bool, true, false, ◌&&◌, Option, none, some, is_some, ltb,
  if◌then◌else◌, arith,
}
use oxbrook.Oidc.KeySet.{
  load, KeySet, refetch_interval, retry_interval, is_recent, start_if, start, has_failed,
  refresh_if_stale, Found, after_start,
}

-- The fetches so far are paid for by the time since `t0`, one for each `gap`, and one more; those
-- that `load` asked for by the time `x`.
abbrev pub Paid : ℕ → ℕ → ℕ → ℕ → Option ℕ → Type 0
Paid gap t0 x fetches none = fetches ≡ 0
Paid gap t0 x fetches (some attempted) = fetches * gap + t0 ≤ attempted + gap + x

abbrev pub Past : ℕ → Option ℕ → Type 0
Past now none = Unit
Past now (some attempted) = attempted ≤ now

pub record IsPaid (gap t0 x now : ℕ) (s : KeySet) : Type 0 where
  pub paid : Paid gap t0 x s.fetches s.attempted
  pub past : Past now s.attempted
  pub fetched_past : s.fetched ≤ now
  pub begun : t0 ≤ now
  pub aged : gap ≤ s.max_age

module _ (gap t0 x : ℕ) where
  pub IsPaid-later :
      (now later : ℕ) (s : KeySet) → now ≤ later → IsPaid gap t0 x now s → IsPaid gap t0 x later s
  IsPaid-later now later s l h = record {
    paid = h.paid;
    past = go s.attempted h.past;
    fetched_past = omega (arith, l, h.fetched_past);
    begun = omega (arith, l, h.begun);
    aged = h.aged;
  }
    where
      go : (o : Option ℕ) → Past now o → Past later o
      go none p = p
      go (some a) p = omega (arith, l, p)

  -- A start that is not refused comes a gap after the one before.
  abbrev IsSpaced : ℕ → ℕ → Option ℕ → Type 0
  IsSpaced now spacing none = Unit
  IsSpaced now spacing (some attempted) =
      is_recent now spacing (some attempted) ≡ false → attempted + gap ≤ now

  Paid-start :
      (now spacing fetches : ℕ) (o : Option ℕ)
      → t0 ≤ now
      → is_recent now spacing o ≡ false
      → IsSpaced now spacing o
      → Paid gap t0 x fetches o
      → suc fetches * gap + t0 ≤ now + gap + x
  Paid-start now spacing fetches none l r p h = ground (arith, l, h)
  Paid-start now spacing fetches (some a) l r p h = omega (arith, p r, h)

  IsPaid-start :
      (now spacing : ℕ) (s : KeySet)
      → IsSpaced now spacing s.attempted
      → IsPaid gap t0 x now s
      → IsPaid gap t0 x now (start now spacing s).0
  unfolding start
  IsPaid-start now spacing s p h = go s.fetching (is_recent now spacing s.attempted) refl
    where
      go :
          (f r : Bool)
          → is_recent now spacing s.attempted ≡ r
          → IsPaid gap t0 x now (start_if now f r s).0
      go true r e = h
      go false true e = h
      go false false e = record {
        paid = Paid-start now spacing s.fetches s.attempted h.begun e p h.paid;
        past = omega arith;
        fetched_past = h.fetched_past;
        begun = h.begun;
        aged = h.aged;
      }

  spaced : (now spacing : ℕ) (o : Option ℕ) → gap ≤ spacing → Past now o → IsSpaced now spacing o
  spaced now spacing none l p = tt
  spaced now spacing (some a) l p = λ r. ground (arith, r, l, p)

  -- Stale keys that were fetched after the last start.
  IsSpaced-stale :
      (now fetched max_age : ℕ) (o : Option ℕ)
      → gap ≤ max_age
      → fetched ≤ now
      → ltb max_age (now - fetched) ≡ true
      → has_failed o fetched ≡ false
      → IsSpaced now 0 o
  IsSpaced-stale now fetched max_age none l f e k = tt
  IsSpaced-stale now fetched max_age (some a) l f e k = λ r. ground (arith, l, f, e, k)

  module _ (fast : gap ≤ retry_interval) where
    pub IsPaid-retry :
        (now : ℕ) (s : KeySet)
        → IsPaid gap t0 x now s
        → IsPaid gap t0 x now (start now retry_interval s).0
    IsPaid-retry now s h =
        IsPaid-start now retry_interval s (spaced now retry_interval s.attempted fast h.past) h

    pub IsPaid-refetch :
        (now : ℕ) (s : KeySet)
        → IsPaid gap t0 x now s
        → IsPaid gap t0 x now (start now refetch_interval s).0
    IsPaid-refetch now s h =
        IsPaid-start now refetch_interval s
          (spaced now refetch_interval s.attempted (omega (arith, fast)) h.past) h

    pub IsPaid-refresh :
        (now : ℕ) (s : KeySet)
        → IsPaid gap t0 x now s
        → IsPaid gap t0 x now (refresh_if_stale now s)
    unfolding refresh_if_stale
    IsPaid-refresh now s h =
        go (is_some s.keys) (ltb s.max_age (now - s.fetched)) (has_failed s.attempted s.fetched)
          refl refl
      where
        go :
            (k old failed : Bool)
            → ltb s.max_age (now - s.fetched) ≡ old
            → has_failed s.attempted s.fetched ≡ failed
            → IsPaid gap t0 x now
                (if k && old then (start now (if failed then retry_interval else 0) s).0 else s)
        go false old failed o f = h
        go true false failed o f = h
        go true true true o f = IsPaid-retry now s h
        go true true false o f =
            IsPaid-start now 0 s
              (IsSpaced-stale now s.fetched s.max_age s.attempted h.aged h.fetched_past o f) h

    pub IsPaid-after_start :
        (now : ℕ) (otherwise : Found) (r : KeySet × Bool)
        → IsPaid gap t0 x now r.0
        → IsPaid gap t0 x now (after_start otherwise r).0
    IsPaid-after_start now otherwise (s, true) h = h
    IsPaid-after_start now otherwise (s, false) h = h

-- `load` starts a fetch at any time, and is paid for by itself.
pub IsPaid-load :
    (gap t0 x now : ℕ) (s : KeySet)
    → IsPaid gap t0 x now s
    → IsPaid gap t0 (x + gap) now (load now s)
unfolding load start
IsPaid-load gap t0 x now s h = go s.fetching (is_recent now 0 s.attempted)
  where
    more : (fetches : ℕ) (o : Option ℕ) → Paid gap t0 x fetches o → Paid gap t0 (x + gap) fetches o
    more fetches none p = p
    more fetches (some a) p = omega (arith, p)

    next :
        (fetches : ℕ) (o : Option ℕ)
        → Paid gap t0 x fetches o
        → Past now o
        → suc fetches * gap + t0 ≤ now + gap + (x + gap)
    next fetches none p q = ground (arith, p, h.begun)
    next fetches (some a) p q = omega (arith, p, q)

    same : IsPaid gap t0 (x + gap) now s
    same = record {
      paid = more s.fetches s.attempted h.paid;
      past = h.past;
      fetched_past = h.fetched_past;
      begun = h.begun;
      aged = h.aged;
    }

    go : (f r : Bool) → IsPaid gap t0 (x + gap) now (start_if now f r s).0
    go true r = same
    go false true = same
    go false false = record {
      paid = next s.fetches s.attempted h.paid h.past;
      past = omega arith;
      fetched_past = h.fetched_past;
      begun = h.begun;
      aged = h.aged;
    }
