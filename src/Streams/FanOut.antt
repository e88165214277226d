-- ===== src/Streams/FanOut.antt =====
-- What one message does to the subscribers of a topic: `emit`, `emit_nowait` and `_fan_out` of
-- python/oxbrook/_streams.py.
use oxbrook.Prelude.{
  ap, subst, Result, raise, suc, ◌++◌, Bool, Option, not, sym, leb, Bool-cases, inl, inr, ◌≤◌, ℕ,
  ◌+◌, ◌<◌, ◌≡◌, refl, ◌⊎◌, true, false, none, some, List, [], ◌∷◌, ok, arith, length, All, map,
  if◌then◌else◌, ◌≢◌,
}
use oxbrook.Streams.Position.{Position, position_le}
use oxbrook.Streams.Subscription.{
  error, drop_oldest, drop_newest, block, Policy, Item, bare, message, Subscription, put, try_offer,
  offer_after, overflow, wake,
}
use oxbrook.Streams.Topic.{
  walk_on, drop_refused, Topic, counted, emit_each, emit_nowait, fan_each, emit_local,
}

-- The replay handed out the entry at `p`, or a later one.
abbrev pub was_given : Position → Option Position → Bool
was_given p none = false
was_given p (some after) = position_le p after

module _ {ℓ} {A : Type ℓ} where
  abbrev pub HasRoom : ℕ × Subscription A → Type 0
  HasRoom (h, sub) = (sub.closed ≡ false) × (length sub.buffer < sub.maxsize)

  -- A subscription with one more item in its buffer, whose waiting reader is woken.
  abbrev pub received : Item A → Subscription A → Subscription A
  received item s = record s {
    buffer = s.buffer ++ item ∷ [];
    getter = none;
    woken = s.woken ++ wake s.getter;
  }

  -- A message delivered once: bare, or with its id where the reader keeps track of ids and the
  -- replay did not give it.
  abbrev pub once : A → Position → ℕ × Subscription A → ℕ × Subscription A
  once x p (h, sub) = (
    h,
    if not sub.ids
        then received (bare x) sub
        else if was_given p sub.after
        then sub
        else received (message (some p) x) sub,
  )

  put-received :
      (x : Item A) (s : Subscription A)
      → s.closed ≡ false
      → length s.buffer < s.maxsize
      → put x s ≡ (received x s, ok true)
  unfolding put
  put-received x s o h = ground arith

  offer_plain :
      (x : A) (s : Subscription A)
      → s.closed ≡ false
      → length s.buffer < s.maxsize
      → s.ids ≡ false
      → try_offer x none s ≡ (received (bare x) s, ok true)
  unfolding try_offer
  offer_plain x s o h i = ground (arith, put-received (bare x) s o h)

  offer_entry :
      (x : A) (p : Position) (s : Subscription A)
      → s.closed ≡ false
      → length s.buffer < s.maxsize
      → s.ids ≡ true
      → try_offer x (some p) s
        ≡ (if was_given p s.after then s else received (message (some p) x) s, ok true)
  unfolding try_offer offer_after
  offer_entry x p s o h i = ground (arith, put-received (message (some p) x) s o h)

  -- On the publishing process, emit and then the tail's own copy of the entry together put a
  -- message once into the buffer of every local subscriber with room, and change nothing else but
  -- to wake its reader; one that the replay gave the entry to is left as it was. Emit counts them
  -- all.
  pub fan_each-emit_local :
      (x : A) (p : Position) (subs : List (ℕ × Subscription A))
      → All HasRoom subs
      → ((fan_each x p true (emit_local x subs).0).0 ≡ map (once x p) subs)
        × ((emit_local x subs).1 ≡ ok (counted (length subs)))
  unfolding fan_each emit_local
  fan_each-emit_local x p [] r = (refl, refl)
  fan_each-emit_local x p ((h, sub) ∷ subs) ((o, room), r) =
      ground (
        arith,
        offer_entry x p sub o room,
        offer_plain x sub o room,
        fan_each-emit_local x p subs r,
      )

module _ {A : Type 0} where
  -- What one message does to a subscriber: it is appended; or to a full buffer, from which the
  -- oldest is dropped and counted; or it is dropped itself, and counted.
  abbrev pub IsNoted : A → Subscription A → Subscription A → Type 0
  IsNoted x s t =
      ((length s.buffer < s.maxsize) × (t ≡ received (bare x) s))
      ⊎ ((s.maxsize ≤ length s.buffer)
          × (s.policy ≡ drop_oldest)
          × (y : Item A) × (rest : List (Item A)) × (s.buffer ≡ y ∷ rest)
          × (t ≡ received (bare x) (record s { buffer = rest; dropped = s.dropped + 1 })))
      ⊎ ((s.maxsize ≤ length s.buffer)
          × (s.policy ≢ drop_oldest)
          × (t ≡ record s { dropped = s.dropped + 1 }))

  abbrev pub Accounts : A → List (ℕ × Subscription A) → List (ℕ × Subscription A) → Type 0
  Accounts x [] [] = Unit
  Accounts x ((h, s) ∷ ss) ((k, t) ∷ ts) = (k ≡ h) × IsNoted x s t × Accounts x ss ts
  Accounts x _ _ = ⊥

  abbrev pub IsOpenTo : ℕ × Subscription A → Type 0
  IsOpenTo (h, s) = (s.closed ≡ false) × (s.ids ≡ false) × (s.policy ≢ error) × (0 < s.maxsize)

  evicted :
      (item y : Item A) (rest : List (Item A)) (s : Subscription A)
      → s.buffer ≡ y ∷ rest
      → overflow drop_oldest item s
        ≡ (received item (record s { buffer = rest; dropped = s.dropped + 1 }), ok true)
  unfolding overflow
  evicted item y rest s e = simp (e) refl

  overflow-IsNoted :
      (p : Policy) (b : List (Item A)) (x : A) (s : Subscription A)
      → s.policy ≡ p
      → s.buffer ≡ b
      → s.policy ≢ error
      → 0 < length b
      → s.maxsize ≤ length s.buffer
      → IsNoted x s (drop_refused (overflow p (bare x) s)).0
        × ((drop_refused (overflow p (bare x) s)).1 ≡ ok tt)
  unfolding overflow
  overflow-IsNoted drop_oldest [] x s e c n m f = absurd (omega arith)
  overflow-IsNoted drop_oldest (y ∷ rest) x s e c n m f =
      let q = ap drop_refused (evicted (bare x) y rest s c) in
      (inr (inl (f, e, y, rest, c, ap (λ r. r.0) q)), ap (λ r. r.1) q)
  overflow-IsNoted drop_newest b x s e c n m f = (inr (inr (f, (λ q. cc), refl)), refl)
  overflow-IsNoted block b x s e c n m f = (inr (inr (f, (λ q. cc), refl)), refl)
  overflow-IsNoted error b x s e c n m f = absurd (n e)

  put_full :
      (x : Item A) (s : Subscription A)
      → s.closed ≡ false
      → s.maxsize ≤ length s.buffer
      → put x s ≡ overflow s.policy x s
  unfolding put
  put_full x s o f = ground (arith, o)

  put-IsNoted :
      (x : A) (s : Subscription A)
      → s.closed ≡ false
      → s.policy ≢ error
      → 0 < s.maxsize
      → IsNoted x s (drop_refused (put (bare x) s)).0 × ((drop_refused (put (bare x) s)).1 ≡ ok tt)
  put-IsNoted x s o n m = elim (Bool-cases (leb s.maxsize (length s.buffer))) [
    | inl e ↦
        let f : s.maxsize ≤ length s.buffer = ground arith in
        subst (λ r. IsNoted x s (drop_refused r).0 × ((drop_refused r).1 ≡ ok tt))
          (sym (put_full (bare x) s o f))
          (overflow-IsNoted s.policy s.buffer x s refl refl n (omega arith) f)
    | inr e ↦
        let f : length s.buffer < s.maxsize = ground arith in
        subst (λ r. IsNoted x s (drop_refused r).0 × ((drop_refused r).1 ≡ ok tt))
          (sym (put-received (bare x) s o f)) (inl (f, refl), refl)
  ]

  offer_bare : (x : A) (s : Subscription A) → s.ids ≡ false → try_offer x none s ≡ put (bare x) s
  unfolding try_offer
  offer_bare x s i = rw i refl

  offered-IsNoted :
      (x : A) (s : Subscription A)
      → s.closed ≡ false
      → s.ids ≡ false
      → s.policy ≢ error
      → 0 < s.maxsize
      → IsNoted x s (drop_refused (try_offer x none s)).0
        × ((drop_refused (try_offer x none s)).1 ≡ ok tt)
  offered-IsNoted x s o i n m =
      subst (λ r. IsNoted x s (drop_refused r).0 × ((drop_refused r).1 ≡ ok tt))
        (sym (offer_bare x s i)) (put-IsNoted x s o n m)

  walked :
      (k : ℕ) (x : A) (s : Subscription A) (ss : List (ℕ × Subscription A))
      (r : Subscription A × Result (Unit {0})) (q : List (ℕ × Subscription A) × Result ℕ)
      → IsNoted x s r.0 × (r.1 ≡ ok tt)
      → (q.1 ≡ ok (length ss)) × Accounts x ss q.0
      → ((walk_on k r ss q).1 ≡ ok (suc (length ss)))
        × Accounts x ((k, s) ∷ ss) (walk_on k r ss q).0
  walked k x s ss (t, raise e) q (c, h) _ = absurd cc
  walked k x s ss (t, ok _) (ts, raise e) _ (h, _) = absurd cc
  walked k x s ss (t, ok _) (ts, ok n) (c, _) (h, d) = (cc, (refl, c, d))

  -- emit_nowait to open subscribers of which none raises counts every one of them and waits for
  -- none. Where there is room the message is appended to the buffer and the reader woken; a full
  -- buffer under drop_oldest loses its oldest message for it, and under another policy the message
  -- is lost, either counted as one more dropped; nothing else changes.
  pub emit_nowait-Accounts :
      (x : A) (t : Topic A)
      → t.durable ≡ false
      → All IsOpenTo t.subs
      → ((emit_nowait x t).1 ≡ ok (length t.subs)) × Accounts x t.subs (emit_nowait x t).0.subs
  unfolding emit_nowait
  emit_nowait-Accounts x t d h = rw d (each t.subs h)
    where
      each :
          (subs : List (ℕ × Subscription A))
          → All IsOpenTo subs
          → ((emit_each x subs).1 ≡ ok (length subs)) × Accounts x subs (emit_each x subs).0
      each [] h = (refl, tt)
      each ((k, s) ∷ subs) ((o, i, p, m), h) =
          walked k x s subs (drop_refused (try_offer x none s)) (emit_each x subs)
            (offered-IsNoted x s o i p m) (each subs h)
