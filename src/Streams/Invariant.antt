-- ===== src/Streams/Invariant.antt =====
-- The well-formedness of a subscription (python/oxbrook/_streams.py), kept by every method.
use oxbrook.Prelude.{
  ℕ, zero, suc, ◌≤◌, ◌≡◌, refl, ◌⊎◌, inl, inr, Bool, false, Option, none, some, List, [], ◌∷◌,
  length, length-append, ok, arith, Result-cases,
}
use oxbrook.Streams.Position.{Position}
use oxbrook.Streams.Subscription.{
  Policy, Item, bare, message, Subscription, Since, init, put, try_offer, offer_round, close,
}
use oxbrook.Streams.Reader.{prune, replay_round, read_round, read_loop, next, keep_newer, pruned}

pub record IsValid {ℓ} {A : Type ℓ} (s : Subscription A) : Type ℓ where
  -- never more than `maxsize` messages in memory
  pub bounded : length s.buffer ≤ s.maxsize
  pub positive : 1 ≤ s.maxsize
  -- a reader is left waiting only on an empty, open subscription
  pub wakeful : (s.getter ≡ none) ⊎ (s.buffer ≡ []) × (s.closed ≡ false)
  -- a closed subscription leaves no producer waiting
  pub released : (s.closed ≡ false) ⊎ (s.putters ≡ [])

module _ {ℓ} {A : Type ℓ} where
  -- A new subscription with room for a message is well formed.
  pub init-IsValid : (n : ℕ) (p : Policy) (c : Since) → 1 ≤ n → IsValid (init {A = A} n p c)
  unfolding init
  init-IsValid n p c h = record {
    bounded = omega arith;
    positive = h;
    wakeful = inl refl;
    released = inl refl;
  }

  pub put-IsValid : (x : Item A) (s : Subscription A) → IsValid s → IsValid (put x s).0
  unfolding put
  put-IsValid x s v = ground (arith, length-append s.buffer (x ∷ []))

  pub close-IsValid : (s : Subscription A) → IsValid s → IsValid (close s)
  unfolding close
  close-IsValid s v = ground arith

  pub offer_round-IsValid :
      (f : ℕ) (x : A) (s : Subscription A) → IsValid s → IsValid (offer_round f x s).0
  unfolding offer_round
  offer_round-IsValid f x s v = ground (arith, length-append s.buffer (bare x ∷ []))

  pub read_round-IsValid : (f : ℕ) (s : Subscription A) → IsValid s → IsValid (read_round f s).0
  unfolding read_round
  read_round-IsValid f s v = ground arith

  pub try_offer-IsValid :
      (x : A) (p : Option Position) (s : Subscription A) → IsValid s → IsValid (try_offer x p s).0
  unfolding try_offer
  try_offer-IsValid x p s v =
      ground (arith, put-IsValid (bare x) s v, put-IsValid (message p x) s v)

  length-keep_newer :
      (p : Position) (ms : List (Item A)) (kept : List (Item A))
      → keep_newer p ms ≡ ok kept
      → length kept ≤ length ms
  unfolding keep_newer
  length-keep_newer p [] kept h = ground arith
  length-keep_newer p (bare x ∷ ms) kept h = ground (arith)
  length-keep_newer p (message q x ∷ ms) kept h = elim (Result-cases (keep_newer p ms)) [
    | inl (rest, e) ↦ ground (arith, length-keep_newer p ms rest e)
    | inr (_, e) ↦ ground arith
  ]

  length-pruned :
      (a : Option Position) (ms kept : List (Item A))
      → pruned a ms ≡ ok kept
      → length kept ≤ length ms
  unfolding pruned
  length-pruned none [] kept h = ground arith
  length-pruned none (m ∷ ms) kept h = cc
  length-pruned (some p) ms kept h = length-keep_newer p ms kept h

  prune-IsValid : (s : Subscription A) → IsValid s → IsValid (prune s).0
  unfolding prune
  prune-IsValid s v = elim (Result-cases (pruned s.after s.buffer)) [
    | inl (kept, e) ↦ rw (e, prune) (grind (arith, length-pruned s.after s.buffer kept e))
    | inr (_, e) ↦ rw (e, prune) v
  ]

  pub replay_round-IsValid :
      (live : Bool) (page : List (Position × A)) (s : Subscription A)
      → IsValid s
      → IsValid (replay_round live page s).0
  unfolding replay_round
  replay_round-IsValid live page s v =
      ground (arith, prune-IsValid (record s { replaying = false }))

  pub read_loop-IsValid : (n f : ℕ) (s : Subscription A) → IsValid s → IsValid (read_loop n f s).0
  unfolding read_loop
  read_loop-IsValid zero f s v = v
  read_loop-IsValid (suc n) f s v =
      ground (arith, read_round-IsValid f s v, read_loop-IsValid n f (read_round f s).0)

  pub next-IsValid :
      (n f : ℕ) (live : Bool) (page : List (Position × A)) (s : Subscription A)
      → IsValid s
      → IsValid (next n f live page s).0
  unfolding next
  next-IsValid n f live page s v = ground (
    arith,
    replay_round-IsValid live page s v,
    read_loop-IsValid n f s v,
    read_loop-IsValid n f (replay_round live page s).0,
  )
