-- ===== src/Streams/Order.antt =====
-- The order in which a subscription opened with `since` hands out entries
-- (`_replayed`, `__anext__` of python/oxbrook/_streams.py).
use oxbrook.Prelude.{
  ℕ, zero, suc, ◌<◌, ◌≡◌, refl, ◌⊎◌, inl, inr, Bool, true, false, Option, none, some, List, [], ◌∷◌,
  length, Result, ok, arith, ◌≢◌, Bool-cases,
}
use oxbrook.Streams.Position.{Position, position_gt}
use oxbrook.Streams.Subscription.{Subscription, item_position}
use oxbrook.Streams.Reader.{
  Read, yielded, again, exhausted, caught_up, prune, replay_round, read_round, read_loop, next,
}

abbrev pub Newer : Option Position → Position → Type 0
Newer none p = Unit
Newer (some a) p = position_gt p a ≡ true

-- The reader's position is that of the last entry handed out, and never goes back.
abbrev pub Moves : Option Position → Option Position → Option Position → Type 0
Moves a a' none = a' ≡ a
Moves a a' (some p) = Newer a p × (a' ≡ some p)

module _ {ℓ} {A : Type ℓ} where
  -- Entries in stream order, all after the given position.
  abbrev pub Ascends : Option Position → List (Position × A) → Type 0
  Ascends a [] = Unit
  Ascends a ((p, _) ∷ rest) = Newer a p × Ascends (some p) rest

  pub record IsOrdered (s : Subscription A) : Type ℓ where
    pub resumable : s.ids ≡ true
    pub ascends : Ascends s.after s.backlog
    pub over : (s.replaying ≡ true) ⊎ (s.backlog ≡ [])

  -- The id that a read hands out.
  abbrev pub read_id : Result (Read A) → Option Position
  read_id (ok (yielded item)) = item_position item
  read_id _ = none

  read_round-Moves :
      (f : ℕ) (s : Subscription A)
      → s.ids ≡ true
      → Moves s.after (read_round f s).0.after (read_id (read_round f s).1)
  unfolding read_round
  read_round-Moves f s h = ground arith

  read_round-frame :
      (f : ℕ) (s : Subscription A)
      → ((read_round f s).0.ids ≡ s.ids)
        × ((read_round f s).0.backlog ≡ s.backlog)
        × ((read_round f s).0.replaying ≡ s.replaying)
  unfolding read_round
  read_round-frame f s = ground arith

  read_loop-Moves :
      (n f : ℕ) (s : Subscription A)
      → s.ids ≡ true
      → Moves s.after (read_loop n f s).0.after (read_id (read_loop n f s).1)
  unfolding read_loop
  read_loop-Moves zero f s h = refl
  read_loop-Moves (suc n) f s h =
      ground (
        arith,
        read_round-Moves f s h,
        read_round-frame f s,
        read_loop-Moves n f (read_round f s).0,
      )

  read_loop-frame :
      (n f : ℕ) (s : Subscription A)
      → ((read_loop n f s).0.ids ≡ s.ids)
        × ((read_loop n f s).0.backlog ≡ s.backlog)
        × ((read_loop n f s).0.replaying ≡ s.replaying)
  unfolding read_loop
  read_loop-frame zero f s = (refl, refl, refl)
  read_loop-frame (suc n) f s =
      ground (arith, read_round-frame f s, read_loop-frame n f (read_round f s).0)

  prune-frame :
      (s : Subscription A)
      → ((prune s).0.ids ≡ s.ids)
        × ((prune s).0.backlog ≡ s.backlog)
        × ((prune s).0.replaying ≡ s.replaying)
        × ((prune s).0.after ≡ s.after)
        × (read_id (prune s).1 ≡ none)
  unfolding prune
  prune-frame s = ground arith

  pub record Reads (s s' : Subscription A) (r : Result (Read A)) : Type ℓ where
    pub moves : Moves s.after s'.after (read_id r)
    pub ordered : IsOrdered s'

  replay_round-Reads :
      (live : Bool) (page : List (Position × A)) (s : Subscription A)
      → IsOrdered s
      → s.replaying ≡ true
      → Ascends s.after page
      → Reads s (replay_round live page s).0 (replay_round live page s).1
  unfolding replay_round
  replay_round-Reads live page s o q a =
      ground (arith, prune-frame (record s { replaying = false }))

  read_loop-Reads :
      (n f : ℕ) (s : Subscription A)
      → IsOrdered s
      → s.backlog ≡ []
      → Reads s (read_loop n f s).0 (read_loop n f s).1
  read_loop-Reads n f s o b = ground (arith, read_loop-Moves n f s, read_loop-frame n f s)

  replay_round-caught_up :
      (live : Bool) (page : List (Position × A)) (s : Subscription A)
      → (replay_round live page s).1 ≡ ok caught_up
      → (replay_round live page s).0.backlog ≡ []
  unfolding replay_round
  replay_round-caught_up live page s h =
      ground (arith, prune-frame (record s { replaying = false }))

  -- On a resumed subscription one call of __anext__ hands out an entry newer than all before it,
  -- or leaves the position where it was; a page must hold entries after the position, in order.
  pub next-Reads :
      (n f : ℕ) (live : Bool) (page : List (Position × A)) (s : Subscription A)
      → IsOrdered s
      → Ascends s.after page
      → Reads s (next n f live page s).0 (next n f live page s).1
  unfolding next
  next-Reads n f live page s o a = elim (Bool-cases s.replaying) [
    | inl on ↦
        let first = replay_round-Reads live page s o on a in
        ground (
          arith,
          first.moves,
          first.ordered,
          replay_round-caught_up live page s,
          read_loop-Reads n f (replay_round live page s).0 first.ordered,
        )
    | inr off ↦ ground (arith, read_loop-Reads n f s o)
  ]

  read_round-shrinks :
      (f : ℕ) (s : Subscription A)
      → (read_round f s).1 ≡ ok again
      → length s.buffer ≡ suc (length (read_round f s).0.buffer)
  unfolding read_round
  read_round-shrinks f s h = ground arith

  read_round-ne-exhausted : (f : ℕ) (s : Subscription A) → (read_round f s).1 ≢ ok exhausted
  unfolding read_round
  read_round-ne-exhausted f s = ground arith

  -- With more fuel than messages in the buffer the loop of __anext__ ends by itself.
  pub read_loop_total :
      (n f : ℕ) (s : Subscription A)
      → length s.buffer < n
      → ((read_loop n f s).1 ≢ ok exhausted) × ((read_loop n f s).1 ≢ ok again)
  unfolding read_loop
  read_loop_total zero f s h = absurd (omega arith)
  read_loop_total (suc n) f s h = ground (
    arith,
    read_round-shrinks f s,
    read_round-ne-exhausted f s,
    read_loop_total n f (read_round f s).0,
  )
