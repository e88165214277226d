-- ===== src/Streams/Runs.antt =====
-- Any sequence of calls on one subscription (python/oxbrook/_streams.py), by producers and by its
-- reader.
use oxbrook.Prelude.{ℕ, ◌≡◌, Bool, Option, none, some, List, [], ◌∷◌, arith}
use oxbrook.Streams.Position.{Position}
use oxbrook.Streams.Subscription.{Subscription, try_offer, offer_round, close}
use oxbrook.Streams.Reader.{next}
use oxbrook.Streams.Invariant.{
  IsValid, try_offer-IsValid, offer_round-IsValid, close-IsValid, next-IsValid,
}
use oxbrook.Streams.Order.{Newer, Ascends, IsOrdered, Moves, read_id, next-Reads}

pub data Call {ℓ} (A : Type ℓ) : Type ℓ where
  offers : A → Option Position → Call A
  awaits_room : ℕ → A → Call A
  reads : ℕ → ℕ → Bool → List (Position × A) → Call A
  closes : Call A

abbrev note : Option Position → List Position → List Position
note none ps = ps
note (some p) ps = p ∷ ps

-- Each id is newer than the one before it, the first than the given position.
abbrev pub Rising : Option Position → List Position → Type 0
Rising a [] = Unit
Rising a (p ∷ ps) = Newer a p × Rising (some p) ps

Rising-note :
    (a b m : Option Position) (ps : List Position)
    → Moves a b m
    → Rising b ps
    → Rising a (note m ps)
Rising-note a b none ps h r = rw (← h) r
Rising-note a b (some p) ps (n, h) r = (n, rw h at r)

module _ {ℓ} {A : Type ℓ} where
  -- The state after a call, and the id that the call hands to the reader.
  unfoldable pub step : Call A → Subscription A → Subscription A × Option Position
  step (offers x p) s = ((try_offer x p s).0, none)
  step (awaits_room f x) s = ((offer_round f x s).0, none)
  step (reads n f live page) s = ((next n f live page s).0, read_id (next n f live page s).1)
  step closes s = (close s, none)

  unfoldable pub run : List (Call A) → Subscription A → Subscription A
  run [] s = s
  run (c ∷ cs) s = run cs (step c s).0

  -- The ids handed out, in order.
  unfoldable pub handed : List (Call A) → Subscription A → List Position
  handed [] s = []
  handed (c ∷ cs) s = note (step c s).1 (handed cs (step c s).0)

  -- Each page read holds entries after the reader's position, in stream order.
  abbrev FitsPage : Call A → Subscription A → Type 0
  FitsPage (reads n f live page) s = Ascends s.after page
  FitsPage _ s = Unit

  abbrev pub PagesFit : List (Call A) → Subscription A → Type 0
  PagesFit [] s = Unit
  PagesFit (c ∷ cs) s = FitsPage c s × PagesFit cs (step c s).0

  -- Whatever producers and the reader do, in any order, the buffer stays within maxsize, a reader
  -- waits only on an empty open subscription, and a closed one leaves no producer waiting.
  pub run-IsValid : (cs : List (Call A)) (s : Subscription A) → IsValid s → IsValid (run cs s)
  unfolding run step
  run-IsValid [] s v = v
  run-IsValid (offers x p ∷ cs) s v = run-IsValid cs _ (try_offer-IsValid x p s v)
  run-IsValid (awaits_room f x ∷ cs) s v = run-IsValid cs _ (offer_round-IsValid f x s v)
  run-IsValid (reads n f live page ∷ cs) s v = run-IsValid cs _ (next-IsValid n f live page s v)
  run-IsValid (closes ∷ cs) s v = run-IsValid cs _ (close-IsValid s v)

  abbrev pub Keeps : Subscription A → Subscription A → Type ℓ
  Keeps s t =
      (t.ids ≡ s.ids) × (t.after ≡ s.after) × (t.backlog ≡ s.backlog) × (t.replaying ≡ s.replaying)

  pub try_offer-Keeps :
      (x : A) (p : Option Position) (s : Subscription A) → Keeps s (try_offer x p s).0
  unfolding try_offer
  try_offer-Keeps x p s = ground arith

  offer_round-Keeps : (f : ℕ) (x : A) (s : Subscription A) → Keeps s (offer_round f x s).0
  unfolding offer_round
  offer_round-Keeps f x s = ground arith

  close-Keeps : (s : Subscription A) → Keeps s (close s)
  unfolding close
  close-Keeps s = ground arith

  step-Reads :
      (c : Call A) (s : Subscription A)
      → IsOrdered s
      → FitsPage c s
      → Moves s.after (step c s).0.after (step c s).1 × IsOrdered (step c s).0
  unfolding step
  step-Reads (offers x p) s o h = ground (arith, try_offer-Keeps x p s)
  step-Reads (awaits_room f x) s o h = ground (arith, offer_round-Keeps f x s)
  step-Reads (reads n f live page) s o h =
      let r = next-Reads n f live page s o h in (r.moves, r.ordered)
  step-Reads closes s o h = ground (arith, close-Keeps s)

  -- A subscription opened with since hands out ids that rise strictly, from its position on: no
  -- entry twice and none out of order, whether it comes from the replay or live. Each page read
  -- holds entries after the reader's position, in stream order.
  pub handed-Rising :
      (cs : List (Call A)) (s : Subscription A)
      → IsOrdered s
      → PagesFit cs s
      → Rising s.after (handed cs s)
  unfolding handed
  handed-Rising [] s o h = tt
  handed-Rising (c ∷ cs) s o (h, hs) =
      let (moves, o') = step-Reads c s o h in
      Rising-note s.after (step c s).0.after (step c s).1 (handed cs (step c s).0) moves
        (handed-Rising cs (step c s).0 o' hs)
