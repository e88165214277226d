-- ===== src/Streams/Reader.antt =====
-- The reading side of `Subscription` in python/oxbrook/_streams.py: `_prune`, `_replayed` and
-- `__anext__`. The page that `backend.history` returns and the topic's `_live` flag are arguments.
use oxbrook.Prelude.{
  ℕ, zero, suc, Bool, true, false, Option, none, some, List, [], ◌∷◌, ◌++◌, if◌then◌else◌, Result,
  ok, raise, ◌>>=◌, type_error, attribute_error,
}
use oxbrook.Streams.Position.{Position, position_le, position_gt}
use oxbrook.Streams.Subscription.{Item, message, Subscription, item_position}

-- What `__anext__` does next. `again` is the `continue` of its loop, `sleeps` the pause of
-- `_replayed` before it reads the next page, `caught_up` its `None`.
pub data Read {ℓ} (A : Type ℓ) : Type ℓ where
  yielded : Item A → Read A
  stopped again sleeps caught_up exhausted : Read A
  waits : ℕ → Read A

-- `putters.popleft()` when there is one: the producer to wake, and those that stay
abbrev pub first_putter : List ℕ → List ℕ
first_putter [] = []
first_putter (f ∷ _) = f ∷ []

abbrev pub later_putters : List ℕ → List ℕ
later_putters [] = []
later_putters (_ ∷ fs) = fs

module _ {ℓ} {A : Type ℓ} where
  -- The buffered copies of what the replay gave go.
  unfoldable pub keep_newer : Position → List (Item A) → Result (List (Item A))
  keep_newer after [] = ok []
  keep_newer after (m ∷ ms) = do
    rest ← keep_newer after ms
    elim (item_position m) [
      | none ↦ raise attribute_error
      | some p ↦ ok (if position_gt p after then m ∷ rest else rest)
    ]

  unfoldable pub pruned : Option Position → List (Item A) → Result (List (Item A))
  unfolding keep_newer
  pruned (some after) ms = keep_newer after ms
  pruned none [] = ok []
  pruned none (_ ∷ _) = raise type_error

  abbrev with_buffer : Subscription A → Result (List (Item A)) → Subscription A × Result (Read A)
  with_buffer s (ok kept) = (record s { buffer = kept }, ok caught_up)
  with_buffer s (raise e) = (s, raise e)

  unfoldable pub prune : Subscription A → Subscription A × Result (Read A)
  unfolding pruned
  prune s = with_buffer s (pruned s.after s.buffer)

  -- `self._backlog.popleft()` and the message it makes
  abbrev replay_entry :
      Position × A → List (Position × A) → Subscription A → Subscription A × Result (Read A)
  replay_entry (p, value) rest s =
      (record s { backlog = rest; after = some p }, ok (yielded (message (some p) value)))

  -- A page read while the backlog was empty.
  abbrev on_page : Bool → List (Position × A) → Subscription A → Subscription A × Result (Read A)
  on_page live (entry ∷ rest) s = replay_entry entry rest s
  on_page true [] s = prune (record s { replaying = false })
  on_page false [] s = (s, ok sleeps)

  abbrev request_page :
      Option Position
      → Bool
      → List (Position × A)
      → Subscription A
      → Subscription A × Result (Read A)
  request_page none live page s = (s, raise type_error)
  request_page (some _) live page s = on_page live page s

  abbrev replay_from :
      List (Position × A)
      → Bool
      → List (Position × A)
      → Subscription A
      → Subscription A × Result (Read A)
  replay_from (entry ∷ rest) live page s = replay_entry entry rest s
  replay_from [] live page s =
      if s.closed
      then (record s { replaying = false }, ok caught_up)
      else request_page s.after live page s

  -- One round of `_replayed`: at most one page is read.
  unfoldable pub replay_round :
      Bool → List (Position × A) → Subscription A → Subscription A × Result (Read A)
  unfolding prune
  replay_round live page s = replay_from s.backlog live page s

  take_item : Item A → List (Item A) → Subscription A → Subscription A
  take_item item rest s = record s {
    buffer = rest;
    putters = later_putters s.putters;
    woken = s.woken ++ first_putter s.putters;
  }

  -- The check against `_after`; `s` is the state with the item taken.
  abbrev hand_out :
      Option Position → Option Position → Item A → Subscription A → Subscription A × Result (Read A)
  hand_out none after item s = (s, raise attribute_error)
  hand_out (some p) none item s = (record s { after = some p }, ok (yielded item))
  hand_out (some p) (some a) item s =
      if position_le p a then (s, ok again) else (record s { after = some p }, ok (yielded item))

  abbrev read_from : ℕ → List (Item A) → Subscription A → Subscription A × Result (Read A)
  read_from fresh (item ∷ rest) s =
      let taken = take_item item rest s in
      if s.ids then hand_out (item_position item) s.after item taken else (taken, ok (yielded item))
  read_from fresh [] s =
      if s.closed then (s, ok stopped) else (record s { getter = some fresh }, ok (waits fresh))

  -- One round of the loop of `__anext__`.
  unfoldable pub read_round : ℕ → Subscription A → Subscription A × Result (Read A)
  unfolding take_item
  read_round fresh s = read_from fresh s.buffer s

  -- The loop of `__anext__`, up to its first await or its end.
  unfoldable pub read_loop : ℕ → ℕ → Subscription A → Subscription A × Result (Read A)
  read_loop zero fresh s = (s, ok exhausted)
  read_loop (suc fuel) fresh s =
      let (s', r) = read_round fresh s in
      let rest = read_loop fuel fresh s' in elim r [ ok again ↦ rest | other ↦ (s', other) ]

  -- `__anext__` from its call to its first await or its end.
  unfoldable pub next :
      ℕ → ℕ → Bool → List (Position × A) → Subscription A → Subscription A × Result (Read A)
  next fuel fresh live page s =
      let (s', r) = replay_round live page s in
      if s.replaying
      then elim r [ ok caught_up ↦ read_loop fuel fresh s' | other ↦ (s', other) ]
      else read_loop fuel fresh s
