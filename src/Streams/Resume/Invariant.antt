-- ===== src/Streams/Resume/Invariant.antt =====
-- The system of a resumed subscription, and the invariant of its steps.
use oxbrook.Prelude.{
  ℕ, ◌<◌, ◌≡◌, refl, ◌⊎◌, inl, Bool, true, false, Option, none, some, List, [], ◌∷◌, ◌++◌, map,
  length, Result, ok,
}
use oxbrook.Streams.Position.{Position, position_gt}
use oxbrook.Streams.Subscription.{Policy, message, Subscription, past, init, try_offer}
use oxbrook.Streams.Reader.{Read, yielded, replay_round, read_round}
use oxbrook.Streams.Order.{Ascends}
use oxbrook.Streams.Log.{newer, to_item, Stands}

-- A page that the reader waits for: asked with the value of `_live` taken first, then answered.
pub data Request {ℓ} (A : Type ℓ) : Type ℓ where
  idle : Request A
  asked : Bool → Request A
  answered : Bool → List (Position × A) → Request A

-- What the tail has still to deliver; none before its position is fixed.
abbrev pub Tail {ℓ} : Type ℓ → Type ℓ
Tail A = Option (List (Position × A))

pub record System {ℓ} (A : Type ℓ) : Type ℓ where
  pub log : List (Position × A)
  pub tail : Tail A
  pub live : Bool
  pub request : Request A
  pub sub : Subscription A
  pub out : List (Position × A)

module _ {ℓ} {A : Type ℓ} where
  -- The entry that a read hands out.
  abbrev pub got : Result (Read A) → List (Position × A)
  got (ok (yielded (message (some p) x))) = (p, x) ∷ []
  got _ = []

  abbrev pub grow : Tail A → Position × A → Tail A
  grow none e = none
  grow (some u) e = some (u ++ e ∷ [])

  -- The subscription has just been registered; the tail is not there yet.
  unfoldable pub start : ℕ → Policy → Position → List (Position × A) → System A
  start n policy since log = record {
    log = log;
    tail = none;
    live = false;
    request = idle;
    sub = init n policy (past since);
    out = [];
  }

  abbrev pub IsNonempty : List (Position × A) → Type 0
  IsNonempty [] = ⊥
  IsNonempty (_ ∷ _) = Unit

  abbrev pub after_read : System A → Subscription A × Result (Read A) → System A
  after_read s (sub, r) = record s { request = idle; sub = sub; out = s.out ++ got r }

  -- What publishers, the tail and the reader do, in any order. `log` is all that was published. What
  -- Redis holds when a page is read is a last part of it, `kept`: publishing trims the stream, by
  -- MAXLEN. The steps are those where trimming is no faster than the readers of the stream: the
  -- trimmed part, `gone`, has nothing newer than the reader's position, and the tail reads each
  -- entry before it is trimmed.
  pub data Step : System A → System A → Type ℓ where
    publishes :
        (s : System A) (e : Position × A)
        → Ascends none (s.log ++ e ∷ [])
        → Step s (record s { log = s.log ++ e ∷ []; tail = grow s.tail e })
    positions : (s : System A) → s.tail ≡ none → Step s (record s { tail = some [] })
    announces :
        (s : System A) (u : List (Position × A))
        → s.tail ≡ some u
        → Step s (record s { live = true })
    delivers :
        (s : System A) (p : Position) (x : A) (u : List (Position × A))
        → s.tail ≡ some ((p, x) ∷ u)
        → length s.sub.buffer < s.sub.maxsize
        → Step s (record s { tail = some u; sub = (try_offer x (some p) s.sub).0 })
    asks :
        (s : System A)
        → s.request ≡ idle
        → s.sub.replaying ≡ true
        → s.sub.backlog ≡ []
        → Step s (record s { request = asked s.live })
    answers :
        (s : System A) (live : Bool) (at : Position) (page rest gone kept : List (Position × A))
        → s.request ≡ asked live
        → s.sub.after ≡ some at
        → s.log ≡ gone ++ kept
        → newer at gone ≡ []
        → newer at kept ≡ page ++ rest
        → IsNonempty page ⊎ (newer at kept ≡ [])
        → Step s (record s { request = answered live page })
    resumes :
        (s : System A) (live : Bool) (page : List (Position × A))
        → s.request ≡ answered live page
        → Step s (after_read s (replay_round live page s.sub))
    replays :
        (s : System A) (e : Position × A) (rest : List (Position × A))
        → s.request ≡ idle
        → s.sub.backlog ≡ e ∷ rest
        → Step s (after_read s (replay_round false [] s.sub))
    reads :
        (s : System A) (f : ℕ)
        → s.request ≡ idle
        → s.sub.replaying ≡ false
        → Step s (after_read s (read_round f s.sub))

  -- `at` is the reader's position and `held` the entries in the buffer. Everything newer than the
  -- position is in the buffer or still to come from the tail, up to what only a replay can give.
  abbrev pub Covered :
      Position → List (Position × A) → List (Position × A) → List (Position × A) → Type ℓ
  Covered at held u log = newer at log ≡ newer at held ++ newer at u

  abbrev pub Covers : Bool → Tail A → Position → List (Position × A) → List (Position × A) → Type ℓ
  Covers replaying none at held log = (replaying ≡ true) × (held ≡ [])
  Covers true (some u) at held log =
      (gap : List (Position × A)) × (newer at log ≡ gap ++ (newer at held ++ newer at u))
  Covers false (some u) at held log = Covered at held u log

  -- What a request in flight knows.
  abbrev pub Knows : Request A → System A → Position → List (Position × A) → Type ℓ
  Knows idle s at held = Unit
  Knows (asked live) s at held =
      (s.sub.replaying ≡ true)
      × (s.sub.backlog ≡ [])
      × ((live ≡ false) ⊎ (u : List (Position × A)) × (s.tail ≡ some u))
  Knows (answered live page) s at held =
      (s.sub.replaying ≡ true)
      × (s.sub.backlog ≡ [])
      × ((rest : List (Position × A)) × (newer at s.log ≡ page ++ rest))
      × (IsNonempty page
          ⊎ (live ≡ false)
          ⊎ ((u : List (Position × A)) × (s.tail ≡ some u) × Covered at held u s.log))

  pub record Inv (since : Position) (s : System A) (at : Position) (held : List (Position × A))
      : Type ℓ where
    pub sorted : Ascends none s.log
    pub position : s.sub.after ≡ some at
    pub resumable : s.sub.ids ≡ true
    pub open_lem : s.sub.closed ≡ false
    pub holds : s.sub.buffer ≡ map to_item held
    pub account : newer since s.log ≡ s.out ++ newer at s.log
    pub covers : Covers s.sub.replaying s.tail at held s.log
    pub flagged : (s.live ≡ false) ⊎ (u : List (Position × A)) × (s.tail ≡ some u)
    pub backlog : (rest : List (Position × A)) × (newer at s.log ≡ s.sub.backlog ++ rest)
    pub over : (s.sub.replaying ≡ true) ⊎ (s.sub.backlog ≡ [])
    -- the position is the one asked for, or that of an entry newer than it
    pub reached : (at ≡ since) ⊎ ((position_gt at since ≡ true) × Stands at s.log)
    pub knows : Knows s.request s at held

  pub start-Inv :
      (n : ℕ) (p : Policy) (since : Position) (log : List (Position × A))
      → Ascends none log
      → Inv since (start n p since log) since []
  unfolding start init
  start-Inv n p since log h = record {
    sorted = h;
    position = refl;
    resumable = refl;
    open_lem = refl;
    holds = refl;
    account = refl;
    covers = (refl, refl);
    flagged = inl refl;
    backlog = (newer since log, refl);
    over = inl refl;
    reached = inl refl;
    knows = tt;
  }
