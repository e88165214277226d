-- ===== src/Durable/Delivery.antt =====
-- `Consumer` over calls in any order: what it hands out.
use oxbrook.Prelude.{
  ◌≡◌, refl, sym, ap, ◌∙◌, Bool, true, false, List, [], ◌∷◌, ◌++◌, append-nil, append_assoc,
  if◌then◌else◌,
}
use oxbrook.Durable.{
  Message, Consumer, Replies, fill, Next, hands, stops, waits, raises, after_fill, Stage, goes_on,
  returns, raised, take_from, next, close,
}
use oxbrook.Durable.Reading.{Batch, Gives, reads, fill-reads}

-- What the reads that a call of `__anext__` makes are to give, and what it hands out.
abbrev or_none : List Message → List Message → List Message
or_none [] ms = ms
or_none (_ ∷ _) ms = []

abbrev pub unless_refused : Batch → List Message → List Message
unless_refused (ms, true) later = ms
unless_refused (ms, false) later = ms ++ later

abbrev pub read : List Replies → Consumer → List Message
read [] c = []
read (r ∷ rs) c =
    let later = read rs (fill r c).0 in
    or_none c.buffer (if c.closed then [] else unless_refused (reads r c.recovering c.claims) later)

abbrev pub handed_by : Next → List Message
handed_by (hands m) = m ∷ []
handed_by stops = []
handed_by waits = []
handed_by raises = []

take_from-read :
    (b ms : List Message) (c : Consumer) (rest : Consumer → Consumer × Next)
    → (b ≡ [] → handed_by (rest c).1 ++ (rest c).0.buffer ≡ ms)
    → handed_by (take_from b c rest).1 ++ (take_from b c rest).0.buffer ≡ b ++ or_none b ms
take_from-read [] ms c rest h = h refl
take_from-read (m ∷ b) ms c rest h = ap (◌∷◌ m) (sym (append-nil b))

or_none-nil : (b : List Message) → or_none b [] ≡ []
or_none-nil [] = refl
or_none-nil (_ ∷ _) = refl

-- One call of `__anext__` loses no message and makes none up: the one it hands out and the buffer it
-- leaves are the buffer it found and what it read, in order.
next-read :
    (rs : List Replies) (c : Consumer)
    → handed_by (next rs c).1 ++ (next rs c).0.buffer ≡ c.buffer ++ read rs c
unfolding next
next-read [] c =
    take_from-read c.buffer [] c (λ d. (d, if d.closed then stops else waits))
      (λ e. go c.closed ∙ e)
    ∙ ap (λ ms. c.buffer ++ ms) (or_none-nil c.buffer)
  where
    go : (b : Bool) → handed_by (if b then stops else waits) ++ c.buffer ≡ c.buffer
    go true = refl
    go false = refl
next-read (r ∷ rs) c =
    take_from-read c.buffer
      (if c.closed
        then []
        else unless_refused (reads r c.recovering c.claims) (read rs (fill r c).0))
      c (λ d. if d.closed then (d, stops) else after_fill (fill r d) (next rs))
      (go c.closed (next-read rs (fill r c).0))
  where
    filled :
        (b : Batch) (q : Consumer × Stage) (later : List Message)
        → handed_by (next rs q.0).1 ++ (next rs q.0).0.buffer ≡ q.0.buffer ++ later
        → Gives c.buffer b q
        → c.buffer ≡ []
        → handed_by (after_fill q (next rs)).1 ++ (after_fill q (next rs)).0.buffer
          ≡ unless_refused b later
    filled (ms, true) (d, goes_on) later ih (g, f) e = absurd cc
    filled (ms, true) (d, returns) later ih (g, f) e = absurd cc
    filled (ms, true) (d, raised) later ih (g, f) e = g ∙ ap (λ b. b ++ ms) e
    filled (ms, false) (d, goes_on) later ih (g, f) e =
        ih ∙ ap (λ b. b ++ later) (g ∙ ap (λ b. b ++ ms) e)
    filled (ms, false) (d, returns) later ih (g, f) e =
        ih ∙ ap (λ b. b ++ later) (g ∙ ap (λ b. b ++ ms) e)
    filled (ms, false) (d, raised) later ih (g, f) e = absurd cc

    go :
        (b : Bool)
        → handed_by (next rs (fill r c).0).1 ++ (next rs (fill r c).0).0.buffer
          ≡ (fill r c).0.buffer ++ read rs (fill r c).0
        → c.buffer ≡ []
        → handed_by (if b then (c, stops) else after_fill (fill r c) (next rs)).1
            ++ (if b then (c, stops) else after_fill (fill r c) (next rs)).0.buffer
          ≡ (if b
              then []
              else unless_refused (reads r c.recovering c.claims) (read rs (fill r c).0))
    go true ih e = e
    go false ih e =
        filled (reads r c.recovering c.claims) (fill r c) (read rs (fill r c).0) ih (fill-reads r c)
          e

-- A consumer over its life: calls of `__anext__`, with what Redis answers during each, and `close`.
pub data Call : Type 0 where
  nexts : List Replies → Call
  closes : Call

abbrev pub step : Call → Consumer → Consumer
step (nexts rs) c = (next rs c).0
step closes c = close c

abbrev pub run : List Call → Consumer → Consumer
run [] c = c
run (k ∷ ks) c = run ks (step k c)

abbrev pub handed : List Call → Consumer → List Message
handed [] c = []
handed (nexts rs ∷ ks) c = handed_by (next rs c).1 ++ handed ks (next rs c).0
handed (closes ∷ ks) c = handed ks (close c)

abbrev pub all_read : List Call → Consumer → List Message
all_read [] c = []
all_read (nexts rs ∷ ks) c = read rs c ++ all_read ks (next rs c).0
all_read (closes ∷ ks) c = all_read ks (close c)

-- Over its life a consumer hands out what it read from Redis and nothing else, in order and each
-- message as often as it was read: its own pending messages first, then those it claims, then new
-- ones, without the deleted; what is not yet handed out waits in its buffer. An entry that the
-- model refuses ends a read: only what stands before it counts as read.
pub run-handed :
    (ks : List Call) (c : Consumer) → handed ks c ++ (run ks c).buffer ≡ c.buffer ++ all_read ks c
unfolding close
run-handed [] c = sym (append-nil c.buffer)
run-handed (nexts rs ∷ ks) c =
    append_assoc (handed_by (next rs c).1) (handed ks (next rs c).0) (run ks (next rs c).0).buffer
    ∙ ap (λ b. handed_by (next rs c).1 ++ b) (run-handed ks (next rs c).0)
    ∙ sym (append_assoc (handed_by (next rs c).1) (next rs c).0.buffer (all_read ks (next rs c).0))
    ∙ ap (λ b. b ++ all_read ks (next rs c).0) (next-read rs c)
    ∙ append_assoc c.buffer (read rs c) (all_read ks (next rs c).0)
run-handed (closes ∷ ks) c = run-handed ks (close c)
