-- ===== src/Durable/Reading.antt =====
-- What one `_fill` reads, from Redis's answers alone.
use oxbrook.Prelude.{
  ℕ, suc, ◌≡◌, refl, sym, subst, ap, ◌∙◌, Bool, true, false, Option, none, some, List, [], ◌∷◌,
  ◌++◌, append-nil, append_assoc, length,
}
use oxbrook.Durable.{
  Message, Field, decoded, malformed, Entry, Consumer, Replies, Stage, goes_on, returns, raised,
  append, count_one, absorb_entry, absorb, unless_any, absorb_first, unless_raised, absorb_each,
  then_fill, recover, claim, fill,
}

-- Messages, and whether an entry that the topic's model refuses came after them.
abbrev pub Batch : Type 0
Batch = List Message × Bool

-- The messages of a reply: its entries that were not deleted, up to the first that is refused.
abbrev pub live_entry : ℕ → Option Field → Batch → Batch
live_entry id none b = b
live_entry id (some (decoded payload)) (ms, f) = (record { id = id; payload = payload } ∷ ms, f)
live_entry id (some malformed) b = ([], true)

abbrev pub live : List Entry → Batch
live [] = ([], false)
live (e ∷ es) = live_entry e.id e.fields (live es)

abbrev pub also : Batch → Batch → Batch
also (ms, true) b = (ms, true)
also (ms, false) (ns, f) = (ms ++ ns, f)

abbrev pub live_each : List (List Entry) → Batch
live_each [] = ([], false)
live_each (es ∷ ess) = also (live es) (live_each ess)

abbrev pub or_next : Batch → Batch → Batch
or_next ([], false) b = b
or_next ([], true) b = ([], true)
or_next (m ∷ ms, f) _ = (m ∷ ms, f)

-- Those of the first stream that has any.
abbrev pub live_first : List (List Entry) → Batch
live_first [] = ([], false)
live_first (es ∷ ess) = or_next (live es) (live_first ess)

abbrev pub if_asked : Bool → Batch → Batch
if_asked true b = b
if_asked false b = ([], false)

-- What one `_fill` is to read: its own pending messages, or those it claims, or new ones.
abbrev pub reads : Replies → Bool → Bool → Batch
reads r recovering claims =
    or_next (if_asked recovering (live_first r.pending))
      (or_next (if_asked claims (live r.claimed)) (live_each r.fresh))

abbrev holding : List Message → Consumer → Consumer
holding ms c = record c { buffer = c.buffer ++ ms }

holding-nil : (c : Consumer) → holding [] c ≡ c
holding-nil c = ap (λ b. record c { buffer = b }) (append-nil c.buffer)

holding_twice :
    (ms ns : List Message) (c : Consumer) → holding ns (holding ms c) ≡ holding (ms ++ ns) c
holding_twice ms ns c = ap (λ b. record c { buffer = b }) (append_assoc c.buffer ms ns)

abbrev tally : Batch → Option ℕ
tally (ms, true) = none
tally (ms, false) = some (length ms)

absorb-live :
    (es : List Entry) (c : Consumer) → absorb es c ≡ (holding (live es).0 c, tally (live es))
absorb-live [] c = ap (λ d. (d, some 0)) (sym (holding-nil c))
absorb-live (e ∷ es) c = go e.fields (live es) (λ d. absorb-live es d)
  where
    go :
        (o : Option Field) (b : Batch)
        → ((d : Consumer) → absorb es d ≡ (holding b.0 d, tally b))
        → absorb_entry e.id o (absorb es) c
          ≡ (holding (live_entry e.id o b).0 c, tally (live_entry e.id o b))
    go none b ih = ih c
    go (some malformed) b ih = ap (λ d. (d, none)) (sym (holding-nil c))
    go (some (decoded p)) (ms, true) ih =
        let m : Message = record { id = e.id; payload = p } in
        ap count_one (ih (append m c)) ∙ ap (λ d. (d, none)) (holding_twice (m ∷ []) ms c)
    go (some (decoded p)) (ms, false) ih =
        let m : Message = record { id = e.id; payload = p } in
        ap count_one (ih (append m c))
        ∙ ap (λ d. (d, some (suc (length ms)))) (holding_twice (m ∷ []) ms c)

-- How a stage that stops at its first messages ends.
abbrev pub stage_of : Batch → Stage
stage_of (ms, true) = raised
stage_of ([], false) = goes_on
stage_of (_ ∷ _, false) = returns

abbrev staged : Batch → Consumer → Consumer × Stage
staged b c = (holding b.0 c, stage_of b)

unless_any-staged :
    (b d : Batch) (c : Consumer) (rest : Consumer → Consumer × Stage)
    → rest (holding [] c) ≡ staged d c
    → unless_any (holding b.0 c, tally b) rest ≡ staged (or_next b d) c
unless_any-staged ([], true) d c rest h = refl
unless_any-staged ([], false) d c rest h = h
unless_any-staged (m ∷ ms, true) d c rest h = refl
unless_any-staged (m ∷ ms, false) d c rest h = refl

absorb_first-live :
    (ess : List (List Entry)) (c : Consumer) → absorb_first ess c ≡ staged (live_first ess) c
absorb_first-live [] c = ap (λ d. (d, goes_on)) (sym (holding-nil c))
absorb_first-live (es ∷ ess) c =
    ap (λ q. unless_any q (absorb_first ess)) (absorb-live es c)
    ∙ unless_any-staged (live es) (live_first ess) c (absorb_first ess)
        (ap (absorb_first ess) (holding-nil c) ∙ absorb_first-live ess c)

-- The last stage returns where no entry is refused.
abbrev last_of : Batch → Stage
last_of (ms, true) = raised
last_of (ms, false) = returns

absorb_each-live :
    (ess : List (List Entry)) (c : Consumer)
    → absorb_each ess c ≡ (holding (live_each ess).0 c, last_of (live_each ess))
absorb_each-live [] c = ap (λ d. (d, returns)) (sym (holding-nil c))
absorb_each-live (es ∷ ess) c =
    ap (λ q. unless_raised q (absorb_each ess)) (absorb-live es c)
    ∙ go (live es) (live_each ess) (λ d. absorb_each-live ess d)
  where
    go :
        (a b : Batch)
        → ((d : Consumer) → absorb_each ess d ≡ (holding b.0 d, last_of b))
        → unless_raised (holding a.0 c, tally a) (absorb_each ess)
          ≡ (holding (also a b).0 c, last_of (also a b))
    go (ms, true) b ih = refl
    go (ms, false) (ns, true) ih = ih (holding ms c) ∙ ap (λ d. (d, raised)) (holding_twice ms ns c)
    go (ms, false) (ns, false) ih =
        ih (holding ms c) ∙ ap (λ d. (d, returns)) (holding_twice ms ns c)

recover-live :
    (pending : List (List Entry)) (recovering : Bool) (c : Consumer)
    → recover pending recovering c ≡ staged (if_asked recovering (live_first pending)) c
recover-live pending true c = absorb_first-live pending c
recover-live pending false c = ap (λ d. (d, goes_on)) (sym (holding-nil c))

claim-live :
    (claimed : List Entry) (claims : Bool) (c : Consumer)
    → claim claimed claims c ≡ staged (if_asked claims (live claimed)) c
claim-live claimed true c =
    ap (λ q. unless_any q (λ c. (c, goes_on))) (absorb-live claimed c) ∙ go (live claimed)
  where
    go : (b : Batch) → unless_any (holding b.0 c, tally b) (λ c. (c, goes_on)) ≡ staged b c
    go ([], true) = refl
    go ([], false) = refl
    go (_ ∷ _, true) = refl
    go (_ ∷ _, false) = refl
claim-live claimed false c = ap (λ d. (d, goes_on)) (sym (holding-nil c))

abbrev pub is_raised : Stage → Bool
is_raised raised = true
is_raised _ = false

-- A `_fill` that gives a batch: its messages are in the buffer, and it raises where one was refused.
abbrev pub Gives : List Message → Batch → Consumer × Stage → Type 0
Gives held b (d, stage) = (d.buffer ≡ held ++ b.0) × (b.1 ≡ is_raised stage)

then_fill-Gives :
    (a b : Batch) (c : Consumer) (rest : Consumer → Consumer × Stage)
    → ((d : Consumer) → d.buffer ≡ c.buffer → d.claims ≡ c.claims → Gives d.buffer b (rest d))
    → Gives c.buffer (or_next a b) (then_fill (staged a c) rest)
then_fill-Gives ([], true) b c rest h = (refl, refl)
then_fill-Gives (m ∷ ms, true) b c rest h = (refl, refl)
then_fill-Gives (m ∷ ms, false) b c rest h = (refl, refl)
then_fill-Gives ([], false) b c rest h =
    let (e, f) = h (holding [] c) (append-nil c.buffer) refl in
    (e ∙ ap (λ l. l ++ b.0) (append-nil c.buffer), f)

last-Gives : (b : Batch) (c : Consumer) → Gives c.buffer b (holding b.0 c, last_of b)
last-Gives (ms, true) c = (refl, refl)
last-Gives (ms, false) c = (refl, refl)

pub fill-reads :
    (r : Replies) (c : Consumer) → Gives c.buffer (reads r c.recovering c.claims) (fill r c)
unfolding fill
fill-reads r c =
    subst (λ q. Gives c.buffer (reads r c.recovering c.claims) (then_fill q after_recovery))
      (sym (recover-live r.pending c.recovering c))
      (then_fill-Gives (if_asked c.recovering (live_first r.pending))
        (or_next (if_asked c.claims (live r.claimed)) (live_each r.fresh)) c after_recovery inner)
  where
    after_claim : Consumer → Consumer × Stage
    after_claim e = absorb_each r.fresh e

    after_recovery : Consumer → Consumer × Stage
    after_recovery d =
        then_fill (claim r.claimed d.claims (record d { recovering = false })) after_claim

    inner :
        (d : Consumer)
        → d.buffer ≡ c.buffer
        → d.claims ≡ c.claims
        → Gives d.buffer
            (or_next (if_asked c.claims (live r.claimed)) (live_each r.fresh))
            (after_recovery d)
    inner d _ k =
        let e : Consumer = record d { recovering = false } in
        subst
          (λ b.
            Gives d.buffer (or_next (if_asked b (live r.claimed)) (live_each r.fresh))
              (after_recovery d))
          k
          (subst
            (λ q.
              Gives d.buffer (or_next (if_asked d.claims (live r.claimed)) (live_each r.fresh))
                (then_fill q after_claim))
            (sym (claim-live r.claimed d.claims e))
            (then_fill-Gives (if_asked d.claims (live r.claimed)) (live_each r.fresh) e after_claim
              (λ f _ _.
                subst (Gives f.buffer (live_each r.fresh)) (sym (absorb_each-live r.fresh f))
                  (last-Gives (live_each r.fresh) f))))
