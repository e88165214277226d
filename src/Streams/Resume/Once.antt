-- ===== src/Streams/Resume/Once.antt =====
-- A resumed subscription hands out every entry after its position once, in stream order.
use oxbrook.Prelude.{
  ap, ℕ, ◌≡◌, refl, ◌∙◌, sym, false, none, some, List, [], ◌∷◌, ◌++◌, append-nil, subst, map, ◌⊎◌,
}
use oxbrook.Streams.Position.{Position}
use oxbrook.Streams.Subscription.{Policy}
use oxbrook.Streams.Order.{Ascends}
use oxbrook.Streams.Log.{newer, newer-append, to_item}
use oxbrook.Streams.Resume.Invariant.{
  System, start, start-Inv, Step, publishes, positions, announces, delivers, asks, answers, resumes,
  replays, reads, Inv, IsNonempty, Knows, Covers,
}
use oxbrook.Streams.Resume.Steps.{publishes-Inv}
use oxbrook.Streams.Resume.Delivery.{positions-Inv, announces-Inv, asks-Inv, answers-Inv}
use oxbrook.Streams.Resume.Feeding.{delivers-Inv}
use oxbrook.Streams.Resume.Reading.{resumes-Inv, replays-Inv}
use oxbrook.Streams.Resume.Live.{reads-Inv}

module _ {ℓ} {A : Type ℓ} where
  -- States after any number of steps.
  pub data Reach (s : System A) : System A → Type ℓ where
    here : Reach s s
    next : {t u : System A} → Reach s t → Step t u → Reach s u

  abbrev Holds : Position → System A → Type ℓ
  Holds since s = (at : Position) × (held : List (Position × A)) × Inv since s at held

  -- Trimming what is not newer than a position leaves all that is.
  untrimmed :
      (at : Position) (log gone kept : List (Position × A))
      → log ≡ gone ++ kept
      → newer at gone ≡ []
      → newer at kept ≡ newer at log
  untrimmed at log gone kept l g = rw (l, newer-append at gone kept, g) refl

  Step-Holds : (since : Position) {s t : System A} → Step s t → Holds since s → Holds since t
  Step-Holds since (publishes s e a) (at, held, v) = (at, held, publishes-Inv since s at held e a v)
  Step-Holds since (positions s n) (at, held, v) = (at, held, positions-Inv since s at held n v)
  Step-Holds since (announces s u t) (at, held, v) = (at, held, announces-Inv since s at held u t v)
  Step-Holds since (delivers s p x u t room) (at, held, v) =
      let (held', w) = delivers-Inv since s at held p x u t room v in (at, held', w)
  Step-Holds since (asks s q on e) (at, held, v) = (at, held, asks-Inv since s at held on e v)
  Step-Holds since (answers s live at' page rest gone kept q i l g h full) (at, held, v) =
      let same : at' ≡ at = cc (v.position) in
      let all : newer at' kept ≡ newer at s.log =
        untrimmed at' s.log gone kept l g ∙ ap (λ k. newer k s.log) same in
      (
        at,
        held,
        answers-Inv since s at held live page rest q (subst (λ l. l ≡ page ++ rest) all h)
            (subst (λ l. IsNonempty page ⊎ (l ≡ [])) all full) v,
      )
  Step-Holds since (resumes s live page q) (at, held, v) =
      resumes-Inv since s at held live page (subst (λ r. Knows r s at held) q v.knows) v
  Step-Holds since (replays s e rest q h) (at, held, v) = replays-Inv since s at held e rest h v
  Step-Holds since (reads s f q off) (at, held, v) = reads-Inv since s at f held off v

  Reach-Holds : (since : Position) {s t : System A} → Reach s t → Holds since s → Holds since t
  Reach-Holds since here h = h
  Reach-Holds since (next r st) h = Step-Holds since st (Reach-Holds since r h)

  module _ (n : ℕ) (p : Policy) (since : Position) (log : List (Position × A)) {s : System A} where
    -- At every moment what a resumed subscription has handed out is a first part of the entries
    -- after its starting position, in stream order with none missed or repeated: those entries are
    -- the ones handed out followed by the ones newer than the reader's present position. The
    -- stream's ids rise, none is trimmed before the replay and the tail have read it, no delivery
    -- meets a full buffer, and the subscription is not closed.
    pub Reach-once :
        Ascends none log
        → Reach (start n p since log) s
        → (at : Position) × (s.sub.after ≡ some at) × (newer since s.log ≡ s.out ++ newer at s.log)
    Reach-once a r =
        let (at, held, v) = Reach-Holds since r (since, [], start-Inv n p since log a) in
        (at, v.position, v.account)

    -- When the replay of a resumed subscription is over, the tail has delivered all it has and the
    -- buffer is read, everything after the starting position has been handed out. The stream's ids
    -- rise, none is trimmed before the replay and the tail have read it, no delivery meets a full
    -- buffer, and the subscription is not closed.
    pub Reach-complete :
        Ascends none log
        → Reach (start n p since log) s
        → s.sub.replaying ≡ false
        → s.tail ≡ some []
        → s.sub.buffer ≡ []
        → s.out ≡ newer since s.log
    Reach-complete a r off t b =
        let (at, held, v) = Reach-Holds since r (since, [], start-Inv n p since log a) in
        let empty : held ≡ [] = no_items held (sym v.holds ∙ b) in
        let c : newer at s.log ≡ newer at held ++ [] =
          subst (λ k. Covers k (some []) at held s.log) off
            (subst (λ k. Covers s.sub.replaying k at held s.log) t v.covers) in
        let nothing : newer at s.log ≡ [] = c ∙ (rw empty refl) in
        sym (v.account ∙ (rw nothing (append-nil s.out)))
      where
        no_items : (l : List (Position × A)) → map to_item l ≡ [] → l ≡ []
        no_items [] h = refl
        no_items (e ∷ l) h = cc
