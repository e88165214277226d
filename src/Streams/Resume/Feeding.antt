-- ===== src/Streams/Resume/Feeding.antt =====
-- A delivery by the tail keeps the invariant of a resumed subscription.
use oxbrook.Prelude.{
  ◌<◌, ◌≡◌, refl, sym, ap, ◌∙◌, inl, inr, Bool, true, false, some, List, [], ◌∷◌, ◌++◌, map, length,
  append_assoc, arith, Bool-cases, subst,
}
use mathlib.Core.List.{map-append}
use oxbrook.Streams.Position.{Position, position_gt}
use oxbrook.Streams.Subscription.{message, put, try_offer}
use oxbrook.Streams.Runs.{try_offer-Keeps}
use oxbrook.Streams.Log.{newer, to_item, newer-append}
use oxbrook.Streams.Resume.Invariant.{System, Request, idle, asked, answered, Covers, Knows, Inv}

module _ {ℓ} {A : Type ℓ} (since : Position) (s : System A) (at : Position)
    (held : List (Position × A)) (p : Position) (x : A) (u : List (Position × A)) where
  abbrev fed : System A
  fed = record s { tail = some u; sub = (try_offer x (some p) s.sub).0 }

  -- What is given by the replay already is not put.
  offer_old :
      Inv since s at held
      → position_gt p at ≡ false
      → (fed.sub.buffer ≡ s.sub.buffer) × (fed.sub.closed ≡ false)
  unfolding try_offer
  offer_old v h = let i = v.position in let j = v.resumable in let k = v.open_lem in ground arith

  offer_new :
      Inv since s at held
      → length s.sub.buffer < s.sub.maxsize
      → position_gt p at ≡ true
      → (fed.sub.buffer ≡ s.sub.buffer ++ message (some p) x ∷ []) × (fed.sub.closed ≡ false)
  unfolding try_offer put
  offer_new v room h =
      let i = v.position in let j = v.resumable in let k = v.open_lem in ground arith

  Covers-old :
      (r : Bool)
      → position_gt p at ≡ false
      → Covers r (some ((p, x) ∷ u)) at held s.log
      → Covers r (some u) at held s.log
  Covers-old true h (gap, c) = (gap, c ∙ (rw h refl))
  Covers-old false h c = c ∙ (rw h refl)

  newer-held :
      position_gt p at ≡ true
      → newer at held ++ newer at ((p, x) ∷ u) ≡ newer at (held ++ (p, x) ∷ []) ++ newer at u
  newer-held h =
      rw (newer-append at held ((p, x) ∷ []))
        (rw h (sym (append_assoc (newer at held) ((p, x) ∷ []) (newer at u))))

  Covers-new :
      (r : Bool)
      → position_gt p at ≡ true
      → Covers r (some ((p, x) ∷ u)) at held s.log
      → Covers r (some u) at (held ++ (p, x) ∷ []) s.log
  Covers-new true h (gap, c) = (gap, c ∙ ap (◌++◌ gap) (newer-held h))
  Covers-new false h c = c ∙ newer-held h

  -- A request in flight: the same at the new state, with the buffer that it has then.
  Knows-fed :
      (r : Request A) (held' : List (Position × A))
      → s.tail ≡ some ((p, x) ∷ u)
      → (Covers false (some ((p, x) ∷ u)) at held s.log → Covers false (some u) at held' s.log)
      → Knows r s at held
      → Knows r fed at held'
  Knows-fed idle held' t move k = tt
  Knows-fed (asked live) held' t move (on, e, k) =
      let (_, _, same, still) = try_offer-Keeps x (some p) s.sub in
      (still ∙ on, same ∙ e, inr (u, refl))
  Knows-fed (answered live page) held' t move (on, e, rest, k) =
      let (_, _, same, still) = try_offer-Keeps x (some p) s.sub in
      (
        still ∙ on,
        same ∙ e,
        rest,
        elim k [
          | inl c ↦ inl c
          | inr (inl c) ↦ inr (inl c)
          | inr (inr (w, t', c)) ↦
              let left : w ≡ (p, x) ∷ u = cc in
              inr (inr (u, refl, move (subst (λ k. Covers false (some k) at held s.log) left c)))
        ],
      )

  fed-Inv :
      (held' : List (Position × A))
      → s.tail ≡ some ((p, x) ∷ u)
      → fed.sub.buffer ≡ map to_item held'
      → fed.sub.closed ≡ false
      → ((r : Bool) → Covers r (some ((p, x) ∷ u)) at held s.log → Covers r (some u) at held' s.log)
      → Inv since s at held
      → Inv since fed at held'
  fed-Inv held' t b c move v =
      let (ids, after, same, still) = try_offer-Keeps x (some p) s.sub in
      record {
        sorted = v.sorted;
        position = after ∙ v.position;
        resumable = ids ∙ v.resumable;
        open_lem = c;
        holds = b;
        account = v.account;
        covers =
            rw still (
              move s.sub.replaying
                (subst (λ k. Covers s.sub.replaying k at held s.log) t v.covers));
        flagged = inr (u, refl);
        backlog = rw same v.backlog;
        over = rw (same, still) v.over;
        reached = v.reached;
        knows = Knows-fed s.request held' t (move false) v.knows;
      }

  -- Delivered to a subscription with room, the entry joins the buffer, or is one that was replayed.
  pub delivers-Inv :
      s.tail ≡ some ((p, x) ∷ u)
      → length s.sub.buffer < s.sub.maxsize
      → Inv since s at held
      → (held' : List (Position × A)) × Inv since fed at held'
  delivers-Inv t room v = elim (Bool-cases (position_gt p at)) [
    | inl new ↦
        let (b, c) = offer_new v room new in
        (
          held ++ (p, x) ∷ [],
          fed-Inv (held ++ (p, x) ∷ []) t
              (b
                ∙ ap (λ l. l ++ message (some p) x ∷ []) v.holds
                ∙ sym (map-append to_item held ((p, x) ∷ [])))
              c (λ r. Covers-new r new) v,
        )
    | inr old ↦
        let (b, c) = offer_old v old in
        (held, fed-Inv held t (b ∙ v.holds) c (λ r. Covers-old r old) v)
  ]
