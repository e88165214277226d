-- ===== src/Streams/Resume/Live.antt =====
-- A read from the buffer keeps the invariant of a resumed subscription.
use oxbrook.Prelude.{
  ℕ, ◌≡◌, refl, sym, ap, ◌∙◌, ◌⊎◌, inl, inr, true, false, none, some, List, [], ◌∷◌, ◌++◌, map, ok,
  arith, Bool-cases, subst,
}
use oxbrook.Streams.Position.{Position, position_gt, position_gt_irrefl}
use oxbrook.Streams.Subscription.{message, Subscription}
use oxbrook.Streams.Reader.{yielded, waits, again, read_round}
use oxbrook.Streams.Log.{newer, to_item}
use oxbrook.Streams.Resume.Invariant.{System, Tail, got, after_read, Covers, Inv}
use oxbrook.Streams.Resume.Reading.{handed-Inv, stay-Inv, Covers-advance, Kept}

module _ {ℓ} {A : Type ℓ} (since : Position) (s : System A) (at : Position) where
  abbrev rest_of : ℕ → Subscription A
  rest_of f = (read_round f s.sub).0

  -- What a read from the buffer leaves alone.
  abbrev LeavesRest : ℕ → Type ℓ
  LeavesRest f =
      ((rest_of f).ids ≡ s.sub.ids)
      × ((rest_of f).closed ≡ s.sub.closed)
      × ((rest_of f).backlog ≡ s.sub.backlog)
      × ((rest_of f).replaying ≡ s.sub.replaying)

  round_leaves : (f : ℕ) → LeavesRest f
  unfolding read_round
  round_leaves f = ground arith

  round_empty :
      (f : ℕ)
      → Inv since s at []
      → ((read_round f s.sub).1 ≡ ok (waits f))
        × ((rest_of f).buffer ≡ [])
        × ((rest_of f).after ≡ s.sub.after)
  unfolding read_round
  round_empty f v = let i = v.holds in let j = v.open_lem in ground arith

  module _ (q : Position) (y : A) (held : List (Position × A)) where
    round_old :
        (f : ℕ)
        → position_gt q at ≡ false
        → Inv since s at ((q, y) ∷ held)
        → ((read_round f s.sub).1 ≡ ok again)
          × ((rest_of f).buffer ≡ map to_item held)
          × ((rest_of f).after ≡ s.sub.after)
    unfolding read_round
    round_old f h v = let i = v.holds in let j = v.resumable in let k = v.position in ground arith

    round_new :
        (f : ℕ)
        → position_gt q at ≡ true
        → Inv since s at ((q, y) ∷ held)
        → ((read_round f s.sub).1 ≡ ok (yielded (message (some q) y)))
          × ((rest_of f).buffer ≡ map to_item held)
          × ((rest_of f).after ≡ some q)
    unfolding read_round
    round_new f h v = let i = v.holds in let j = v.resumable in let k = v.position in ground arith

    Covers-old :
        (t : Tail A)
        → position_gt q at ≡ false
        → Covers false t at ((q, y) ∷ held) s.log
        → Covers false t at held s.log
    Covers-old none h (off, _) = cc
    Covers-old (some u) h c = c ∙ (rw h refl)

    Covers-new : (t : Tail A) → Covers false t q ((q, y) ∷ held) s.log → Covers false t q held s.log
    Covers-new none (off, _) = cc
    Covers-new (some u) c = c ∙ (rw (position_gt_irrefl q) refl)

    first_live :
        (t : Tail A)
        → position_gt q at ≡ true
        → Covers false t at ((q, y) ∷ held) s.log
        → (m : List (Position × A)) × (newer at s.log ≡ (q, y) ∷ m)
    first_live none h (off, _) = cc
    first_live (some u) h c = (newer at held ++ newer at u, c ∙ (rw h refl))

  pub reads-Inv :
      (f : ℕ) (held : List (Position × A))
      → s.sub.replaying ≡ false
      → Inv since s at held
      → Kept since s at held (after_read s (read_round f s.sub))
  reads-Inv f [] off v =
      let (ids, closed, left, still) = round_leaves f in
      let (r, b, after) = round_empty f v in
      (
        at,
        [],
        stay-Inv since s at [] (rest_of f) [] (read_round f s.sub).1 (ap got r) after ids closed
            left b (rw still v.covers) (rw (still, left) v.over) v,
      )
  reads-Inv f ((q, y) ∷ held) off v =
      let (ids, closed, left, still) = round_leaves f in
      let c = subst (λ k. Covers k s.tail at ((q, y) ∷ held) s.log) off v.covers in
      let none_left : s.sub.backlog ≡ [] = ended v.over in
      elim (Bool-cases (position_gt q at)) [
        | inl new ↦
            let (r, b, after) = round_new q y held f new v in
            let (m, first) = first_live q y held s.tail new c in
            (
              q,
              held,
              subst (λ k. Inv since (after_read s (rest_of f, k)) q held) (sym r)
                  (handed-Inv since s at ((q, y) ∷ held) (rest_of f) held q y m first after
                    (ids ∙ v.resumable) (closed ∙ v.open_lem) b
                    (λ above.
                      rw (still, off)
                        (Covers-new q y held s.tail
                          (Covers-advance since s at ((q, y) ∷ held) q false s.tail above c)))
                    (m, rw (left, none_left) refl) (inr (left ∙ none_left)) v),
            )
        | inr old ↦
            let (r, b, after) = round_old q y held f old v in
            (
              at,
              held,
              stay-Inv since s at ((q, y) ∷ held) (rest_of f) held (read_round f s.sub).1 (ap got r)
                  after ids closed left b (rw (still, off) (Covers-old q y held s.tail old c))
                  (rw (still, left) v.over) v,
            )
      ]
    where
      ended : (s.sub.replaying ≡ true) ⊎ (s.sub.backlog ≡ []) → s.sub.backlog ≡ []
      ended (inl on) = cc
      ended (inr e) = e
