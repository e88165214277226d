-- ===== src/Streams/Resume/Steps.antt =====
-- The steps that leave the reader where it is keep the invariant of a resumed subscription.
use oxbrook.Prelude.{
  ◌≡◌, sym, ap, ◌∙◌, ◌⊎◌, inl, inr, Bool, true, false, none, some, List, [], ◌∷◌, ◌++◌,
  append_assoc, arith,
}
use oxbrook.Streams.Position.{Position, position_gt, position_gt_trans}
use oxbrook.Streams.Order.{Ascends}
use oxbrook.Streams.Log.{newer, newer-append, Stands, Stands-newer, Stands-append}
use oxbrook.Streams.Resume.Invariant.{
  System, Request, idle, asked, answered, Tail, grow, Covers, Knows, Inv,
}

module _ {ℓ} {A : Type ℓ} (since : Position) (s : System A) (at : Position)
    (held : List (Position × A)) where
  newer_both :
      (e : Position × A)
      → (at ≡ since) ⊎ ((position_gt at since ≡ true) × Stands at s.log)
      → Ascends none (s.log ++ e ∷ [])
      → newer since (e ∷ []) ≡ newer at (e ∷ [])
  newer_both e (inl h) a = rw h
  newer_both (q, y) (inr (h, (x, pre, post, l))) a =
      let n : position_gt q at ≡ true = Stands-newer none at q y pre post x (rw l at a) in
      ground (arith, n, position_gt_trans q at since n h)

  Covers-grow :
      (r : Bool) (t : Tail A) (e : Position × A)
      → Covers r t at held s.log
      → Covers r (grow t e) at held (s.log ++ e ∷ [])
  Covers-grow r none e h = h
  Covers-grow true (some u) e (gap, h) = (
    gap,
    newer-append at s.log (e ∷ []) ∙ (rw (h, newer-append at u (e ∷ [])) (simp append_assoc)),
  )
  Covers-grow false (some u) e h =
      newer-append at s.log (e ∷ []) ∙ (rw (h, newer-append at u (e ∷ [])) (simp append_assoc))

  flagged-grow :
      (b : Bool) (t : Tail A) (e : Position × A)
      → (b ≡ false) ⊎ (u : List (Position × A)) × (t ≡ some u)
      → (b ≡ false) ⊎ (u : List (Position × A)) × (grow t e ≡ some u)
  flagged-grow b t e (inl h) = inl h
  flagged-grow b t e (inr (u, h)) = inr (u ++ e ∷ [], ap (λ k. grow k e) h)

  Knows-grow :
      (r : Request A) (e : Position × A)
      → Knows r s at held
      → Knows r (record s { log = s.log ++ e ∷ []; tail = grow s.tail e }) at held
  Knows-grow idle e h = tt
  Knows-grow (asked live) e (on, none_left, h) = (on, none_left, flagged-grow live s.tail e h)
  Knows-grow (answered live page) e (on, none_left, (rest, h), k) = (
    on,
    none_left,
    (
      rest ++ newer at (e ∷ []),
      newer-append at s.log (e ∷ []) ∙ (rw h (append_assoc page rest (newer at (e ∷ [])))),
    ),
    elim k [
      | inl c ↦ inl c
      | inr (inl c) ↦ inr (inl c)
      | inr (inr (u, t, c)) ↦
          inr (inr (u ++ e ∷ [], ap (λ k. grow k e) t, Covers-grow false (some u) e c))
    ],
  )

  pub publishes-Inv :
      (e : Position × A)
      → Ascends none (s.log ++ e ∷ [])
      → Inv since s at held
      → Inv since (record s { log = s.log ++ e ∷ []; tail = grow s.tail e }) at held
  publishes-Inv e a v = record {
    sorted = a;
    position = v.position;
    resumable = v.resumable;
    open_lem = v.open_lem;
    holds = v.holds;
    account =
        newer-append since s.log (e ∷ [])
        ∙ (rw (v.account, newer_both e v.reached a)
            (append_assoc s.out (newer at s.log) (newer at (e ∷ []))
              ∙ ap (◌++◌ s.out) (sym (newer-append at s.log (e ∷ [])))));
    covers = Covers-grow s.sub.replaying s.tail e v.covers;
    flagged = flagged-grow s.live s.tail e v.flagged;
    backlog = (
      v.backlog.0 ++ newer at (e ∷ []),
      newer-append at s.log (e ∷ [])
          ∙ (rw v.backlog.1 (append_assoc s.sub.backlog v.backlog.0 (newer at (e ∷ [])))),
    );
    over = v.over;
    reached = elim v.reached [ inl h ↦ inl h | inr (h, w) ↦ inr (h, Stands-append at s.log e w) ];
    knows = Knows-grow s.request e v.knows;
  }
