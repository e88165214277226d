-- ===== src/Streams/Resume/Reading.antt =====
-- The steps of the reader keep the invariant of a resumed subscription.
use oxbrook.Prelude.{
  ◌≡◌, refl, sym, ap, ◌∙◌, ◌⊎◌, inl, inr, Bool, true, false, none, some, List, [], ◌∷◌, ◌++◌, map,
  append-nil, append_assoc, Result, ok, arith, subst,
}
use oxbrook.Streams.Position.{Position, position_gt, position_gt_trans}
use oxbrook.Streams.Subscription.{message, Subscription}
use oxbrook.Streams.Reader.{Read, yielded, caught_up, sleeps, prune, replay_round, pruned}
use oxbrook.Streams.Log.{
  newer, to_item, newer-append, newer-newer, newer_idem, newer_head, newer_head-Stands, Stands,
  keep_newer-newer,
}
use oxbrook.Streams.Resume.Invariant.{
  System, answered, Tail, got, after_read, Covers, Covered, Knows, Inv,
}

module _ {ℓ} {A : Type ℓ} (since : Position) (s : System A) (at : Position)
    (held : List (Position × A)) where
  pub Covers-advance :
      (p : Position) (r : Bool) (t : Tail A)
      → position_gt p at ≡ true
      → Covers r t at held s.log
      → Covers r t p held s.log
  Covers-advance p r none h c = c
  Covers-advance p true (some u) h (gap, c) = (
    newer p gap,
    sym (newer-newer at p s.log h)
        ∙ (rw c (
            newer-append p gap (newer at held ++ newer at u)
            ∙ ap (◌++◌ (newer p gap)) (
                newer-append p (newer at held) (newer at u)
                ∙ (rw (newer-newer at p held h, newer-newer at p u h) refl)))),
  )
  Covers-advance p false (some u) h c =
      sym (newer-newer at p s.log h)
      ∙ (rw c (
          newer-append p (newer at held) (newer at u)
          ∙ (rw (newer-newer at p held h, newer-newer at p u h) refl)))

  beyond :
      (p : Position)
      → position_gt p at ≡ true
      → (at ≡ since) ⊎ ((position_gt at since ≡ true) × Stands at s.log)
      → position_gt p since ≡ true
  beyond p h (inl e) = subst (λ k. position_gt p k ≡ true) e h
  beyond p h (inr (g, _)) = position_gt_trans p at since h g

  -- An entry that heads what is newer than the position is handed out.
  pub handed-Inv :
      (sub : Subscription A) (held' : List (Position × A)) (p : Position) (x : A)
      (m : List (Position × A))
      → newer at s.log ≡ (p, x) ∷ m
      → sub.after ≡ some p
      → sub.ids ≡ true
      → sub.closed ≡ false
      → sub.buffer ≡ map to_item held'
      → (position_gt p at ≡ true → Covers sub.replaying s.tail p held' s.log)
      → (rest : List (Position × A)) × (m ≡ sub.backlog ++ rest)
      → (sub.replaying ≡ true) ⊎ (sub.backlog ≡ [])
      → Inv since s at held
      → Inv since (after_read s (sub, ok (yielded (message (some p) x)))) p held'
  handed-Inv sub held' p x m first after ids closed holds covers (rest, left) over v =
      let (above, others) = newer_head none at p x s.log m v.sorted first in
      record {
        sorted = v.sorted;
        position = after;
        resumable = ids;
        open_lem = closed;
        holds = holds;
        account = v.account ∙ (rw (first, others) (sym (append_assoc s.out ((p, x) ∷ []) m)));
        covers = covers above;
        flagged = v.flagged;
        backlog = (rest, others ∙ left);
        over = over;
        reached = inr (beyond p above v.reached, newer_head-Stands at p x s.log m first);
        knows = tt;
      }

  -- A read that hands nothing out.
  pub stay-Inv :
      (sub : Subscription A) (held' : List (Position × A)) (r : Result (Read A))
      → got r ≡ []
      → sub.after ≡ s.sub.after
      → sub.ids ≡ s.sub.ids
      → sub.closed ≡ s.sub.closed
      → sub.backlog ≡ s.sub.backlog
      → sub.buffer ≡ map to_item held'
      → Covers sub.replaying s.tail at held' s.log
      → (sub.replaying ≡ true) ⊎ (sub.backlog ≡ [])
      → Inv since s at held
      → Inv since (after_read s (sub, r)) at held'
  stay-Inv sub held' r nothing after ids closed left holds covers over v = record {
    sorted = v.sorted;
    position = after ∙ v.position;
    resumable = ids ∙ v.resumable;
    open_lem = closed ∙ v.open_lem;
    holds = holds;
    account = rw (nothing, append-nil) v.account;
    covers = covers;
    flagged = v.flagged;
    backlog = rw left v.backlog;
    over = over;
    reached = v.reached;
    knows = tt;
  }

  abbrev pub Kept : System A → Type ℓ
  Kept t = (at' : Position) × (held' : List (Position × A)) × Inv since t at' held'

  replay_entry_lem :
      (live : Bool) (page : List (Position × A)) (p : Position) (x : A) (rest : List (Position × A))
      → (s.sub.backlog ≡ (p, x) ∷ rest) ⊎ ((s.sub.backlog ≡ []) × (page ≡ (p, x) ∷ rest))
      → Inv since s at held
      → replay_round live page s.sub
        ≡ (record s.sub { backlog = rest; after = some p }, ok (yielded (message (some p) x)))
  unfolding replay_round
  replay_entry_lem live page p x rest h v = let i = v.position in let j = v.open_lem in ground arith

  entry-Inv :
      (live : Bool) (page : List (Position × A)) (p : Position) (x : A)
      (rest more : List (Position × A))
      → (s.sub.backlog ≡ (p, x) ∷ rest) ⊎ ((s.sub.backlog ≡ []) × (page ≡ (p, x) ∷ rest))
      → s.sub.replaying ≡ true
      → newer at s.log ≡ (p, x) ∷ (rest ++ more)
      → Inv since s at held
      → Kept (after_read s (replay_round live page s.sub))
  entry-Inv live page p x rest more h on first v = (
    p,
    held,
    rw (replay_entry_lem live page p x rest h v) (
        handed-Inv (record s.sub { backlog = rest; after = some p }) held p x (rest ++ more) first
          refl v.resumable v.open_lem v.holds
          (λ above. Covers-advance p s.sub.replaying s.tail above v.covers) (more, refl) (inl on)
          v),
  )

  sleep_lem :
      s.sub.backlog ≡ [] → Inv since s at held → replay_round false [] s.sub ≡ (s.sub, ok sleeps)
  unfolding replay_round
  sleep_lem e v = let i = v.position in let j = v.open_lem in ground arith

  caught_up_lem :
      s.sub.backlog ≡ []
      → Inv since s at held
      → replay_round true [] s.sub
        ≡ (record s.sub { buffer = map to_item (newer at held); replaying = false }, ok caught_up)
  unfolding replay_round prune pruned
  caught_up_lem e v =
      let i = v.position in
      let j = v.open_lem in let k = v.holds in ground (arith, keep_newer-newer at held)

  Covers-caught_up :
      (u : List (Position × A)) → Covered at held u s.log → Covered at (newer at held) u s.log
  Covers-caught_up u c = rw (newer_idem at held) c

  -- An answered page: its first entry is handed out; an empty one ends the replay if the tail was
  -- live before it was asked for.
  pub resumes-Inv :
      (live : Bool) (page : List (Position × A))
      → Knows (answered live page) s at held
      → Inv since s at held
      → Kept (after_read s (replay_round live page s.sub))
  resumes-Inv live ((p, x) ∷ page) (on, e, (more, h), _) v =
      entry-Inv live ((p, x) ∷ page) p x page more (inr (e, refl)) on h v
  resumes-Inv false [] (on, e, _, _) v = (
    at,
    held,
    rw (sleep_lem e v)
        (stay-Inv s.sub held (ok sleeps) refl refl refl refl refl v.holds v.covers v.over v),
  )
  resumes-Inv true [] (on, e, _, inr (inr (u, t, c))) v = (
    at,
    newer at held,
    rw (caught_up_lem e v) (
        stay-Inv (record s.sub { buffer = map to_item (newer at held); replaying = false })
          (newer at held) (ok caught_up) refl refl refl refl refl refl (rw t (Covers-caught_up u c))
          (inr e) v),
  )
  resumes-Inv true [] (on, e, _, inl h) v = elim h [ ]
  resumes-Inv true [] (on, e, _, inr (inl h)) v = cc

  pub replays-Inv :
      (e : Position × A) (rest : List (Position × A))
      → s.sub.backlog ≡ e ∷ rest
      → Inv since s at held
      → Kept (after_read s (replay_round false [] s.sub))
  replays-Inv (p, x) rest h v =
      let (more, left) = v.backlog in
      entry-Inv false [] p x rest more (inl h) (still_on v.over) (rw h at left) v
    where
      still_on : (s.sub.replaying ≡ true) ⊎ (s.sub.backlog ≡ []) → s.sub.replaying ≡ true
      still_on (inl on) = on
      still_on (inr e) = cc
