-- ===== src/Streams/Resume/Delivery.antt =====
-- The steps of the tail, of `_live` and of a page request keep the invariant of a resumed
-- subscription.
use oxbrook.Prelude.{
  ◌≡◌, refl, sym, ◌⊎◌, inl, inr, Bool, true, false, none, some, List, [], ◌∷◌, ◌++◌, append-nil,
  subst,
}
use oxbrook.Streams.Position.{Position}
use oxbrook.Streams.Log.{newer}
use oxbrook.Streams.Resume.Invariant.{
  System, Request, idle, asked, answered, Covers, Covered, Knows, IsNonempty, Inv,
}

module _ {ℓ} {A : Type ℓ} where
  -- What is known of a request stays known where the facts that it speaks of do.
  pub Knows-same :
      (r : Request A) (s t : System A) (at : Position) (held : List (Position × A))
      → t.log ≡ s.log
      → t.tail ≡ s.tail
      → t.sub.replaying ≡ s.sub.replaying
      → t.sub.backlog ≡ s.sub.backlog
      → Knows r s at held
      → Knows r t at held
  Knows-same idle s t at held l m n o k = tt
  Knows-same (asked live) s t at held l m n o k = rw (m, n, o) k
  Knows-same (answered live page) s t at held l m n o k = rw (l, m, n, o) k

module _ {ℓ} {A : Type ℓ} (since : Position) (s : System A) (at : Position)
    (held : List (Position × A)) where
  Covers-position : (r : Bool) → Covers r none at held s.log → Covers r (some []) at held s.log
  Covers-position true (on, h) = (newer at s.log, rw h (sym (append-nil _)))
  Covers-position false (on, h) = cc

  Knows-position :
      (r : Request A)
      → s.tail ≡ none
      → Knows r s at held
      → Knows r (record s { tail = some [] }) at held
  Knows-position idle n k = tt
  Knows-position (asked live) n (on, e, h) = (on, e, inr ([], refl))
  Knows-position (answered live page) n (on, e, rest, h) =
      (on, e, rest, elim h [ inl c ↦ inl c | inr (inl c) ↦ inr (inl c) | inr (inr (u, t, c)) ↦ cc ])

  pub positions-Inv :
      s.tail ≡ none → Inv since s at held → Inv since (record s { tail = some [] }) at held
  positions-Inv n v = record {
    sorted = v.sorted;
    position = v.position;
    resumable = v.resumable;
    open_lem = v.open_lem;
    holds = v.holds;
    account = v.account;
    covers = Covers-position s.sub.replaying (rw n at v.covers);
    flagged = inr ([], refl);
    backlog = v.backlog;
    over = v.over;
    reached = v.reached;
    knows = Knows-position s.request n v.knows;
  }

  pub announces-Inv :
      (u : List (Position × A))
      → s.tail ≡ some u
      → Inv since s at held
      → Inv since (record s { live = true }) at held
  announces-Inv u n v = record {
    sorted = v.sorted;
    position = v.position;
    resumable = v.resumable;
    open_lem = v.open_lem;
    holds = v.holds;
    account = v.account;
    covers = v.covers;
    flagged = inr (u, n);
    backlog = v.backlog;
    over = v.over;
    reached = v.reached;
    knows = Knows-same s.request s (record s { live = true }) at held refl refl refl refl v.knows;
  }

  pub asks-Inv :
      s.sub.replaying ≡ true
      → s.sub.backlog ≡ []
      → Inv since s at held
      → Inv since (record s { request = asked s.live }) at held
  asks-Inv on e v = record {
    sorted = v.sorted;
    position = v.position;
    resumable = v.resumable;
    open_lem = v.open_lem;
    holds = v.holds;
    account = v.account;
    covers = v.covers;
    flagged = v.flagged;
    backlog = v.backlog;
    over = v.over;
    reached = v.reached;
    knows = (on, e, v.flagged);
  }

  -- Live delivery covers an empty page that was asked for after it began.
  Covers-empty :
      (r : Bool) (u : List (Position × A))
      → Covers r (some u) at held s.log
      → newer at s.log ≡ []
      → Covered at held u s.log
  Covers-empty false u c h = c
  Covers-empty true u ([], c) h = c
  Covers-empty true u (e ∷ gap, c) h = cc

  pub answers-Inv :
      (live : Bool) (page rest : List (Position × A))
      → s.request ≡ asked live
      → newer at s.log ≡ page ++ rest
      → IsNonempty page ⊎ (newer at s.log ≡ [])
      → Inv since s at held
      → Inv since (record s { request = answered live page }) at held
  answers-Inv live page rest q h full v =
      let (on, e, flag) = subst (λ r. Knows r s at held) q v.knows in
      record {
        sorted = v.sorted;
        position = v.position;
        resumable = v.resumable;
        open_lem = v.open_lem;
        holds = v.holds;
        account = v.account;
        covers = v.covers;
        flagged = v.flagged;
        backlog = v.backlog;
        over = v.over;
        reached = v.reached;
        knows = (
          on,
          e,
          (rest, h),
          elim full [
            | inl some_left ↦ inl some_left
            | inr all_read ↦ elim flag [
              | inl off ↦ inr (inl off)
              | inr (u, t) ↦ inr (
                  inr (
                    u,
                    t,
                    Covers-empty s.sub.replaying u
                        (subst (λ k. Covers s.sub.replaying k at held s.log) t v.covers) all_read,
                  ))
            ]
          ],
        );
      }
