-- ===== src/Streams/Log.antt =====
-- Entries of a stream and those newer than a position, in the terms of
-- python/oxbrook/_streams.py: a replay asks for them, and the reader counts on their order.
use oxbrook.Prelude.{
  ◌≡◌, refl, sym, ap, ◌∙◌, true, Option, none, some, List, [], ◌∷◌, ◌++◌, map, arith, keep_if,
  keep_if-append, ok, append_assoc, Bool-cases, inl, inr,
}
use oxbrook.Streams.Position.{Position, position_gt, position_gt_trans, position_gt_irrefl}
use oxbrook.Streams.Subscription.{Item, message}
use oxbrook.Streams.Reader.{keep_newer}
use oxbrook.Streams.Order.{Newer, Ascends}

module _ {ℓ} {A : Type ℓ} where
  abbrev pub newer : Position → List (Position × A) → List (Position × A)
  newer a = keep_if (λ e. position_gt e.0 a)

  abbrev pub to_item : Position × A → Item A
  to_item (p, x) = message (some p) x

  pub newer-append :
      (a : Position) (l m : List (Position × A)) → newer a (l ++ m) ≡ newer a l ++ newer a m
  newer-append a l m = keep_if-append (λ e. position_gt e.0 a) l m

  pub newer-newer :
      (a p : Position) (l : List (Position × A))
      → position_gt p a ≡ true
      → newer p (newer a l) ≡ newer p l
  newer-newer a p [] h = refl
  newer-newer a p ((q, x) ∷ l) h = ground (arith, newer-newer a p l h, position_gt_trans q p a)

  pub newer_idem : (a : Position) (l : List (Position × A)) → newer a (newer a l) ≡ newer a l
  newer_idem a [] = refl
  newer_idem a ((q, x) ∷ l) = ground (arith, newer_idem a l)

  Ascends-weaken :
      (q p : Position) (l : List (Position × A))
      → position_gt p q ≡ true
      → Ascends (some p) l
      → Ascends (some q) l
  Ascends-weaken q p [] h a = tt
  Ascends-weaken q p ((r, x) ∷ l) h (n, a) = (position_gt_trans r p q n h, a)

  Ascends-drop :
      (b : Option Position) (p : Position) (l : List (Position × A))
      → Newer b p
      → Ascends (some p) l
      → Ascends b l
  Ascends-drop none p [] h a = tt
  Ascends-drop none p ((r, x) ∷ l) h (n, a) = (tt, a)
  Ascends-drop (some q) p l h a = Ascends-weaken q p l h a

  Ascends-newer_above :
      (b : Option Position) (a : Position) (l : List (Position × A))
      → Ascends b l
      → Ascends b (newer a l)
  Ascends-newer_above b a [] h = tt
  Ascends-newer_above b a ((q, x) ∷ l) (n, h) = ground (
    arith,
    Ascends-newer_above (some q) a l h,
    Ascends-newer_above b a l (Ascends-drop b q l n h),
  )

  pub Ascends-newer :
      (b : Option Position) (a : Position) (l : List (Position × A))
      → Ascends b l
      → Ascends (some a) (newer a l)
  Ascends-newer b a [] h = tt
  Ascends-newer b a ((q, x) ∷ l) (n, h) =
      ground (arith, Ascends-newer_above (some q) a l h, Ascends-newer (some q) a l h)

  newer_all : (p : Position) (l : List (Position × A)) → Ascends (some p) l → newer p l ≡ l
  newer_all p [] h = refl
  newer_all p ((q, x) ∷ l) (n, h) = ground (arith, newer_all p l (Ascends-weaken p q l n h))

  -- Past the oldest of the newer entries, the others are left.
  pub newer_head :
      (b : Option Position) (a p : Position) (x : A) (l m : List (Position × A))
      → Ascends b l
      → newer a l ≡ (p, x) ∷ m
      → (position_gt p a ≡ true) × (newer p l ≡ m)
  newer_head b a p x l m h e =
      let above : Ascends (some a) ((p, x) ∷ m) = rw e at (Ascends-newer b a l h) in
      (
        above.0,
        sym (newer-newer a p l above.0)
            ∙ (rw e (rw (position_gt_irrefl p) (newer_all p m above.1))),
      )

  -- The pruning of a buffer of entries.
  pub keep_newer-newer :
      (a : Position) (l : List (Position × A))
      → keep_newer a (map to_item l) ≡ ok (map to_item (newer a l))
  unfolding keep_newer
  keep_newer-newer a [] = refl
  keep_newer-newer a ((q, x) ∷ l) = ground (arith, keep_newer-newer a l)

  -- An entry stands in the stream.
  abbrev pub Stands : Position → List (Position × A) → Type ℓ
  Stands p l =
      (x : A) × (pre : List (Position × A)) × (post : List (Position × A)) × (l
        ≡ pre ++ (p, x) ∷ post)

  last_newer :
      (b : Option Position) (p q : Position) (x y : A) (post : List (Position × A))
      → Ascends b ((p, x) ∷ (post ++ (q, y) ∷ []))
      → position_gt q p ≡ true
  last_newer b p q x y [] h = h.1.0
  last_newer b p q x y ((r, z) ∷ post) (n, h) =
      position_gt_trans q r p (last_newer (some p) r q z y post h) h.0

  pub Stands-newer :
      (b : Option Position) (p q : Position) (y : A) (pre post : List (Position × A)) (x : A)
      → Ascends b ((pre ++ (p, x) ∷ post) ++ (q, y) ∷ [])
      → position_gt q p ≡ true
  Stands-newer b p q y [] post x h = last_newer b p q x y post h
  Stands-newer b p q y ((r, z) ∷ pre) post x (n, h) = Stands-newer (some r) p q y pre post x h

  pub Stands-append :
      (p : Position) (l : List (Position × A)) (e : Position × A)
      → Stands p l
      → Stands p (l ++ e ∷ [])
  Stands-append p l e (x, pre, post, h) =
      (x, pre, post ++ e ∷ [], ap (λ k. k ++ e ∷ []) h ∙ append_assoc pre ((p, x) ∷ post) (e ∷ []))

  pub newer_head-Stands :
      (a p : Position) (x : A) (l m : List (Position × A)) → newer a l ≡ (p, x) ∷ m → Stands p l
  newer_head-Stands a p x [] m h = cc
  newer_head-Stands a p x ((q, y) ∷ l) m h = elim (Bool-cases (position_gt q a)) [
    | inl fits ↦ (x, [], l, ground arith)
    | inr old ↦
        let (z, pre, post, e) = newer_head-Stands a p x l m (ground arith) in
        (z, (q, y) ∷ pre, post, ap (◌∷◌ (q, y)) e)
  ]
