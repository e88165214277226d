-- ===== src/Streams/Delivery.antt =====
-- What the overflow policies of `Subscription._put` (python/oxbrook/_streams.py) do to the buffer:
-- one message, then any sequence of messages with no read between them.
use oxbrook.Prelude.{
  ◌+◌, ◌-◌, ◌≤◌, ◌<◌, ◌≡◌, refl, sym, ap, ◌∙◌, true, false, List, [], ◌∷◌, ◌++◌, length, take, drop,
  length-append, length-drop, append-nil, append_assoc, take_of_length-le, take_append_full,
  drop_shift, ok, arith, Bool-cases, inl, inr, leb,
}
use oxbrook.Streams.Subscription.{drop_oldest, drop_newest, Item, Subscription, put}

module _ {ℓ} {A : Type ℓ} where
  -- `_put` for each of the messages in turn; a refusal is the producer's and leaves the state.
  unfoldable pub puts : List (Item A) → Subscription A → Subscription A
  puts [] s = s
  puts (x ∷ xs) s = puts xs (put x s).0

  -- On an open subscription with room every policy appends the message and accepts it.
  pub put_room :
      (x : Item A) (s : Subscription A)
      → s.closed ≡ false
      → length s.buffer < s.maxsize
      → ((put x s).0.buffer ≡ s.buffer ++ x ∷ [])
        × ((put x s).0.dropped ≡ s.dropped)
        × ((put x s).1 ≡ ok true)
  unfolding put
  put_room x s o h = ground arith

  put-frame :
      (x : Item A) (s : Subscription A)
      → ((put x s).0.closed ≡ s.closed)
        × ((put x s).0.maxsize ≡ s.maxsize)
        × ((put x s).0.policy ≡ s.policy)
  unfolding put
  put-frame x s = ground arith

  put_drop_newest :
      (x : Item A) (s : Subscription A)
      → s.closed ≡ false
      → s.policy ≡ drop_newest
      → s.maxsize ≤ length s.buffer
      → ((put x s).0.buffer ≡ s.buffer) × ((put x s).0.dropped ≡ s.dropped + 1)
  unfolding put
  put_drop_newest x s o p h = ground arith

  put-drop_oldest :
      (x : Item A) (s : Subscription A)
      → s.closed ≡ false
      → s.policy ≡ drop_oldest
      → s.maxsize ≤ length s.buffer
      → 1 ≤ s.maxsize
      → ((put x s).0.buffer ≡ drop 1 s.buffer ++ x ∷ []) × ((put x s).0.dropped ≡ s.dropped + 1)
  unfolding put
  put-drop_oldest x s o p h m = ground arith

  -- After any messages with no read between them, an open drop_newest subscription holds the first
  -- maxsize of those it held and was given, in order, and has counted every other as dropped.
  pub puts-drop_newest :
      (xs : List (Item A)) (s : Subscription A)
      → s.closed ≡ false
      → s.policy ≡ drop_newest
      → length s.buffer ≤ s.maxsize
      → ((puts xs s).buffer ≡ take s.maxsize (s.buffer ++ xs))
        × ((puts xs s).dropped + length (puts xs s).buffer
            ≡ s.dropped + length s.buffer + length xs)
  unfolding puts
  puts-drop_newest [] s o p h =
      (rw append-nil (sym (take_of_length-le s.maxsize s.buffer h)), omega arith)
  puts-drop_newest (x ∷ xs) s o p h = elim (Bool-cases (leb s.maxsize (length s.buffer))) [
    | inl full ↦
        let (same, counted) = put_drop_newest x s o p (ground arith) in
        let (shut, size, policy) = put-frame x s in
        let at_size : length s.buffer ≡ s.maxsize = ground arith in
        let (held, total) =
          puts-drop_newest xs (put x s).0 (shut ∙ o) (policy ∙ p) (rw (same, size) h) in
        (
          held
              ∙ (rw (same, size)
                  (take_append_full s.maxsize s.buffer xs at_size
                    ∙ sym (take_append_full s.maxsize s.buffer (x ∷ xs) at_size))),
          omega (arith, total, counted, ap length same),
        )
    | inr room ↦
        let (same, counted, _) = put_room x s o (ground arith) in
        let (shut, size, policy) = put-frame x s in
        let (held, total) =
          puts-drop_newest xs (put x s).0 (shut ∙ o) (policy ∙ p)
            (rw (same, size) (ground (arith, length-append s.buffer (x ∷ [])))) in
        (
          held ∙ (rw (same, size) (ap (take s.maxsize) (append_assoc s.buffer (x ∷ []) xs))),
          omega (arith, total, counted, ap length same, length-append s.buffer (x ∷ [])),
        )
  ]

  -- An open drop_oldest subscription holds the last maxsize of the messages it held and was given
  -- with no read between them, in order, and has counted every other as dropped.
  pub puts-drop_oldest :
      (xs : List (Item A)) (s : Subscription A)
      → s.closed ≡ false
      → s.policy ≡ drop_oldest
      → 1 ≤ s.maxsize
      → length s.buffer ≤ s.maxsize
      → ((puts xs s).buffer ≡ drop (length (s.buffer ++ xs) - s.maxsize) (s.buffer ++ xs))
        × ((puts xs s).dropped + length (puts xs s).buffer
            ≡ s.dropped + length s.buffer + length xs)
  unfolding puts
  puts-drop_oldest [] s o p m h = (
    rw append-nil (let e : length s.buffer - s.maxsize ≡ 0 = omega arith in rw e refl),
    omega arith,
  )
  puts-drop_oldest (x ∷ xs) s o p m h = elim (Bool-cases (leb s.maxsize (length s.buffer))) [
    | inl full ↦
        let (moved, counted) = put-drop_oldest x s o p (ground arith) m in
        let (shut, size, policy) = put-frame x s in
        let at_size : length s.buffer ≡ s.maxsize = ground arith in
        let kept : length (drop 1 s.buffer ++ x ∷ []) ≡ length s.buffer =
          omega (arith, length-append (drop 1 s.buffer) (x ∷ []), length-drop 1 s.buffer) in
        let (held, total) =
          puts-drop_oldest xs (put x s).0 (shut ∙ o) (policy ∙ p) (rw size m)
            (rw (moved, size) (omega arith)) in
        (
          held ∙ (rw (moved, size) (drop_shift s.maxsize s.buffer x xs at_size m)),
          omega (arith, total, counted, ap length moved),
        )
    | inr room ↦
        let (same, counted, _) = put_room x s o (ground arith) in
        let (shut, size, policy) = put-frame x s in
        let (held, total) =
          puts-drop_oldest xs (put x s).0 (shut ∙ o) (policy ∙ p) (rw size m)
            (rw (same, size) (ground (arith, length-append s.buffer (x ∷ [])))) in
        (
          held
              ∙ (rw (same, size)
                  (ap (λ l. drop (length l - s.maxsize) l) (append_assoc s.buffer (x ∷ []) xs))),
          omega (arith, total, counted, ap length same, length-append s.buffer (x ∷ [])),
        )
  ]
