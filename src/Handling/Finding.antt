-- ===== src/Handling/Finding.antt =====
-- Which handler an exception gets once a class is registered.
use oxbrook.Prelude.{
  ℕ, ◌≡◌, refl, Bool, false, none, some, List, [], ◌∷◌, ◌++◌, ◌==◌, ==_iff, if◌then◌else◌, ok,
  arith, Option-cases, ap, subst,
}
use oxbrook.Handling.Exceptions.{is_in, lookup, find_in, register}

module _ {ℓ} {H : Type ℓ} where
  lookup_end :
      (hs : List (ℕ × H)) (c : ℕ) (fn : H)
      → lookup c hs ≡ none
      → lookup c (hs ++ (c, fn) ∷ []) ≡ some fn
  lookup_end [] c fn n = ground arith
  lookup_end ((d, h) ∷ hs) c fn n = ground (arith, lookup_end hs c fn)

  lookup_other :
      (hs : List (ℕ × H)) (c d : ℕ) (fn : H)
      → (d == c) ≡ false
      → lookup d (hs ++ (c, fn) ∷ []) ≡ lookup d hs
  lookup_other [] c d fn n = rw n refl
  lookup_other ((b, h) ∷ hs) c d fn n =
      ap (λ x. if d == b then some h else x) (lookup_other hs c d fn n)

  -- What a registration that is accepted leaves.
  registered :
      (hs hs' : List (ℕ × H)) (c : ℕ) (bases : List ℕ) (is_async : Bool) (fn : H)
      → register hs c bases is_async fn ≡ ok hs'
      → (lookup c hs ≡ none) × (hs ++ (c, fn) ∷ [] ≡ hs')
  unfolding register
  registered hs hs' c bases is_async fn r = ground (arith, Option-cases (lookup c hs))

  find_end :
      (hs : List (ℕ × H)) (c : ℕ) (fn : H) (before after : List ℕ)
      → lookup c hs ≡ none
      → find_in hs before ≡ none
      → find_in (hs ++ (c, fn) ∷ []) (before ++ c ∷ after) ≡ some fn
  unfolding find_in
  find_end hs c fn [] after n f = ground (arith, lookup_end hs c fn n)
  find_end hs c fn (d ∷ before) after n f = ground (
    arith,
    lookup_end hs c fn n,
    lookup_other hs c d fn,
    find_end hs c fn before after n,
    ==_iff d c,
  )

  find_other :
      (hs : List (ℕ × H)) (c : ℕ) (fn : H) (cs : List ℕ)
      → is_in c cs ≡ false
      → find_in (hs ++ (c, fn) ∷ []) cs ≡ find_in hs cs
  unfolding find_in
  find_other hs c fn [] n = refl
  find_other hs c fn (d ∷ cs) n = ground (arith, lookup_other hs c d fn, find_other hs c fn cs)

  -- An exception whose class is closer to a class just registered than to any that had a handler
  -- gets the function that was registered.
  pub find-register :
      (hs hs' : List (ℕ × H)) (c : ℕ) (bases : List ℕ) (is_async : Bool) (fn : H)
      (before after : List ℕ)
      → register hs c bases is_async fn ≡ ok hs'
      → find_in hs before ≡ none
      → find_in hs' (before ++ c ∷ after) ≡ some fn
  find-register hs hs' c bases is_async fn before after r f =
      let (n, e) = registered hs hs' c bases is_async fn r in
      subst (λ l. find_in l (before ++ c ∷ after) ≡ some fn) e (find_end hs c fn before after n f)

  -- An exception that is not of the class just registered keeps the handler that it had.
  pub find-register_other :
      (hs hs' : List (ℕ × H)) (c : ℕ) (bases : List ℕ) (is_async : Bool) (fn : H) (mro : List ℕ)
      → register hs c bases is_async fn ≡ ok hs'
      → is_in c mro ≡ false
      → find_in hs' mro ≡ find_in hs mro
  find-register_other hs hs' c bases is_async fn mro r n =
      let (_, e) = registered hs hs' c bases is_async fn r in
      subst (λ l. find_in l mro ≡ find_in hs mro) e (find_other hs c fn mro n)
