-- ===== src/Mcp/Pumping.antt =====
-- What a client sees of a feed over any run of arrivals and reads.
use oxbrook.Prelude.{
  ℕ, zero, suc, not, ◌⊎◌, ◌-◌, ◌≤◌, ◌≡◌, refl, Bool, true, false, List, [], ◌∷◌, ◌++◌, length,
  append_assoc, append-nil, length-append, length-drop, arith, sym, ap, ◌∙◌, inl, inr,
}
use oxbrook.Mcp.Feed.{Feed, keep_last, pump, take}

-- The posts of a run of arrivals, and the feed after it.
unfoldable pub pump_all {ℓ} : {A : Type ℓ} → List A → Feed A → Feed A × List Bool
pump_all [] f = (f, [])
pump_all (x ∷ xs) f =
    let first = pump x f in let rest = pump_all xs first.0 in (rest.0, first.1 ∷ rest.1)

-- No notification for any of the items.
abbrev pub silent {ℓ} : {A : Type ℓ} → List A → List Bool
silent [] = []
silent (_ ∷ xs) = false ∷ silent xs

Nat_cases : (n m : ℕ) → (n ≤ m) ⊎ (suc m ≤ n)
Nat_cases zero m = inl (omega arith)
Nat_cases (suc n) zero = inr (omega arith)
Nat_cases (suc n) (suc m) = elim (Nat_cases n m) [
  | inl h ↦ inl (omega (arith, h))
  | inr h ↦ inr (omega (arith, h))
]

module _ {ℓ} {A : Type ℓ} where
  keep_last-cons :
      (n : ℕ) (x : A) (xs : List A) → n ≤ length xs → keep_last n (x ∷ xs) ≡ keep_last n xs
  keep_last-cons n x xs h =
      let e : suc (length xs) - n ≡ suc (length xs - n) = omega (arith, h) in rw e refl

  keep_last_short : (n : ℕ) (xs : List A) → length xs ≤ n → keep_last n xs ≡ xs
  keep_last_short n xs h = let e : length xs - n ≡ 0 = omega (arith, h) in rw e refl

  -- Trimming as the items arrive keeps what trimming once keeps.
  pub keep_last-keep_last :
      (n : ℕ) (xs ys : List A) → keep_last n (keep_last n xs ++ ys) ≡ keep_last n (xs ++ ys)
  keep_last-keep_last n [] ys = rw (keep_last_short n [] (omega arith)) refl
  keep_last-keep_last n (x ∷ xs) ys = elim (Nat_cases n (length xs)) [
    | inl h ↦ rw (keep_last-cons n x xs h) (
        keep_last-keep_last n xs ys
        ∙ sym (keep_last-cons n x (xs ++ ys) (omega (arith, h, length-append xs ys))))
    | inr h ↦ rw (keep_last_short n (x ∷ xs) h) refl
  ]

  length-keep_last : (n : ℕ) (xs : List A) → length (keep_last n xs) ≤ n
  length-keep_last n xs = omega (arith, length-drop (length xs - n) xs)

  -- The buffer within its size, which every operation keeps.
  abbrev pub IsValid : Feed A → Type 0
  IsValid f = length f.buffer ≤ f.size

  pump-IsValid : (x : A) (f : Feed A) → IsValid (pump x f).0
  unfolding pump
  pump-IsValid x f = ground (arith, length-keep_last f.size (f.buffer ++ x ∷ []))

  pump-fields :
      (x : A) (f : Feed A)
      → ((pump x f).0.buffer ≡ keep_last f.size (f.buffer ++ x ∷ []))
        × ((pump x f).0.size ≡ f.size)
        × ((pump x f).0.notified ≡ true)
        × ((pump x f).1 ≡ not f.notified)
  unfolding pump
  pump-fields x f = ground arith

  abbrev Kept : Feed A → List A → Feed A → Type ℓ
  Kept f xs g =
      (g.buffer ≡ keep_last f.size (f.buffer ++ xs)) × (g.size ≡ f.size) × (g.notified ≡ true)

  Kept-cons :
      (x : A) (xs : List A) (f g h : Feed A) → Kept f (x ∷ []) g → Kept g xs h → Kept f (x ∷ xs) h
  Kept-cons x xs f g h (b, s, n) (c, t, m) = (
    c
        ∙ ap (λ k. keep_last k (g.buffer ++ xs)) s
        ∙ ap (λ l. keep_last f.size (l ++ xs)) b
        ∙ keep_last-keep_last f.size (f.buffer ++ x ∷ []) xs
        ∙ ap (keep_last f.size) (append_assoc f.buffer (x ∷ []) xs),
    t ∙ s,
    m,
  )

  pump_all_notified :
      (xs : List A) (f : Feed A)
      → f.notified ≡ true
      → IsValid f
      → Kept f xs (pump_all xs f).0 × ((pump_all xs f).1 ≡ silent xs)
  unfolding pump_all
  pump_all_notified [] f h v =
      ((rw (append-nil f.buffer) (sym (keep_last_short f.size f.buffer v)), refl, h), refl)
  pump_all_notified (x ∷ xs) f h v =
      let (b, s, n, p) = pump-fields x f in
      let (k, q) = pump_all_notified xs (pump x f).0 n (pump-IsValid x f) in
      (Kept-cons x xs f (pump x f).0 (pump_all xs (pump x f).0).0 (b, s, n) k, cc)

-- A client that has just read a feed is told once of any run of arrivals, with the first of them,
-- and its next read is given the last of them that fit the buffer, in order.
pub take-pump_all {ℓ} :
    {A : Type ℓ} (x : A) (xs : List A) (f : Feed A)
    → ((take (pump_all (x ∷ xs) (take f).1).0).0 ≡ keep_last f.size (x ∷ xs))
      × ((pump_all (x ∷ xs) (take f).1).1 ≡ true ∷ silent xs)
unfolding take pump_all
take-pump_all x xs f =
    let g = (take f).1 in
    let (b, s, n, p) = pump-fields x g in
    let (k, q) = pump_all_notified xs (pump x g).0 n (pump-IsValid x g) in
    ((Kept-cons x xs g (pump x g).0 (pump_all xs (pump x g).0).0 (b, s, n) k).0, cc)
