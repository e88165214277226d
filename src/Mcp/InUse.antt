-- ===== src/Mcp/InUse.antt =====
-- A session in use, under each change that the registry makes.
use oxbrook.Prelude.{
  ℕ, ◌+◌, ◌≤◌, ◌≡◌, refl, Bool, true, false, not, some, List, [], ◌∷◌, keep_if, Text, text_eq,
  text_eq_sound, text_eq_refl, arith, Bool-cases, inl, inr, sym, ap, ◌∙◌, length, leb,
}
use oxbrook.Mcp.Session.{Session}
use oxbrook.Mcp.Registry.{Sessions, find, erase, store, expired, sweep, insert}

module _ {ℓ} {A : Type ℓ} where
  -- The session is registered, and was last used at `t` or later.
  abbrev pub InUse : ℕ → Text → ℕ → Sessions A → Type ℓ
  InUse idle sid t r =
      (r.idle ≡ idle) × ((s : Session A) × (find sid r.by_id ≡ some s) × (t ≤ s.touched))

  find-keep_if :
      (sid : Text) (p : Session A → Bool) (s : Session A) (l : List (Session A))
      → find sid l ≡ some s
      → p s ≡ true
      → find sid (keep_if p l) ≡ some s
  find-keep_if sid p s [] f h = cc
  find-keep_if sid p s (u ∷ l) f h = ground (arith, find-keep_if sid p s l)

  find-erase :
      (sid key : Text) (l : List (Session A))
      → text_eq key sid ≡ false
      → find sid (erase key l) ≡ find sid l
  find-erase sid key [] h = refl
  find-erase sid key (u ∷ l) h = ground (arith, find-erase sid key l h, text_eq_sound u.id key)

  find-store_other :
      (sid : Text) (n : Session A) (l : List (Session A))
      → text_eq n.id sid ≡ false
      → find sid (store n l) ≡ find sid l
  find-store_other sid n [] h = ground arith
  find-store_other sid n (u ∷ l) h =
      ground (arith, find-store_other sid n l h, text_eq_sound u.id n.id)

  find-store : (n : Session A) (l : List (Session A)) → find n.id (store n l) ≡ some n
  find-store n [] = ground (arith, text_eq_refl n.id)
  find-store n (u ∷ l) = ground (arith, find-store n l, text_eq_refl n.id)

  -- Storing a session that was used at `t` or later, whatever its id.
  pub store-InUse :
      (idle t : ℕ) (sid : Text) (n : Session A) (r : Sessions A)
      → InUse idle sid t r
      → (n.id ≡ sid → t ≤ n.touched)
      → InUse idle sid t (record r { by_id = store n r.by_id })
  store-InUse idle t sid n r (i, (s, f, h)) k = elim (Bool-cases (text_eq n.id sid)) [
    | inl e ↦
        let same = text_eq_sound n.id sid e in
        (i, (n, ap (λ x. find x (store n r.by_id)) (sym same) ∙ find-store n r.by_id, k same))
    | inr e ↦ (i, (s, find-store_other sid n r.by_id e ∙ f, h))
  ]

  pub erase-InUse :
      (idle t : ℕ) (sid key : Text) (r : Sessions A)
      → text_eq key sid ≡ false
      → InUse idle sid t r
      → InUse idle sid t (record r { by_id = erase key r.by_id })
  erase-InUse idle t sid key r e (i, (s, f, h)) = (i, (s, find-erase sid key r.by_id e ∙ f, h))

  in_time :
      (idle t now : ℕ) (s : Session A) → now ≤ t + idle → t ≤ s.touched → expired idle now s ≡ false
  unfolding expired
  in_time idle t now s b h = ground arith

  pub not_expired :
      (idle t now : ℕ) (s : Session A) (r : Sessions A)
      → r.idle ≡ idle
      → now ≤ t + idle
      → t ≤ s.touched
      → expired r.idle now s ≡ false
  not_expired idle t now s r i b h = ap (λ k. expired k now s) i ∙ in_time idle t now s b h

  pub sweep-InUse :
      (idle t now : ℕ) (sid : Text) (r : Sessions A)
      → now ≤ t + idle
      → InUse idle sid t r
      → InUse idle sid t (sweep now r).0
  unfolding sweep
  sweep-InUse idle t now sid r b (i, (s, f, h)) = (
    i,
    (
      s,
      find-keep_if sid (λ u. not (expired r.idle now u)) s r.by_id f
          (ap not (not_expired idle t now s r i b h)),
      h,
    ),
  )

  pub insert-InUse :
      (idle t : ℕ) (sid : Text) (n : Session A) (r : Sessions A)
      → t ≤ n.touched
      → InUse idle sid t r
      → InUse idle sid t (insert n r).0
  unfolding insert
  insert-InUse idle t sid n r b u = elim (Bool-cases (leb r.limit (length r.by_id))) [
    | inl e ↦ rw (e, insert) u
    | inr e ↦ rw (e, insert) (store-InUse idle t sid n r u (λ _. b))
  ]
