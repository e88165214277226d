-- ===== src/Mcp/Bounded.antt =====
-- The registry of sessions over any sequence of calls: distinct ids, within its limit.
use oxbrook.Prelude.{
  ℕ, suc, ◌≤◌, ◌≡◌, refl, Bool, true, false, not, ◌&&◌, some, List, [], ◌∷◌, length, keep_if, Text,
  text_eq, text_eq_sound, text_eq_comm, subst, ◌∙◌, Option-cases, arith, Bool-cases, inl, inr,
  length-keep_if-le,
}
use oxbrook.Mcp.Session.{Session, open_session}
use oxbrook.Mcp.Registry.{
  Sessions, find, erase, store, expired, sweep, insert, create_session, get, get_found, touch,
  drop_session, close_all, adjust,
}
use oxbrook.Mcp.Calls.{
  Act, Call, do_create, do_get, do_drop, do_sweep, do_close, do_act, act, step, run, act-fields,
}

module _ {ℓ} {A : Type ℓ} where
  abbrev pub absent : Text → List (Session A) → Bool
  absent sid [] = true
  absent sid (s ∷ l) = not (text_eq s.id sid) && absent sid l

  abbrev pub Distinct : List (Session A) → Type 0
  Distinct [] = Unit
  Distinct (s ∷ l) = (absent s.id l ≡ true) × Distinct l

  abbrev pub IsBounded : Sessions A → Type 0
  IsBounded r = Distinct r.by_id × (length r.by_id ≤ r.limit)

  absent-keep_if :
      (sid : Text) (p : Session A → Bool) (l : List (Session A))
      → absent sid l ≡ true
      → absent sid (keep_if p l) ≡ true
  absent-keep_if sid p [] h = refl
  absent-keep_if sid p (s ∷ l) h = ground (arith, absent-keep_if sid p l)

  Distinct-keep_if :
      (p : Session A → Bool) (l : List (Session A)) → Distinct l → Distinct (keep_if p l)
  Distinct-keep_if p [] h = tt
  Distinct-keep_if p (s ∷ l) (a, h) =
      ground (arith, Distinct-keep_if p l h, absent-keep_if s.id p l a)

  absent-erase :
      (sid key : Text) (l : List (Session A))
      → absent sid l ≡ true
      → absent sid (erase key l) ≡ true
  absent-erase sid key [] h = refl
  absent-erase sid key (s ∷ l) h = ground (arith, absent-erase sid key l)

  Distinct-erase : (key : Text) (l : List (Session A)) → Distinct l → Distinct (erase key l)
  Distinct-erase key [] h = tt
  Distinct-erase key (s ∷ l) (a, h) =
      ground (arith, Distinct-erase key l h, absent-erase s.id key l a)

  length-erase-le : (key : Text) (l : List (Session A)) → length (erase key l) ≤ length l
  length-erase-le key [] = omega arith
  length-erase-le key (s ∷ l) = ground (arith, length-erase-le key l)

  absent-store :
      (sid : Text) (n : Session A) (l : List (Session A))
      → text_eq n.id sid ≡ false
      → absent sid l ≡ true
      → absent sid (store n l) ≡ true
  absent-store sid n [] e h = ground arith
  absent-store sid n (s ∷ l) e h = ground (arith, absent-store sid n l)

  Distinct-store : (n : Session A) (l : List (Session A)) → Distinct l → Distinct (store n l)
  Distinct-store n [] h = (refl, tt)
  Distinct-store n (s ∷ l) (a, h) = elim (Bool-cases (text_eq s.id n.id)) [
    | inl e ↦ rw e (subst (λ k. absent k l ≡ true) (text_eq_sound s.id n.id e) a, h)
    | inr e ↦ rw e (absent-store s.id n l (text_eq_comm n.id s.id ∙ e) a, Distinct-store n l h)
  ]

  length-store-le : (n : Session A) (l : List (Session A)) → length (store n l) ≤ suc (length l)
  length-store-le n [] = omega arith
  length-store-le n (s ∷ l) = ground (arith, length-store-le n l)

  pub find-id :
      (sid : Text) (s : Session A) (l : List (Session A)) → find sid l ≡ some s → s.id ≡ sid
  find-id sid s [] h = cc
  find-id sid s (t ∷ l) h = ground (arith, text_eq_sound t.id sid, find-id sid s l)

  length-store_found :
      (sid : Text) (n s : Session A) (l : List (Session A))
      → find sid l ≡ some s
      → n.id ≡ sid
      → length (store n l) ≡ length l
  length-store_found sid n s [] h e = cc
  length-store_found sid n s (t ∷ l) h e = ground (arith, length-store_found sid n s l)

  -- A session that is found, stored again under its id.
  restore-IsBounded :
      (sid : Text) (n s : Session A) (r : Sessions A)
      → find sid r.by_id ≡ some s
      → n.id ≡ s.id
      → IsBounded r
      → IsBounded (record r { by_id = store n r.by_id })
  restore-IsBounded sid n s r f e (d, b) = (
    Distinct-store n r.by_id d,
    omega (arith, length-store_found sid n s r.by_id f (e ∙ find-id sid s r.by_id f), b),
  )

  erase-IsBounded :
      (sid : Text) (r : Sessions A)
      → IsBounded r
      → IsBounded (record r { by_id = erase sid r.by_id })
  erase-IsBounded sid r (d, b) =
      (Distinct-erase sid r.by_id d, omega (arith, length-erase-le sid r.by_id, b))

  sweep-IsBounded : (now : ℕ) (r : Sessions A) → IsBounded r → IsBounded (sweep now r).0
  unfolding sweep
  sweep-IsBounded now r (d, b) = (
    Distinct-keep_if (λ s. not (expired r.idle now s)) r.by_id d,
    omega (arith, length-keep_if-le (λ s. not (expired r.idle now s)) r.by_id, b),
  )

  insert-IsBounded : (s : Session A) (r : Sessions A) → IsBounded r → IsBounded (insert s r).0
  unfolding insert
  insert-IsBounded s r (d, b) =
      ground (arith, Distinct-store s r.by_id d, length-store-le s r.by_id)

  get_found-IsBounded :
      (sid : Text) (now : ℕ) (s : Session A) (r : Sessions A)
      → find sid r.by_id ≡ some s
      → IsBounded r
      → IsBounded (get_found now s r).0
  get_found-IsBounded sid now s r f b = elim (Bool-cases (expired r.idle now s)) [
    | inl e ↦ rw e (erase-IsBounded s.id r b)
    | inr e ↦ rw e (restore-IsBounded sid (touch now s) s r f refl b)
  ]

  get-IsBounded :
      (sid : Text) (now : ℕ) (r : Sessions A) → IsBounded r → IsBounded (get sid now r).0
  unfolding get
  get-IsBounded [] now r b = b
  get-IsBounded (c ∷ sid) now r b = elim (Option-cases (find (c ∷ sid) r.by_id)) [
    | inl e ↦ rw (e, get) b
    | inr (s, e) ↦ rw (e, get) (get_found-IsBounded (c ∷ sid) now s r e b)
  ]

  drop-IsBounded : (sid : Text) (r : Sessions A) → IsBounded r → IsBounded (drop_session sid r).0
  unfolding drop_session
  drop-IsBounded [] r b = b
  drop-IsBounded (c ∷ sid) r b = elim (Option-cases (find (c ∷ sid) r.by_id)) [
    | inl e ↦ rw (e, drop_session) b
    | inr (s, e) ↦ rw (e, drop_session) (erase-IsBounded (c ∷ sid) r b)
  ]

  adjust-IsBounded :
      (sid : Text) (a : Act A) (r : Sessions A) → IsBounded r → IsBounded (adjust sid (act a) r)
  unfolding adjust
  adjust-IsBounded sid a r b = elim (Option-cases (find sid r.by_id)) [
    | inl e ↦ rw (e, adjust) b
    | inr (s, e) ↦ rw (e, adjust) (restore-IsBounded sid (act a s) s r e (act-fields a s).0 b)
  ]

  step-IsBounded : (now : ℕ) (c : Call A) (r : Sessions A) → IsBounded r → IsBounded (step now c r)
  unfolding create_session close_all
  step-IsBounded now (do_create fresh version) r b =
      insert-IsBounded (open_session fresh version now) (sweep now r).0 (sweep-IsBounded now r b)
  step-IsBounded now (do_get sid) r b = get-IsBounded sid now r b
  step-IsBounded now (do_drop sid) r b = drop-IsBounded sid r b
  step-IsBounded now do_sweep r b = sweep-IsBounded now r b
  step-IsBounded now do_close r b = (tt, omega arith)
  step-IsBounded now (do_act sid a) r b = adjust-IsBounded sid a r b

  -- Whatever is called and when, a registry of sessions within its limit and with distinct ids
  -- stays so.
  pub run-IsBounded : (cs : List (ℕ × Call A)) (r : Sessions A) → IsBounded r → IsBounded (run cs r)
  unfolding run
  run-IsBounded [] r b = b
  run-IsBounded ((now, c) ∷ cs) r b = run-IsBounded cs (step now c r) (step-IsBounded now c r b)
