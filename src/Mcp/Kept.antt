-- ===== src/Mcp/Kept.antt =====
-- A session that is in use is not lost, whatever other clients do meanwhile.
use oxbrook.Prelude.{
  ℕ, ◌+◌, ◌≤◌, ◌≡◌, refl, Bool, true, false, some, List, [], ◌∷◌, Text, text_eq, text_eq_sound,
  text_eq_refl, Option-cases, arith, Bool-cases, inl, inr, All, is_some, ◌≢◌, sym, ap, ◌∙◌,
}
use oxbrook.Mcp.Session.{Session, open_session}
use oxbrook.Mcp.Registry.{
  Sessions, find, expired, sweep, create_session, touch, get, get_found, drop_session, adjust,
}
use oxbrook.Mcp.InUse.{InUse, store-InUse, erase-InUse, not_expired, sweep-InUse, insert-InUse}
use oxbrook.Mcp.Calls.{
  Act, Call, do_create, do_get, do_drop, do_sweep, do_close, do_act, act, step, run, act-fields,
}
use oxbrook.Mcp.Bounded.{find-id}

no_both : {b : Bool} → b ≡ true → b ≡ false → ⊥
no_both p q = cc

module _ {ℓ} {A : Type ℓ} where
  -- A call at a time within `idle` of `t` that does not drop the session.
  abbrev SparesCall : Text → Call A → Type 0
  SparesCall sid (do_drop key) = text_eq key sid ≡ false
  SparesCall sid do_close = ⊥
  SparesCall sid _ = Unit

  abbrev pub Spares : ℕ → Text → ℕ → ℕ × Call A → Type 0
  Spares idle sid t (now, c) = (t ≤ now) × (now ≤ t + idle) × SparesCall sid c

  same_session :
      (sid key : Text) (s u : Session A) (l : List (Session A))
      → find key l ≡ some u
      → find sid l ≡ some s
      → text_eq u.id sid ≡ true
      → u ≡ s
  same_session sid key s u l g f e =
      let k : sid ≡ key = sym (text_eq_sound u.id sid e) ∙ find-id key u l g in
      let m : some u ≡ some s = sym g ∙ ap (λ x. find x l) (sym k) ∙ f in cc

  -- An expired session is another one.
  expired-other :
      (idle t now : ℕ) (sid key : Text) (u : Session A) (r : Sessions A)
      → now ≤ t + idle
      → find key r.by_id ≡ some u
      → InUse idle sid t r
      → expired r.idle now u ≡ true
      → text_eq u.id sid ≡ false
  expired-other idle t now sid key u r b g (i, (s, f, h)) e = elim (Bool-cases (text_eq u.id sid)) [
    | inl same ↦
        let m = same_session sid key s u r.by_id g f same in
        let alive = ap (expired r.idle now) m ∙ not_expired idle t now s r i b h in
        absurd (no_both e alive)
    | inr other ↦ other
  ]

  -- `get` of the session itself finds it, and of another leaves it.
  get_found-InUse :
      (idle t now : ℕ) (sid key : Text) (u : Session A) (r : Sessions A)
      → t ≤ now
      → now ≤ t + idle
      → find key r.by_id ≡ some u
      → InUse idle sid t r
      → InUse idle sid t (get_found now u r).0
  get_found-InUse idle t now sid key u r a b g (i, (s, f, h)) =
      elim (Bool-cases (expired r.idle now u)) [
        | inl e ↦
            let other = expired-other idle t now sid key u r b g (i, (s, f, h)) e in
            rw e (erase-InUse idle t sid u.id r other (i, (s, f, h)))
        | inr e ↦ rw e (store-InUse idle t sid (touch now u) r (i, (s, f, h)) (λ _. a))
      ]

  get-InUse :
      (idle t now : ℕ) (sid key : Text) (r : Sessions A)
      → t ≤ now
      → now ≤ t + idle
      → InUse idle sid t r
      → InUse idle sid t (get key now r).0
  unfolding get
  get-InUse idle t now sid [] r a b u = u
  get-InUse idle t now sid (c ∷ key) r a b u = elim (Option-cases (find (c ∷ key) r.by_id)) [
    | inl e ↦ rw (e, get) u
    | inr (s, e) ↦ rw (e, get) (get_found-InUse idle t now sid (c ∷ key) s r a b e u)
  ]

  drop-InUse :
      (idle t : ℕ) (sid key : Text) (r : Sessions A)
      → text_eq key sid ≡ false
      → InUse idle sid t r
      → InUse idle sid t (drop_session key r).0
  unfolding drop_session
  drop-InUse idle t sid [] r d u = u
  drop-InUse idle t sid (c ∷ key) r d u = elim (Option-cases (find (c ∷ key) r.by_id)) [
    | inl e ↦ rw (e, drop_session) u
    | inr (s, e) ↦ rw (e, drop_session) (erase-InUse idle t sid (c ∷ key) r d u)
  ]

  adjusted :
      (idle t : ℕ) (sid key : Text) (a : Act A) (u s : Session A) (r : Sessions A)
      → find key r.by_id ≡ some u
      → find sid r.by_id ≡ some s
      → t ≤ s.touched
      → (act a u).id ≡ sid
      → t ≤ (act a u).touched
  adjusted idle t sid key a u s r g f h e =
      let (same, time) = act-fields a u in
      let uid : u.id ≡ sid = sym same ∙ e in
      let eq : text_eq u.id sid ≡ true = rw uid (text_eq_refl sid) in
      let m : u.touched ≡ s.touched =
        ap (λ x. x.touched) (same_session sid key s u r.by_id g f eq) in
      omega (arith, time, m, h)

  adjust-InUse :
      (idle t : ℕ) (sid key : Text) (a : Act A) (r : Sessions A)
      → InUse idle sid t r
      → InUse idle sid t (adjust key (act a) r)
  unfolding adjust
  adjust-InUse idle t sid key a r (i, (s, f, h)) = elim (Option-cases (find key r.by_id)) [
    | inl e ↦ rw (e, adjust) (i, (s, f, h))
    | inr (u, e) ↦
        rw (e, adjust)
          (store-InUse idle t sid (act a u) r (i, (s, f, h))
            (λ same. adjusted idle t sid key a u s r e f h same))
  ]

  step-InUse :
      (idle t now : ℕ) (sid : Text) (c : Call A) (r : Sessions A)
      → Spares idle sid t (now, c)
      → InUse idle sid t r
      → InUse idle sid t (step now c r)
  unfolding create_session open_session
  step-InUse idle t now sid (do_create fresh version) r (a, b, _) u =
      insert-InUse idle t sid (open_session fresh version now) (sweep now r).0 a
        (sweep-InUse idle t now sid r b u)
  step-InUse idle t now sid (do_get key) r (a, b, _) u = get-InUse idle t now sid key r a b u
  step-InUse idle t now sid (do_drop key) r (a, b, d) u = drop-InUse idle t sid key r d u
  step-InUse idle t now sid do_sweep r (a, b, _) u = sweep-InUse idle t now sid r b u
  step-InUse idle t now sid do_close r (a, b, d) u = absurd d
  step-InUse idle t now sid (do_act key a) r _ u = adjust-InUse idle t sid key a r u

  run-InUse :
      (idle t : ℕ) (sid : Text) (cs : List (ℕ × Call A)) (r : Sessions A)
      → All (Spares idle sid t) cs
      → InUse idle sid t r
      → InUse idle sid t (run cs r)
  unfolding run
  run-InUse idle t sid [] r h u = u
  run-InUse idle t sid ((now, c) ∷ cs) r (h, hs) u =
      run-InUse idle t sid cs (step now c r) hs (step-InUse idle t now sid c r h u)

  get-finds :
      (idle t now : ℕ) (sid : Text) (r : Sessions A)
      → sid ≢ []
      → now ≤ t + idle
      → InUse idle sid t r
      → is_some (get sid now r).1 ≡ true
  unfolding get
  get-finds idle t now [] r n b u = absurd (n refl)
  get-finds idle t now (c ∷ sid) r n b (i, (s, f, h)) =
      rw (f, get) (rw (not_expired idle t now s r i b h) refl)

  -- An agent's session that is registered and was last used at a time t or later is still found
  -- after any calls by anyone, at times from t to idle past it, that do not drop it or close the
  -- registry.
  pub get-run :
      (idle t now : ℕ) (sid : Text) (cs : List (ℕ × Call A)) (r : Sessions A)
      → sid ≢ []
      → now ≤ t + idle
      → All (Spares idle sid t) cs
      → InUse idle sid t r
      → is_some (get sid now (run cs r)).1 ≡ true
  get-run idle t now sid cs r n b h u =
      get-finds idle t now sid (run cs r) n b (run-InUse idle t sid cs r h u)
