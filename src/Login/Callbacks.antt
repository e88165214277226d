-- ===== src/Login/Callbacks.antt =====
-- The logins in progress that `_begin` and `_finish` leave in a session.
use oxbrook.Prelude.{
  ℕ, zero, suc, ◌-◌, inl, inr, refl, not, ◌||◌, Bool, true, false, Option, none, some, List, [],
  ◌∷◌, ◌==◌, leb, if◌then◌else◌, length, Text, All, Bool-cases,
}
use oxbrook.Prelude.Dicts.{Dict, get, pop, put, All-pop, All-put}
use oxbrook.Login.Begin.{
  pending_ttl, pending_limit, Entry, Session, keep_live, live, pending, stored_as, older,
  drop_oldest, trim, begin,
}
use oxbrook.Login.Finish.{
  exchange, identify, Callback, Step, gives, refuses, Flow, refused, iss_refused, welcomed,
  identified, exchanged, with_code, called_back, on_entry, on_state, finish,
}
use oxbrook.Login.Targets.{Call, begins, finishes, entry_of, run, IsBegun}

module _ (P : ℕ × Entry → Type 0) where
  abbrev pub Each : ℕ × Option Entry → Type 0
  Each (state, none) = Unit
  Each (state, some e) = P (state, e)

  abbrev pub AreFrom : Option (Dict (Option Entry)) → Type 0
  AreFrom none = Unit
  AreFrom (some found) = All Each found

  All-keep_live :
      (now state : ℕ) (o : Option Entry) (rest : Dict Entry)
      → Each (state, o)
      → All P rest
      → All P (keep_live now state o rest)
  All-keep_live now state none rest p h = h
  All-keep_live now state (some e) rest p h = elim (Bool-cases (leb (now - e.began) pending_ttl)) [
    | inl b ↦ rw b (p, h)
    | inr b ↦ rw b h
  ]

  All-live : (now : ℕ) (found : Dict (Option Entry)) → All Each found → All P (live now found)
  All-live now [] h = tt
  All-live now ((state, o) ∷ found) (p, h) =
      All-keep_live now state o (live now found) p (All-live now found h)

  pub All-pending : (now : ℕ) (o : Option (Dict (Option Entry))) → AreFrom o → All P (pending now o)
  All-pending now none h = tt
  All-pending now (some found) h = All-live now found h

  All-stored_as : (p : Dict Entry) → All P p → All Each (stored_as p)
  All-stored_as [] h = tt
  All-stored_as ((state, e) ∷ p) (q, h) = (q, All-stored_as p h)

  All-drop_oldest : (p : Dict Entry) → All P p → All P (drop_oldest p)
  All-drop_oldest [] h = tt
  All-drop_oldest ((state, e) ∷ p) h = All-pop P (older state e.began p) ((state, e) ∷ p) h

  All-trim : (n : ℕ) (p : Dict Entry) → All P p → All P (trim n p)
  All-trim zero p h = h
  All-trim (suc n) p h = elim (Bool-cases (leb (length p) pending_limit)) [
    | inl b ↦ rw b h
    | inr b ↦ rw b (All-trim n (drop_oldest p) (All-drop_oldest p h))
  ]

  AreFrom-welcomed :
      (t : Text) (o : Option ℕ) (s : Session) → AreFrom s.stored → AreFrom (welcomed t o s).0.stored
  AreFrom-welcomed t none s h = h
  AreFrom-welcomed t (some v) s h = tt

  AreFrom-identified :
      (f : Flow) (t : Text) (o : Step ℕ) (s : Session)
      → AreFrom s.stored
      → AreFrom (identified f t o s).0.stored
  AreFrom-identified f t (refuses status) s h = h
  AreFrom-identified f t (gives who) s h = AreFrom-welcomed t (f.on_login who) s h

  AreFrom-with_code :
      (f : Flow) (e : Entry) (error : Option Bool) (code : Option ℕ) (s : Session)
      → AreFrom s.stored
      → AreFrom (with_code f e error code s).0.stored
  AreFrom-with_code f e (some _) code s h = h
  AreFrom-with_code f e none none s h = h
  AreFrom-with_code f e none (some code) s h = go (exchange (f.post code e.verifier e.redirect_uri))
    where
      go : (o : Step (Option ℕ)) → AreFrom (exchanged f e o s).0.stored
      go (refuses status) = h
      go (gives tokens) = AreFrom-identified f e.target (identify f tokens e.nonce) s h

  AreFrom-called_back :
      (f : Flow) (c : Callback) (e : Entry) (s : Session)
      → AreFrom s.stored
      → AreFrom (called_back f c e s).0.stored
  AreFrom-called_back f c e s h =
      elim (Bool-cases (not (e.name == f.name) || iss_refused f.issuer_ok f.promised c.iss)) [
        | inl b ↦ rw b h
        | inr b ↦ rw b (AreFrom-with_code f e c.error c.code s h)
      ]

  AreFrom-on_entry :
      (f : Flow) (c : Callback) (state : ℕ) (p : Dict Entry) (o : Option Entry) (s : Session)
      → All P p
      → AreFrom s.stored
      → AreFrom (on_entry f c state p o s).0.stored
  AreFrom-on_entry f c state p none s q h = h
  AreFrom-on_entry f c state p (some e) s q h =
      AreFrom-called_back f c e (record s { stored = some (stored_as (pop state p)) })
        (All-stored_as (pop state p) (All-pop P state p q))

  AreFrom-finish :
      (f : Flow) (now : ℕ) (c : Callback) (s : Session)
      → AreFrom s.stored
      → AreFrom (finish f now c s).0.stored
  unfolding finish
  AreFrom-finish f now c s h = go c.repeats c.state
    where
      go :
          (b : Bool) (o : Option ℕ)
          → AreFrom (if b then (s, refused 400) else on_state f now c o s).0.stored
      go true o = h
      go false none = h
      go false (some state) =
          AreFrom-on_entry f c state (pending now s.stored) (get state (pending now s.stored)) s
            (All-pending now s.stored h) h

  AreFrom-begin :
      (now state : ℕ) (e : Entry) (s : Session)
      → P (state, e)
      → AreFrom s.stored
      → AreFrom (begin now state e s).stored
  unfolding begin
  AreFrom-begin now state e s q h =
      let p = put state e (pending now s.stored) in
      All-stored_as (trim (length p) p) (
        All-trim (length p) p
          (All-put P state e (pending now s.stored) q (All-pending now s.stored h)))

  pub AreFrom-run :
      (ks : List Call) (s : Session)
      → ((e : ℕ × Entry) → IsBegun ks e → P e)
      → AreFrom s.stored
      → AreFrom (run ks s).stored
  AreFrom-run [] s q h = h
  AreFrom-run (begins f now state verifier nonce wanted redirect ∷ ks) s q h =
      let e = entry_of f now verifier nonce wanted redirect in
      AreFrom-run ks (begin now state e s) (λ d i. q d (inr i))
        (AreFrom-begin now state e s (q (state, e) (inl refl)) h)
  AreFrom-run (finishes f now c ∷ ks) s q h =
      AreFrom-run ks (finish f now c s).0 (λ d i. q d i) (AreFrom-finish f now c s h)
