-- ===== src/Cookies/Trips.antt =====
-- `Sessions` over a request and the next one, and cookies that were not signed.
use oxbrook.Prelude.{
  ℕ, ◌≡◌, ◌≢◌, ◌⊎◌, inl, inr, refl, sym, ap, subst, ◌∙◌, Bool, true, false, Option, none, some,
  is_some, List, [], ◌∷◌, ◌++◌, if◌then◌else◌, Text, text_eq, text_eq_refl, text_eq_sound, contains,
  arith, All,
}
use oxbrook.Prelude.Dicts.{get}
use oxbrook.Cookies.{
  Data, Session, Operation, set_item, delete_item, clear, pop_item, update, set_default, deleted,
  popped, apply, Codec, Sessions, dot, encode, partition, is_empty, is_over, read_body, verified,
  parted, decode, loaded, load, operate, written, middleware,
}

-- What JSON and URL-safe base64 do: a packed session can be read again, and has no dot; and neither
-- it nor a signature is empty.
pub record IsCodec (c : Codec) : Type 0 where
  pub unpack-pack :
      (items : Data) (now : ℕ)
      → c.unpack (c.pack items now) ≡ some (record { issued = now; items = some items })
  pub no_dot : (items : Data) (now : ℕ) → contains dot (c.pack items now) ≡ false
  pub packed : (items : Data) (now : ℕ) → is_empty (c.pack items now) ≡ false
  pub signed : (payload : Text) → is_empty (c.sign payload) ≡ false

partition-append : (p s : Text) → contains dot p ≡ false → partition (p ++ dot ∷ s) ≡ (p, s)
partition-append [] s h = refl
partition-append (x ∷ p) s h = ground (arith, partition-append p s)

parted-verified :
    (c : Codec) (ss : Sessions) (now : ℕ) (p s : Text)
    → is_empty p ≡ false
    → is_empty s ≡ false
    → parted c ss now (p, s) ≡ verified c ss now p s
parted-verified c ss now [] s p q = absurd cc
parted-verified c ss now (_ ∷ _) [] p q = absurd cc
parted-verified c ss now (_ ∷ _) (_ ∷ _) p q = refl

decode-encode :
    (c : Codec) (ss : Sessions) (now later : ℕ) (items : Data)
    → IsCodec c
    → is_over ss.max_age later now ≡ false
    → decode c ss later (encode c now items) ≡ items
unfolding decode encode
decode-encode c ss now later items h o =
    let p = c.pack items now in
    ap (parted c ss later) (partition-append p (c.sign p) (h.no_dot items now))
    ∙ parted-verified c ss later p (c.sign p) (h.packed items now) (h.signed p)
    ∙ rw (text_eq_refl (c.sign p), h.unpack-pack items now, o) refl

decode-IsSigned :
    (c : Codec) (ss : Sessions) (now : ℕ) (q : Text × Text)
    → parted c ss now q ≢ []
    → (q.1 ≡ c.sign q.0) × (parted c ss now q ≡ read_body ss now (c.unpack q.0))
decode-IsSigned c ss now ([], s) h = absurd (h refl)
decode-IsSigned c ss now (_ ∷ _, []) h = absurd (h refl)
decode-IsSigned c ss now (p ∷ ps, s ∷ sig) h = go (text_eq (s ∷ sig) (c.sign (p ∷ ps))) refl h
  where
    go :
        (b : Bool)
        → text_eq (s ∷ sig) (c.sign (p ∷ ps)) ≡ b
        → (if b then read_body ss now (c.unpack (p ∷ ps)) else []) ≢ []
        → (s ∷ sig ≡ c.sign (p ∷ ps))
          × ((if b then read_body ss now (c.unpack (p ∷ ps)) else [])
              ≡ read_body ss now (c.unpack (p ∷ ps)))
    go true e k = (text_eq_sound (s ∷ sig) (c.sign (p ∷ ps)) e, refl)
    go false e k = absurd (k refl)

-- A cookie that gives a session anything is signed with the secret, and gives what was signed.
pub loaded-IsSigned :
    (c : Codec) (ss : Sessions) (now : ℕ) (raw : Text)
    → loaded c ss now (some raw) ≢ []
    → ((partition raw).1 ≡ c.sign (partition raw).0)
      × (loaded c ss now (some raw) ≡ read_body ss now (c.unpack (partition raw).0))
unfolding decode
loaded-IsSigned c ss now [] h = absurd (h refl)
loaded-IsSigned c ss now (r ∷ raw) h = decode-IsSigned c ss now (partition (r ∷ raw)) h

loaded-decode :
    (c : Codec) (ss : Sessions) (now : ℕ) (raw : Text)
    → loaded c ss now (some raw) ≡ decode c ss now raw
unfolding decode
loaded-decode c ss now [] = refl
loaded-decode c ss now (_ ∷ _) = refl

loaded-encode :
    (c : Codec) (ss : Sessions) (now later : ℕ) (items : Data)
    → IsCodec c
    → is_over ss.max_age later now ≡ false
    → loaded c ss later (some (encode c now items)) ≡ items
loaded-encode c ss now later items h o =
    loaded-decode c ss later (encode c now items) ∙ decode-encode c ss now later items h o

-- The operations that mark a session modified.
abbrev pub IsTracked : Operation → Type 0
IsTracked (set_default _ _) = ⊥
IsTracked _ = Unit

apply-tracked :
    (o : Operation) (s : Session)
    → IsTracked o
    → ((apply o s).0.modified ≡ true) ⊎ ((apply o s).0 ≡ s)
unfolding apply
apply-tracked (set_item k v) s t = inl refl
apply-tracked (delete_item k) s t = go (is_some (get k s.items))
  where
    go : (b : Bool) → ((deleted k b s).0.modified ≡ true) ⊎ ((deleted k b s).0 ≡ s)
    go true = inl refl
    go false = inr refl
apply-tracked clear s t = inl refl
apply-tracked (pop_item k default) s t = inl (go (is_some (get k s.items)) default)
  where
    go : (b : Bool) (d : Option ℕ) → (popped k d b s).0.modified ≡ true
    go true d = refl
    go false none = refl
    go false (some v) = refl
apply-tracked (update kvs) s t = inl refl
apply-tracked (set_default k v) s t = absurd t

operate-tracked :
    (os : List Operation) (s : Session)
    → All IsTracked os
    → ((operate os s).0.modified ≡ true) ⊎ ((operate os s).0 ≡ s)
unfolding operate
operate-tracked [] s t = inr refl
operate-tracked (o ∷ os) s (t, ts) =
    go (apply o s).1 (apply-tracked o s t) (operate-tracked os (apply o s).0 ts)
  where
    go :
        (raised : Bool)
        → ((apply o s).0.modified ≡ true) ⊎ ((apply o s).0 ≡ s)
        → ((operate os (apply o s).0).0.modified ≡ true)
          ⊎ ((operate os (apply o s).0).0 ≡ (apply o s).0)
        → ((if raised then apply o s else operate os (apply o s).0).0.modified ≡ true)
          ⊎ ((if raised then apply o s else operate os (apply o s).0).0 ≡ s)
    go true h k = h
    go false h (inl m) = inl m
    go false (inl m) (inr e) = inl (ap (λ x. x.modified) e ∙ m)
    go false (inr i) (inr e) = inr (e ∙ i)

-- The cookie that the browser holds after a response.
abbrev pub jar : Option Text → Option Text → Option Text
jar raw none = raw
jar raw (some cookie) = some cookie

-- What a handler leaves in its session is what the next request finds there, whether the
-- middleware writes the cookie back or, as nothing changed, does not. The handler returned and
-- used only the session's own operations, the next request comes before the session is over, and
-- the old cookie still reads as it did.
pub load-middleware :
    (c : Codec) (ss : Sessions) (now later : ℕ) (raw : Option Text) (os : List Operation)
    → IsCodec c
    → All IsTracked os
    → (operate os (load c ss now raw)).1 ≡ false
    → is_over ss.max_age later now ≡ false
    → loaded c ss later raw ≡ loaded c ss now raw
    → (load c ss later (jar raw (middleware c ss now raw os))).items
      ≡ (operate os (load c ss now raw)).0.items
unfolding load middleware
load-middleware c ss now later raw os h t returned o same =
    go (operate os s0) returned (operate-tracked os s0 t)
  where
    s0 : Session
    s0 = record { items = loaded c ss now raw; modified = false }

    go :
        (r : Session × Bool)
        → r.1 ≡ false
        → (r.0.modified ≡ true) ⊎ (r.0 ≡ s0)
        → loaded c ss later (jar raw (written c now r)) ≡ r.0.items
    go (s, true) e k = absurd cc
    go (s, false) e (inl m) = rw m (loaded-encode c ss now later s.items h o)
    go (s, false) e (inr i) =
        subst (λ x. loaded c ss later (jar raw (written c now (x, false))) ≡ x.items) (sym i) same
