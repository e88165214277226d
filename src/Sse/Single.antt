-- ===== src/Sse/Single.antt =====
-- `format_event` (python/oxbrook/_sse.py) against the stream format: what is sent as one item is
-- read as one event.
use oxbrook.Prelude.{
  ◌≡◌, refl, ap, sym, ◌∙◌, false, Option, none, some, List, [], ◌∷◌, ◌++◌, map, ok, Text, codes,
  contains, arith, All, All-append, append_assoc, append-nil, inl, inr, Result-cases, ok-injective,
  subst,
}
use oxbrook.Sse.{check_field, name_lines, id_lines, retry_lines, data_lines, terminate}
use oxbrook.Sse.Lines.{NoBreak, split_from, split_lines, split_lines-NoBreak, split_from-line}
use oxbrook.Sse.Stream.{Received, feed, reset, dispatched, decode_lines}

-- The name and the last event id that a client has for an item.
abbrev pub name_of : Option Text → Text
name_of none = []
name_of (some name) = name

abbrev pub id_after : Option Text → Text → Text
id_after none last_id = last_id
id_after (some ident) last_id = ident

abbrev pub RetryFits : Option Text → Type 0
RetryFits none = Unit
RetryFits (some digits) = NoBreak digits

pub terminate-split :
    (lines : List Text) (rest : Text)
    → All NoBreak lines
    → split_from false (terminate lines ++ rest) ≡ lines ++ ([] ∷ split_from false rest)
unfolding terminate
terminate-split [] rest h = split_from-line [] rest refl
terminate-split (line ∷ lines) rest (k, h) =
    ap (split_from false) (append_assoc line (10 ∷ terminate lines) rest)
    ∙ split_from-line line (terminate lines ++ rest) k
    ∙ ap (◌∷◌ line) (terminate-split lines rest h)

abbrev pub NotBlank : Text → Type 0
NotBlank [] = ⊥
NotBlank (_ ∷ _) = Unit

pub feed_all : List Text → Received → Received
feed_all [] s = s
feed_all (line ∷ lines) s = feed_all lines (feed line s)

feed_all-append :
    (ls ms : List Text) (s : Received) → feed_all (ls ++ ms) s ≡ feed_all ms (feed_all ls s)
unfolding feed_all
feed_all-append [] ms s = refl
feed_all-append (l ∷ ls) ms s = feed_all-append ls ms (feed l s)

pub decode_block :
    (lines : List Text) (next : Text) (more : List Text) (s : Received)
    → All NotBlank lines
    → decode_lines s (lines ++ ([] ∷ next ∷ more))
      ≡ dispatched [] (feed_all lines s)
        ++ decode_lines (reset (feed_all lines s).last_id) (next ∷ more)
unfolding decode_lines feed_all
decode_block [] next more s h = refl
decode_block ([] ∷ lines) next more s (k, h) = elim k [ ]
decode_block ((c ∷ line) ∷ []) next more s (k, h) = decode_block [] next more (feed (c ∷ line) s) h
decode_block ((c ∷ line) ∷ m ∷ lines) next more s (k, h) =
    decode_block (m ∷ lines) next more (feed (c ∷ line) s) h

feed_data :
    (ls : List Text) (s : Received)
    → feed_all (map (λ line. codes "data: " ++ line) ls) s ≡ record s { lines = s.lines ++ ls }
unfolding feed_all
feed_data [] s = ap (λ l. record s { lines = l }) (sym (append-nil s.lines))
feed_data (l ∷ ls) s =
    feed_data ls (record s { lines = s.lines ++ l ∷ [] })
    ∙ ap (λ k. record s { lines = k }) (append_assoc s.lines (l ∷ []) ls)

check_field-ok : (v w : Text) → check_field v ≡ ok w → (w ≡ v) × NoBreak v × (contains 0 v ≡ false)
unfolding check_field
check_field-ok v w h = ground arith

-- What lines do to the reader's buffers, and that they are lines.
abbrev pub Gives : Received → Received → List Text → Type 0
Gives s t lines = (feed_all lines s ≡ t) × All NotBlank lines × All NoBreak lines

pub feed_name :
    (name : Option Text) (lines : List Text) (i : Text)
    → name_lines name ≡ ok lines
    → Gives (reset i) (record { lines = []; name = name_of name; last_id = i }) lines
unfolding feed_all name_lines
feed_name none lines i h = subst (Gives _ _) (ok-injective [] lines h) (refl, tt, tt)
feed_name (some []) lines i h = subst (Gives _ _) (ok-injective [] lines h) (refl, tt, tt)
feed_name (some (c ∷ name)) lines i h = elim (Result-cases (check_field (c ∷ name))) [
  | inl (v, e) ↦
      let (same, plain_text, _) = check_field-ok (c ∷ name) v e in
      subst (Gives _ _) (ok-injective ((codes "event: " ++ (c ∷ name)) ∷ []) lines (ground arith))
        (refl, (tt, tt), (plain_text, tt))
  | inr (x, e) ↦ absurd (ground arith)
]

pub feed_id :
    (ident : Option Text) (lines : List Text) (s : Received)
    → id_lines ident ≡ ok lines
    → Gives s (record s { last_id = id_after ident s.last_id }) lines
unfolding feed_all id_lines
feed_id none lines s h = subst (Gives _ _) (ok-injective [] lines h) (refl, tt, tt)
feed_id (some ident) lines s h = elim (Result-cases (check_field ident)) [
  | inl (v, e) ↦
      let (same, plain_text, no_nul) = check_field-ok ident v e in
      subst (Gives _ _) (ok-injective ((codes "id: " ++ ident) ∷ []) lines (ground arith))
        (rw no_nul refl, (tt, tt), (plain_text, tt))
  | inr (x, e) ↦ absurd (ground arith)
]

pub feed_retry :
    (retry : Option Text) (s : Received) → RetryFits retry → Gives s s (retry_lines retry)
unfolding feed_all retry_lines
feed_retry none s h = (refl, tt, tt)
feed_retry (some digits) s h = (refl, (tt, tt), (h, tt))

labelled :
    (lines : List Text)
    → All NoBreak lines
    → All NotBlank (map (λ line. codes "data: " ++ line) lines)
      × All NoBreak (map (λ line. codes "data: " ++ line) lines)
labelled [] h = (tt, tt)
labelled (l ∷ ls) (k, h) = let (a, b) = labelled ls h in ((tt, a), (k, b))

pub feed_payload :
    (payload : Text) (s : Received)
    → Gives s (record s { lines = s.lines ++ split_lines payload }) (data_lines payload)
unfolding data_lines
feed_payload payload s =
    let (a, b) = labelled (split_lines payload) (split_lines-NoBreak payload) in
    (feed_data (split_lines payload) s, a, b)

pub Gives-append :
    (s t u : Received) (ls ms : List Text) → Gives s t ls → Gives t u ms → Gives s u (ls ++ ms)
Gives-append s t u ls ms (e, a, b) (f, c, d) = (
  feed_all-append ls ms s ∙ ap (feed_all ms) e ∙ f,
  All-append NotBlank ls ms a c,
  All-append NoBreak ls ms b d,
)
