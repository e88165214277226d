-- ===== src/Sse/RoundTrip.antt =====
-- `format_event` (python/oxbrook/_sse.py) and a reader of the stream: the round trip.
use oxbrook.Prelude.{
  ◌≡◌, refl, ap, ◌∙◌, Bool, false, List, [], ◌∷◌, ◌++◌, ◌==◌, ok, Text, arith, inl, inr, Bool-cases,
  Result-cases,
}
use oxbrook.Sse.{
  Source, Event, to_event, name_lines, id_lines, retry_lines, data_lines, terminate, format_event,
}
use oxbrook.Sse.Lines.{split_from, split_lines}
use oxbrook.Sse.Stream.{Received, reset, dispatched, decode_lines, decode}
use oxbrook.Sse.Single.{
  name_of, id_after, RetryFits, Gives, Gives-append, feed_name, feed_id, feed_retry, feed_payload,
  terminate-split, decode_block,
}

split_from-some : (cr : Bool) (s : Text) → (l : Text) × (m : List Text) × (split_from cr s ≡ l ∷ m)
unfolding split_from
split_from-some cr [] = ([], [], refl)
split_from-some cr (c ∷ s) =
    let (l, m, e) = split_from-some (c == 13) s in
    elim (Bool-cases (c == 10)) [
      | inl lf ↦ elim (Bool-cases cr) [
        | inl on ↦ (l, m, rw (lf, on) e)
        | inr off ↦ ([], split_from (c == 13) s, rw (lf, off) refl)
      ]
      | inr other ↦ elim (Bool-cases (c == 13)) [
        | inl ret ↦ ([], split_from (c == 13) s, rw (other, ret) refl)
        | inr plain_char ↦ (c ∷ l, m, rw (other, plain_char) (rw (split_from-some false s).2 refl))
      ]
    ]

-- The event that a client has for an item.
abbrev pub received : Event → Text → Received
received e last_id = record {
  lines = split_lines e.payload;
  name = name_of e.name;
  last_id = id_after e.ident last_id;
}

dispatched-received : (e : Event) (i : Text) → dispatched [] (received e i) ≡ received e i ∷ []
unfolding split_lines
dispatched-received e i = let (l, m, h) = split_from-some false e.payload in rw h refl

decode_event :
    (lines : List Text) (rest : Text) (i : Text) (e : Event)
    → Gives (reset i) (received e i) lines
    → decode i (terminate lines ++ rest) ≡ received e i ∷ decode (id_after e.ident i) rest
unfolding decode
decode_event lines rest i e (fed, full, whole) =
    let (n, more, next) = split_from-some false rest in
    ap (decode_lines (reset i)) (terminate-split lines rest whole)
    ∙ (rw next
        (decode_block lines n more (reset i) full ∙ (rw fed (rw (dispatched-received e i) refl))))

format_event-lines :
    (item : Source) (text : Text)
    → format_event item ≡ ok text
    → (named : List Text) × (numbered : List Text) × (name_lines (to_event item).name ≡ ok named)
      × (id_lines (to_event item).ident ≡ ok numbered)
      × (text
          ≡ terminate (
              named
              ++ (numbered
                  ++ (retry_lines (to_event item).retry ++ data_lines (to_event item).payload))))
unfolding format_event
format_event-lines item text h = elim (Result-cases (name_lines (to_event item).name)) [
  | inr (x, e) ↦ absurd (ground arith)
  | inl (named, e) ↦ elim (Result-cases (id_lines (to_event item).ident)) [
    | inr (x, f) ↦ absurd (ground arith)
    | inl (numbered, f) ↦ (named, numbered, e, f, ground arith)
  ]
]

-- Whatever an item holds, the text that format_event gives for it is read as exactly one event:
-- its data lines are those of the payload, its name and id those of the item (an id that the item
-- lacks is the one before), and what follows it in the stream is read as if it stood alone. The
-- retry hint is the text of a number, without line breaks.
pub decode-format_event :
    (item : Source) (text rest last_id : Text)
    → RetryFits (to_event item).retry
    → format_event item ≡ ok text
    → decode last_id (text ++ rest)
      ≡ received (to_event item) last_id ∷ decode (id_after (to_event item).ident last_id) rest
decode-format_event item text rest i fits h =
    let e = to_event item in
    let (named, numbered, a, b, same) = format_event-lines item text h in
    let named_state : Received = record { lines = []; name = name_of e.name; last_id = i } in
    let state : Received = record named_state { last_id = id_after e.ident i } in
    ap (λ t. decode i (t ++ rest)) same
    ∙ decode_event _ rest i e (
        Gives-append (reset i) named_state (received e i) named _ (feed_name e.name named i a) (
          Gives-append named_state state (received e i) numbered _
            (feed_id e.ident numbered named_state b)
            (Gives-append state state (received e i) _ _ (feed_retry e.retry state fits)
              (feed_payload e.payload state))))
