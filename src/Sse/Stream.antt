-- ===== src/Sse/Stream.antt =====
-- What a client reads from an event stream: the parsing rules of the format, written from its
-- specification and not from the code, as a description to hold python/oxbrook/_sse.py against.
use oxbrook.Prelude.{
  false, List, [], ◌∷◌, ◌++◌, ◌==◌, if◌then◌else◌, Text, codes, contains, text_eq,
}
use oxbrook.Sse.Lines.{split_from}

-- One dispatched event, with the last event id at that moment.
pub record Received : Type 0 where
  pub lines : List Text
  pub name : Text
  pub last_id : Text

-- The field name and the value of a line: what stands before the first colon, and after it less
-- one space.
abbrev drop_space : Text → Text
drop_space [] = []
drop_space (c ∷ s) = if c == 32 then s else c ∷ s

abbrev field_name : Text → Text
field_name [] = []
field_name (c ∷ s) = if c == 58 then [] else c ∷ field_name s

abbrev field_value : Text → Text
field_value [] = []
field_value (c ∷ s) = if c == 58 then drop_space s else field_value s

-- The buffers after a line that is not blank; a field of another name, and a comment, change none.
abbrev pub take_field : Text → Text → Received → Received
take_field name value s =
    if text_eq name (codes "data")
    then record s { lines = s.lines ++ value ∷ [] }
    else if text_eq name (codes "event")
    then record s { name = value }
    else if text_eq name (codes "id")
    then if contains 0 value then s else record s { last_id = value }
    else s

abbrev pub reset : Text → Received
reset last_id = record { lines = []; name = []; last_id = last_id }

abbrev pub feed : Text → Received → Received
feed [] s = reset s.last_id
feed (c ∷ line) s = take_field (field_name (c ∷ line)) (field_value (c ∷ line)) s

-- A blank line dispatches, unless there is no data.
abbrev pub dispatched : Text → Received → List Received
dispatched (_ ∷ _) s = []
dispatched [] s = elim s.lines [ [] ↦ [] | _ ∷ _ ↦ s ∷ [] ]

-- The last line of the list has not ended, and is left.
unfoldable pub decode_lines : Received → List Text → List Received
decode_lines s [] = []
decode_lines s (line ∷ []) = []
decode_lines s (line ∷ next ∷ lines) =
    dispatched line s ++ decode_lines (feed line s) (next ∷ lines)

-- The events of a stream, read from a given last event id.
unfoldable pub decode : Text → Text → List Received
decode last_id stream = decode_lines (reset last_id) (split_from false stream)
