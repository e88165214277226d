-- ===== src/Sse.antt =====
-- Server-sent events, python/oxbrook/_sse.py: how one item becomes text of the event-stream format.
--
-- A text is a list of code points. The payload is taken after `_encode_data`, whose JSON encoder and
-- UTF-8 decoder are libraries; so is the decimal text of a `retry`, a parameter of the item.
use oxbrook.Prelude.{
  ℕ, Bool, true, false, ◌||◌, Option, none, some, List, [], ◌∷◌, ◌++◌, map, ◌==◌, if◌then◌else◌,
  Result, ok, raise, ◌>>=◌, ◌>>◌, require, not, value_error, Text, codes, contains,
}
mod Tests
pub mod Lines
pub mod Stream
pub mod Single
pub mod RoundTrip
use Lines.{split_lines, has_break}

pub record Event : Type 0 where
  pub payload : Text
  pub name : Option Text
  pub ident : Option Text
  -- the decimal digits of `int(retry)`
  pub retry : Option Text

-- What `format_event` is given: an `Event`, a `Message` with its stream id, or a plain value.
pub data Source : Type 0 where
  event : Event → Source
  message : Text → Text → Source
  plain : Text → Source

-- `_field`
unfoldable pub check_field : Text → Result Text
check_field value = do require (not (has_break value || contains 0 value)) value_error; ok value

unfoldable pub to_event : Source → Event
to_event (event e) = e
to_event (message ident payload) = record {
  payload = payload;
  name = none;
  ident = some ident;
  retry = none;
}
to_event (plain payload) = record { payload = payload; name = none; ident = none; retry = none }

-- `if name:` skips an empty name, `if ident is not None:` does not skip an empty id.
unfoldable pub name_lines : Option Text → Result (List Text)
name_lines none = ok []
name_lines (some []) = ok []
name_lines (some (c ∷ name)) = do
  value ← check_field (c ∷ name)
  ok ((codes "event: " ++ value) ∷ [])

unfoldable pub id_lines : Option Text → Result (List Text)
id_lines none = ok []
id_lines (some ident) = do value ← check_field ident; ok ((codes "id: " ++ value) ∷ [])

unfoldable pub retry_lines : Option Text → List Text
retry_lines none = []
retry_lines (some digits) = (codes "retry: " ++ digits) ∷ []

unfoldable pub data_lines : Text → List Text
data_lines payload = map (λ line. codes "data: " ++ line) (split_lines payload)

-- `"\n".join(lines) + "\n\n"`, where there is at least one line.
unfoldable pub terminate : List Text → Text
terminate [] = 10 ∷ []
terminate (line ∷ lines) = line ++ (10 ∷ terminate lines)

unfoldable pub format_event : Source → Result Text
format_event item = do
  let e = to_event item
  named ← name_lines e.name
  numbered ← id_lines e.ident
  ok (terminate (named ++ (numbered ++ (retry_lines e.retry ++ data_lines e.payload))))
