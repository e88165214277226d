-- ===== src/Sse/Tests.antt =====
-- Events at concrete values.
use oxbrook.Prelude.{◌≡◌, refl, some, [], ◌∷◌, ◌++◌, Text, codes}
use oxbrook.Sse.{
  Event, event, to_event, format_event, name_lines, check_field, id_lines, terminate, retry_lines,
  data_lines,
}
use oxbrook.Sse.Lines.{split_lines}
use oxbrook.Sse.Stream.{decode}
use oxbrook.Sse.Single.{id_after}
use oxbrook.Sse.RoundTrip.{received, decode-format_event}

abbrev sample : Event
sample = record {
  payload = codes "a" ++ (13 ∷ 10 ∷ codes "b");
  name = some (codes "n");
  ident = some (codes "7");
  retry = some (codes "30");
}

abbrev sample_text : Text
sample_text =
    codes "event: n"
    ++ (10
        ∷ (codes "id: 7"
            ++ (10
                ∷ (codes "retry: 30"
                    ++ (10 ∷ (codes "data: a" ++ (10 ∷ (codes "data: b" ++ (10 ∷ 10 ∷ [])))))))))

decode-format_event_example :
    decode [] (sample_text ++ codes "data")
    ≡ received (to_event (event sample)) []
      ∷ decode (id_after (to_event (event sample)).ident []) (codes "data")
unfolding format_event to_event name_lines check_field id_lines terminate retry_lines data_lines
    split_lines
decode-format_event_example =
    decode-format_event (event sample) sample_text (codes "data") [] refl refl
