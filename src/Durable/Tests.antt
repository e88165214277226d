-- ===== src/Durable/Tests.antt =====
-- A consumer that recovers one message, and then reads new ones.
use oxbrook.Prelude.{ℕ, ◌≡◌, true, none, some, List, [], ◌∷◌, ◌++◌}
use oxbrook.Durable.{decoded, malformed, Message, Entry, Replies, create, fill, next}
use oxbrook.Durable.Delivery.{Call, nexts, closes, run, run-handed}

abbrev message : ℕ → Message
message id = record { id = id; payload = 7 }

abbrev entry : ℕ → Entry
entry id = record { id = id; fields = some (decoded 7) }

abbrev deleted : Entry
deleted = record { id = 2; fields = none }

abbrev recovered : Replies
recovered = record { pending = (entry 1 ∷ deleted ∷ []) ∷ []; claimed = []; fresh = [] }

abbrev live_again : Replies
live_again = record { pending = []; claimed = deleted ∷ []; fresh = (entry 3 ∷ entry 4 ∷ []) ∷ [] }

-- The model refuses the second of three.
abbrev broken : Replies
broken = record {
  pending = [];
  claimed = [];
  fresh = (entry 5 ∷ record { id = 6; fields = some malformed } ∷ entry 7 ∷ []) ∷ [];
}

abbrev calls : List Call
calls =
    nexts (recovered ∷ [])
    ∷ nexts (live_again ∷ [])
    ∷ nexts []
    ∷ nexts (broken ∷ [])
    ∷ nexts []
    ∷ closes
    ∷ []

run-handed_example :
    (message 1 ∷ message 3 ∷ message 4 ∷ message 5 ∷ []) ++ (run calls (create true)).buffer
    ≡ message 1 ∷ message 3 ∷ message 4 ∷ message 5 ∷ []
unfolding create next fill
run-handed_example = run-handed calls (create true)
