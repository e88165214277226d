-- ===== src/Handling/Tests.antt =====
-- Exception mapping and middleware at concrete values.
use oxbrook.Prelude.{
  ℕ, ◌≡◌, refl, false, Option, none, some, List, [], ◌∷◌, All, subst, ◌==◌, Bool-cases, inl, inr,
}
use oxbrook.Handling.Exceptions.{
  Raised, Reply, Answer, reply, plain, answered, raised, Run, Handlers, find_in, guard,
}
use oxbrook.Handling.Middleware.{wrap}
use oxbrook.Handling.Compose.{Gate, around, compose}
use oxbrook.Handling.Mapped.{Mapped, Settles, Answers, IsAnswer, call_next-Mapped}
use oxbrook.Handling.Order.{
  Event, enter, leave, body, tracing, refusing, target, logs, compose-order, compose-refused,
}

-- `Exception` is 0, `HTTPError` 1, and the program's own classes are 2 and 3, a subclass of 2.

-- A request is a number; the world is a log.
abbrev forget : ℕ → List Event → List Event
forget request log = log

abbrev an_error : Raised → Run ℕ (List Event) (Answer ℕ)
an_error e request log = (log, answered (plain 500))

abbrev table : Handlers ℕ (List Event) ℕ
table = (1, an_error) ∷ []

abbrev failing : Run ℕ (List Event) (Answer ℕ)
failing request log = (log, raised (record { mro = 1 ∷ 0 ∷ []; detail = 0 }))

table-Settles : All Settles table
table-Settles = ((λ e request s. tt), tt)

abbrev AllAnswer : Option (Raised → Run ℕ (List Event) (Answer ℕ)) → Type 0
AllAnswer none = Unit
AllAnswer (some h) = (e : Raised) (request : ℕ) (s : List Event) → IsAnswer (h e request s).1

find_in-AllAnswer : (cs : List ℕ) → AllAnswer (find_in table cs)
unfolding find_in
find_in-AllAnswer [] = tt
find_in-AllAnswer (c ∷ cs) = elim (Bool-cases (c == 1)) [
  | inl e ↦ rw (e, find_in) (λ x request s. tt)
  | inr e ↦ rw (e, find_in) (find_in-AllAnswer cs)
]

table-Answers : Answers table
table-Answers e h a f request s = subst AllAnswer f (find_in-AllAnswer e.mro) e request s

call_next-Mapped_example :
    Mapped table (wrap (guard forget failing table) (tracing 3 ∷ []) (around forget table) 9 []).1
call_next-Mapped_example =
    call_next-Mapped forget table failing (tracing 3 ∷ []) table-Settles table-Answers 9 []

abbrev open_gate : Gate ℕ (List Event) ℕ
open_gate = record { wrapped = λ t. t; middleware = tracing 7; socket_middleware = tracing 7 }

abbrev ok_reply : Reply ℕ
ok_reply = record { value = 5; status = none; headers = [] }

abbrev unauthorized : Raised
unauthorized = record { mro = 1 ∷ 0 ∷ []; detail = 401 }

abbrev shut_gate : Gate ℕ (List Event) ℕ
shut_gate = record {
  wrapped = λ t. t;
  middleware = refusing unauthorized;
  socket_middleware = refusing unauthorized;
}

compose-order_example :
    compose forget
      (target (plain 5))
      (some open_gate)
      none
      (logs (1 ∷ []))
      (logs (2 ∷ []))
      false
      table
      false
      9
      []
    ≡ (
      enter 1 ∷ enter 7 ∷ enter 2 ∷ body ∷ leave 2 ∷ leave 7 ∷ leave 1 ∷ [],
      answered (reply ok_reply),
    )
compose-order_example =
    compose-order forget table (plain 5) open_gate 7 1 [] (2 ∷ []) none false false refl refl 9

compose-refused_example :
    compose forget failing
      (some shut_gate)
      none
      (logs (1 ∷ []))
      (logs (2 ∷ []))
      false
      table
      false
      9
      []
    ≡ (
      enter 1 ∷ leave 1 ∷ [],
      answered (reply (record { value = 500; status = none; headers = [] })),
    )
unfolding find_in
compose-refused_example =
    compose-refused forget table failing shut_gate unauthorized (plain 500) 1 [] (logs (2 ∷ []))
      none false false refl refl 9 (refl, an_error, refl, λ s. refl)
