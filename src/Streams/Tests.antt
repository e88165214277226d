-- ===== src/Streams/Tests.antt =====
-- Runs of the streams at concrete values.
use oxbrook.Prelude.{
  ℕ, ◌≡◌, refl, true, false, none, some, List, [], ◌∷◌, ◌++◌, length, ok, inl, inr, map, ◌≢◌, arith,
  ◌+◌,
}
use oxbrook.Streams.Position.{Position}
use oxbrook.Streams.Subscription.{
  Subscription, drop_oldest, drop_newest, block, bare, init, absent, past, try_offer,
}
use oxbrook.Streams.Reader.{replay_round, read_round, read_loop, next, exhausted, again}
use oxbrook.Streams.Topic.{Topic, emit_nowait, emit_local, fan_each, counted}
use oxbrook.Streams.FanOut.{once, Accounts, fan_each-emit_local, emit_nowait-Accounts}
use oxbrook.Streams.Delivery.{puts, puts-drop_oldest, puts-drop_newest}
use oxbrook.Streams.Invariant.{IsValid, init-IsValid}
use oxbrook.Streams.Order.{read_loop_total}
use oxbrook.Streams.Runs.{
  Call, offers, awaits_room, reads, closes, step, run, handed, Rising, run-IsValid, handed-Rising,
}
use oxbrook.Streams.Log.{newer}
use oxbrook.Streams.Resume.Invariant.{
  System, start, asked, answered, after_read, grow, Step, positions, announces, asks, answers,
  resumes, publishes, delivers,
}
use oxbrook.Streams.Resume.Once.{Reach, here, Reach-once, Reach-complete}

abbrev at : ℕ → Position
at n = record { ms = n; seq = 0 }

-- A subscriber resumes from id 0 of a stream with one entry, replays it, finds it trimmed and
-- catches up, and is given a second entry live.
abbrev entry : ℕ → Position × ℕ
entry n = (at n, n)

abbrev started : System ℕ
started = start 4 drop_oldest (at 0) (entry 1 ∷ [])

abbrev positioned : System ℕ
positioned = record started { tail = some [] }

abbrev announced : System ℕ
announced = record positioned { live = true }

abbrev asked_once : System ℕ
asked_once = record announced { request = asked true }

abbrev answered_once : System ℕ
answered_once = record asked_once { request = answered true (entry 1 ∷ []) }

abbrev replayed : System ℕ
replayed = after_read answered_once (replay_round true (entry 1 ∷ []) answered_once.sub)

abbrev asked_twice : System ℕ
asked_twice = record replayed { request = asked true }

abbrev answered_twice : System ℕ
answered_twice = record asked_twice { request = answered true [] }

abbrev caught : System ℕ
caught = after_read answered_twice (replay_round true [] answered_twice.sub)

abbrev published : System ℕ
published = record caught { log = caught.log ++ entry 2 ∷ []; tail = grow caught.tail (entry 2) }

abbrev delivered : System ℕ
delivered = record published { tail = some []; sub = (try_offer 2 (some (at 2)) published.sub).0 }

abbrev finished : System ℕ
finished = after_read delivered (read_round 0 delivered.sub)

reach_replayed : Reach started replayed
unfolding start init replay_round
reach_replayed =
    Reach.next
      (Reach.next
        (Reach.next
          (Reach.next (Reach.next here (positions started refl)) (announces positioned [] refl))
          (asks announced refl refl refl))
        (answers asked_once true (at 0) (entry 1 ∷ []) [] [] (entry 1 ∷ []) refl refl refl refl refl
          (inl tt)))
      (resumes answered_once true (entry 1 ∷ []) refl)

reach_delivered : Reach started delivered
unfolding start init replay_round try_offer
reach_delivered =
    Reach.next
      (Reach.next
        (Reach.next
          (Reach.next (Reach.next reach_replayed (asks replayed refl refl refl)) (
            answers asked_twice true (at 1) [] [] (entry 1 ∷ []) [] refl refl refl refl refl
              (inr refl)))
          (resumes answered_twice true [] refl))
        (publishes caught (entry 2) (tt, (refl, tt))))
      (delivers published (at 2) 2 [] refl (omega arith))

reach_finished : Reach started finished
unfolding start init replay_round read_round try_offer
reach_finished = Reach.next reach_delivered (Step.reads delivered 0 refl refl)

Reach-once_example :
    (p : Position) × (delivered.sub.after ≡ some p)
    × (newer (at 0) delivered.log ≡ delivered.out ++ newer p delivered.log)
unfolding start init
Reach-once_example = Reach-once 4 drop_oldest (at 0) (entry 1 ∷ []) (tt, tt) reach_delivered

Reach-complete_example : finished.out ≡ newer (at 0) finished.log
unfolding start init replay_round read_round try_offer
Reach-complete_example =
    Reach-complete 4 drop_oldest (at 0) (entry 1 ∷ []) (tt, tt) reach_finished refl refl refl

abbrev plain_sub : Subscription ℕ
plain_sub = init 2 drop_oldest absent

abbrev newest_sub : Subscription ℕ
newest_sub = init 2 drop_newest absent

abbrev resumed_sub : Subscription ℕ
resumed_sub = init 2 drop_oldest (past (at 0))

fan_each-emit_local_example :
    ((fan_each 7 (at 3) true (emit_local 7 ((1, plain_sub) ∷ (2, resumed_sub) ∷ [])).0).0
      ≡ map (once 7 (at 3)) ((1, plain_sub) ∷ (2, resumed_sub) ∷ []))
    × ((emit_local 7 ((1, plain_sub) ∷ (2, resumed_sub) ∷ [])).1 ≡ ok (counted 2))
unfolding init
fan_each-emit_local_example =
    fan_each-emit_local 7 (at 3) ((1, plain_sub) ∷ (2, resumed_sub) ∷ [])
      ((refl, omega arith), ((refl, omega arith), tt))

abbrev calls : List (Call ℕ)
calls = offers 1 none ∷ offers 2 none ∷ awaits_room 5 3 ∷ reads 4 6 true [] ∷ closes ∷ []

run-IsValid_example : IsValid (run calls (init 2 block absent))
run-IsValid_example =
    run-IsValid calls (init 2 block absent) (init-IsValid 2 block absent (omega arith))

abbrev resumed_calls : List (Call ℕ)
resumed_calls = reads 4 6 true (entry 1 ∷ []) ∷ reads 4 7 true [] ∷ []

handed-Rising_example : Rising (some (at 0)) (handed resumed_calls resumed_sub)
unfolding init step next replay_round
handed-Rising_example =
    handed-Rising resumed_calls resumed_sub
      (record { resumable = refl; ascends = tt; over = inl refl }) ((refl, tt), (tt, tt))

puts-drop_oldest_example :
    ((puts (bare 1 ∷ bare 2 ∷ bare 3 ∷ []) plain_sub).buffer ≡ bare 2 ∷ bare 3 ∷ [])
    × ((puts (bare 1 ∷ bare 2 ∷ bare 3 ∷ []) plain_sub).dropped
          + length (puts (bare 1 ∷ bare 2 ∷ bare 3 ∷ []) plain_sub).buffer
        ≡ 3)
unfolding init
puts-drop_oldest_example =
    puts-drop_oldest (bare 1 ∷ bare 2 ∷ bare 3 ∷ []) plain_sub refl refl (omega arith) (omega arith)

puts-drop_newest_example :
    ((puts (bare 1 ∷ bare 2 ∷ bare 3 ∷ []) newest_sub).buffer ≡ bare 1 ∷ bare 2 ∷ [])
    × ((puts (bare 1 ∷ bare 2 ∷ bare 3 ∷ []) newest_sub).dropped
          + length (puts (bare 1 ∷ bare 2 ∷ bare 3 ∷ []) newest_sub).buffer
        ≡ 3)
unfolding init
puts-drop_newest_example =
    puts-drop_newest (bare 1 ∷ bare 2 ∷ bare 3 ∷ []) newest_sub refl refl (omega arith)

read_loop_total_example :
    ((read_loop 1 6 resumed_sub).1 ≢ ok exhausted) × ((read_loop 1 6 resumed_sub).1 ≢ ok again)
unfolding init
read_loop_total_example = read_loop_total 1 6 resumed_sub (omega arith)

abbrev topic : Topic ℕ
topic = record {
  maxsize = 2;
  policy = drop_oldest;
  durable = false;
  subs = (1, plain_sub) ∷ (2, init 1 block absent) ∷ [];
  tail = false;
  live = false;
}

emit_nowait-Accounts_example :
    ((emit_nowait 7 topic).1 ≡ ok 2) × Accounts 7 topic.subs (emit_nowait 7 topic).0.subs
unfolding init
emit_nowait-Accounts_example =
    emit_nowait-Accounts 7 topic refl
      ((refl, refl, (λ e. cc), omega arith), ((refl, refl, (λ e. cc), omega arith), tt))
