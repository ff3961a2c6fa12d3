-- ===== src/Commands/Tests.antt =====
-- The command theorems at concrete inputs.
use apipi.Base.{ℕ, ◌≡◌, refl, false, List, [], ◌∷◌, ◌++◌, some, arith, ok}
use apipi.Base.Dict
use apipi.Commands.Queue.{Wire, push, ack, find, for_lease, new_entry}
use apipi.Commands.Bounds.{Op, pushes, run, empty, QueueOk, queue-QueueOk}
use apipi.Commands.Acks.{without_id, ack-for_lease, push-for_lease}
use apipi.Commands.Dedupe.{
  init, duplicate, known, discard, remember, without_first, Step, arrives, fails, forgets, step,
  dispatched, told,
}
use apipi.Commands.Repeats.{dispatched_once}

abbrev start : ℕ → Wire
start c = record { id = c; op = "turn.start"; lease_id = 7; session_id = 3; payload = 0 }

abbrev two : List Op
two = pushes (start 1) (some 9) 10 ∷ pushes (start 2) (some 9) 11 ∷ []

queue-QueueOk_example : QueueOk (run empty two)
queue-QueueOk_example = queue-QueueOk two

ack-for_lease_example :
    ((ack (run empty two) 7 1).1 ≡ find 1 (for_lease (run empty two) 7))
    × (for_lease (ack (run empty two) 7 1).0 7 ≡ without_id 1 (for_lease (run empty two) 7))
ack-for_lease_example = ack-for_lease (run empty two) (queue-QueueOk two) 7 7 1

push-for_lease_example :
    (for_lease (push empty (start 1) (some 9) 10).0 7
      ≡ for_lease empty 7 ++ new_entry empty (start 1) (some 9) 10 ∷ [])
    × ((push empty (start 1) (some 9) 10).1 ≡ ok (new_entry empty (start 1) (some 9) 10))
unfolding empty for_lease Dict.get
push-for_lease_example = push-for_lease empty (start 1) (some 9) 10 7

-- Another command of the session fails, and another session is forgotten.
abbrev later : List Step
later = arrives 1 5 ∷ arrives 1 6 ∷ fails 1 6 ∷ forgets 2 ∷ []

dispatched_once_example : told 1 5 (dispatched (duplicate (init 4) 1 5).0 later) ≡ false
unfolding init duplicate known Dict.get Dict.put
dispatched_once_example = dispatched_once (init 4) 1 5 later refl (omega arith) refl

-- A command whose dispatch failed is dispatched again when it is sent again.
failed_again :
    dispatched (init 4) (arrives 1 5 ∷ fails 1 5 ∷ arrives 1 5 ∷ []) ≡ (1, 5) ∷ (1, 5) ∷ []
unfolding init duplicate known dispatched step discard remember without_first Dict.get Dict.put
failed_again = refl
