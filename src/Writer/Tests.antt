-- ===== src/Writer/Tests.antt =====
-- The writer's theorem at a concrete history.
use apipi.Base.{ℕ, ◌≡◌, refl, List, [], ◌∷◌, none, some, true, false}
use apipi.Writer.Queue.{
  Entry, Event, sends, takes, wrote, times_out, stops, empties, started, run, step, enqueue, admit,
  take_next, write_done, cancel, drop_flying, fail_pending, futures, connection_closed,
}
use apipi.Writer.Order.{Ordered, run-started}

abbrev frame : ℕ → Entry
frame n = record { payload = n; done = some n }

abbrev history : List Event
history =
    sends (frame 1)
    ∷ takes
    ∷ sends (record { payload = 2; done = none })
    ∷ sends (frame 3)
    ∷ wrote true
    ∷ takes
    ∷ times_out
    ∷ sends (frame 4)
    ∷ stops
    ∷ sends (frame 5)
    ∷ empties
    ∷ []

run-started_example : Ordered (run (started 2) history).0 (run (started 2) history).1
run-started_example = run-started 2 history

-- The socket is gone for the first frame, and the writer is stopped with the second one waiting.
abbrev stopped : List Event
stopped =
    sends (frame 1) ∷ sends (frame 2) ∷ takes ∷ wrote false ∷ stops ∷ sends (frame 3) ∷ empties ∷ []

told_test :
    let w = (run (started 2) stopped).0 in
    (w.succeeded ≡ 1 ∷ []) × (w.failed ≡ (2, connection_closed) ∷ []) × (w.inline ≡ frame 3 ∷ [])
unfolding run started step enqueue admit take_next write_done cancel drop_flying fail_pending
    futures
told_test = (refl, refl, refl)
