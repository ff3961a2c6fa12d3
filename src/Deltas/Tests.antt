-- ===== src/Deltas/Tests.antt =====
-- The theorems about deltas at concrete inputs.
use apipi.Base.{
  ℕ, String, ◌==◌, if◌then◌else◌, ◌≡◌, ◌+◌, refl, true, List, [], ◌∷◌, ◌++◌, none, some, length,
  All, arith,
}
use apipi.Base.Dict
use apipi.Deltas.Split.{join, split, slices, Sized, split-join}
use apipi.Deltas.Relay.{
  Key, delta_text, Chunk, done, init, Step, submits, wakes, emits, attaches, run, step, attach,
  submit, add_text, same_key, wake, chunks, emit,
}
use apipi.Deltas.Order.{run-told}
use apipi.Deltas.Buffers.{told, pending, buffered, submitted}
use apipi.Deltas.Numbers.{Falling, numbers, run-Falling}
use apipi.Deltas.Hub.{
  DeltaLease, Hub, Conn, Delta, text_delta, Body, handle_delta, note_stored_events, done_turn_of,
}
use apipi.Deltas.Done.{Granted, handle_delta-Granted}
use apipi.Deltas.Ended.{Arrival, SilentUntil, note_stored_events-Silent}

abbrev turn : Key
turn = record { session_id = 1; turn_id = 20; kind = delta_text }

abbrev wire_size : ℕ → Chunk → ℕ
wire_size n c = 100 + length c.text

split-join_example :
    (join (split (104 ∷ 101 ∷ 108 ∷ 108 ∷ 111 ∷ []) 2) ≡ 104 ∷ 101 ∷ 108 ∷ 108 ∷ 111 ∷ [])
    × All (Sized 2) (split (104 ∷ 101 ∷ 108 ∷ 108 ∷ 111 ∷ []) 2)
split-join_example = split-join (104 ∷ 101 ∷ 108 ∷ 108 ∷ 111 ∷ []) 2 (omega arith) (omega arith)

split_test :
    split (104 ∷ 101 ∷ 108 ∷ 108 ∷ 111 ∷ []) 2
    ≡ (104 ∷ 101 ∷ []) ∷ (108 ∷ 108 ∷ []) ∷ (111 ∷ []) ∷ []
unfolding split slices
split_test = refl

-- Two fragments, a flush in two pieces, and a fragment that comes while it sends.
abbrev history : List Step
history =
    attaches
    ∷ submits turn (1 ∷ 2 ∷ [])
    ∷ submits turn (3 ∷ [])
    ∷ wakes
    ∷ emits true
    ∷ submits turn (4 ∷ [])
    ∷ emits true
    ∷ []

run-told_example :
    let (r, outs) = run wire_size 2 (init, []) history in
    told turn outs ++ (pending turn r.flush_task ++ buffered turn r.buffers)
    ≡ submitted turn history
run-told_example =
    run-told wire_size 2 turn history (omega arith) (tt, (tt, (tt, (tt, (tt, (tt, (tt, tt)))))))

run-Falling_example :
    let (r, outs) = run wire_size 2 (init, []) history in
    Falling (Dict.get_or r.seq 1 0) (numbers 1 outs)
run-Falling_example = run-Falling wire_size 2 1 history (tt, (tt, (tt, (tt, (tt, (tt, (tt, tt)))))))

-- The last fragment came while the flush was sending: the flush has ended, and the fragment stays in
-- the buffers until another one is submitted.
left_behind :
    let (r, outs) = run wire_size 2 (init, []) history in
    (r.flush_task ≡ done) × (r.buffers ≡ (turn, (4 ∷ []) ∷ []) ∷ []) × (numbers 1 outs ≡ 2 ∷ 1 ∷ [])
unfolding run step attach submit add_text same_key wake chunks split slices emit Dict.get Dict.put
left_behind = (refl, refl, refl)

abbrev text_of : ℕ → String
text_of n = if n == 20 then "t20" else "t19"

abbrev lease : DeltaLease
lease = record {
  worker_id = 9;
  lease_id = 4;
  tenant_id = 3;
  turns_done = "t19" ∷ [];
  refreshed = 1000;
}

abbrev hub : Hub
hub = record { delta_hits = []; delta_leases = (1, lease) ∷ [] }

abbrev conn : Conn
conn = record { worker_id = 9; leases = 4 ∷ 5 ∷ [] }

abbrev delta : Delta
delta = record { session_id = 1; kind = text_delta; payload = some (some 20, 104 ∷ 105 ∷ []) }

handle_delta-Granted_example :
    let (h', answer) = handle_delta text_of hub conn delta none 2000 in
    Granted text_of conn 1 h' answer
handle_delta-Granted_example = handle_delta-Granted text_of hub conn delta none 2000

abbrev completed : Body
completed = record { kind = "agent.session.turn.completed"; turn_id = some "t20" }

-- The delta twice, the second time when the lease has to be read again.
abbrev arrivals : List Arrival
arrivals =
    record { conn = conn; delta = delta; row = none; now = 2000 }
    ∷ record { conn = conn; delta = delta; row = none; now = 40000 }
    ∷ []

note_stored_events-Silent_example :
    SilentUntil text_of "t20" (note_stored_events hub 1 (completed ∷ [])) arrivals
unfolding Dict.get done_turn_of
note_stored_events-Silent_example =
    note_stored_events-Silent text_of hub 1 lease (completed ∷ []) arrivals "t20" refl (omega arith)
      refl (refl, (refl, tt))
