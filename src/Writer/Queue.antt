-- ===== src/Writer/Queue.antt =====
-- ConnectionWriter of src/apipi/workerhub/writer.py, from the start of its task. A frame is a number,
-- and so is the future of the caller that waits for it. What reaches the socket, what is dropped and
-- how the futures end are kept as lists.
use apipi.Base.{
  ℕ, Bool, true, false, List, [], ◌∷◌, ◌++◌, map, Option, none, some, leb, if◌then◌else◌, is_empty,
  length, Result, ok, err,
}

pub data WorkerSendError : Type 0 where
  connection_closed send_queue_full write_timeout : WorkerSendError
  write_failed : WorkerSendError

-- A frame of the queue; `done` is none for send_nowait.
pub record Entry : Type 0 where
  pub payload : ℕ
  pub done : Option ℕ

-- `has_task` says that `_task` is set, `running` that its _run has not returned. `passed` are the
-- frames whose _write returned, with whether the socket was connected and took them; `inline` those
-- that went to _send_inline; `succeeded` and `failed` the futures that _settle was called with. A
-- future whose caller was cancelled is done already, and _settle leaves it as it is.
pub record ConnectionWriter : Type 0 where
  pub limit : ℕ
  pub queue : List Entry
  pub flying : List Entry
  pub has_task : Bool
  pub running : Bool
  pub failure : Option WorkerSendError
  pub close_requested : Bool
  pub passed : List (Entry × Bool)
  pub lost : List Entry
  pub inline : List Entry
  pub succeeded : List ℕ
  pub failed : List (ℕ × WorkerSendError)

unfoldable pub started : ℕ → ConnectionWriter
started limit = record {
  limit = limit;
  queue = [];
  flying = [];
  has_task = true;
  running = true;
  failure = none;
  close_requested = false;
  passed = [];
  lost = [];
  inline = [];
  succeeded = [];
  failed = [];
}

-- The queue's answer, from the failure that was noted and whether the queue is full.
unfoldable pub admit :
    ConnectionWriter
    → Entry
    → Option WorkerSendError
    → Bool
    → ConnectionWriter × Result WorkerSendError Entry
admit w e (some _) full = (w, err connection_closed)
admit w e none true = (record w { close_requested = true }, err send_queue_full)
admit w e none false = (record w { queue = w.queue ++ e ∷ [] }, ok e)

-- _enqueue, behind send, submit and send_nowait
unfoldable pub enqueue : ConnectionWriter → Entry → ConnectionWriter × Result WorkerSendError Entry
enqueue w e = admit w e w.failure (leb w.limit (length w.queue))

-- The futures of the frames that have one: _settle does nothing for the others.
unfoldable pub futures : List Entry → List ℕ
futures [] = []
futures (e ∷ es) = let rest = futures es in elim e.done [ none ↦ rest | some f ↦ f ∷ rest ]

abbrev pub errors : WorkerSendError → List Entry → List (ℕ × WorkerSendError)
errors error es = map (λ f. (f, error)) (futures es)

-- _settle of the frame in flight with an error, where _run returns.
unfoldable pub drop_flying : ConnectionWriter → WorkerSendError → ConnectionWriter
drop_flying w error = record w {
  flying = [];
  running = false;
  lost = w.lost ++ w.flying;
  failed = w.failed ++ errors error w.flying;
}

-- _fail_pending
unfoldable pub fail_pending : ConnectionWriter → WorkerSendError → ConnectionWriter
fail_pending w error = record w {
  queue = [];
  lost = w.lost ++ w.queue;
  failed = w.failed ++ errors error w.queue;
}

-- The calls: `sends` is send, or send_nowait where the frame has no future, and `submits` is submit.
-- The task takes a frame; its _write returns, on a connected socket or not, times out or fails.
-- `stops` and `empties` are stop before and behind its wait.
pub data Event : Type 0 where
  sends submits : Entry → Event
  wrote : Bool → Event
  takes times_out fails stops empties : Event

abbrev pub error_of : Option WorkerSendError → WorkerSendError
error_of none = connection_closed
error_of (some e) = e

unfoldable pub take_next : ConnectionWriter → ConnectionWriter
take_next w = elim w.flying [
  | _ ∷ _ ↦ w
  | [] ↦ elim w.queue [ [] ↦ w | e ∷ es ↦ record w { queue = es; flying = e ∷ [] } ]
]

unfoldable pub write_done : ConnectionWriter → Bool → ConnectionWriter
write_done w connected = record w {
  flying = [];
  passed = w.passed ++ map (λ e. (e, connected)) w.flying;
  succeeded = w.succeeded ++ futures w.flying;
}

unfoldable pub write_stopped : ConnectionWriter → WorkerSendError → Bool → ConnectionWriter
write_stopped w error close =
    fail_pending (drop_flying (record w { failure = some error; close_requested = close }) error)
      error

-- The first half of stop: the task is cancelled, where it still runs.
unfoldable pub cancel : ConnectionWriter → ConnectionWriter
cancel w =
    let w' = record w { has_task = false } in
    if w.running then drop_flying w' connection_closed else w'

-- Without a task send and send_nowait write inline; submit still queues.
unfoldable pub step : ConnectionWriter → Event → ConnectionWriter
step w (sends e) = if w.has_task then (enqueue w e).0 else record w { inline = w.inline ++ e ∷ [] }
step w (submits e) = (enqueue w e).0
step w takes = if w.running then take_next w else w
step w (wrote connected) = if w.running then write_done w connected else w
step w times_out =
    if w.running then if is_empty w.flying then w else write_stopped w write_timeout true else w
step w fails =
    if w.running
    then if is_empty w.flying then w else write_stopped w write_failed w.close_requested
    else w
step w stops = cancel w
step w empties = if w.has_task then w else fail_pending w (error_of w.failure)

abbrev pub queued : Result WorkerSendError Entry → List Entry
queued (ok e) = e ∷ []
queued (err _) = []

-- The frames that were queued, in the order of their calls.
unfoldable pub accepted_by : ConnectionWriter → Event → List Entry
accepted_by w (sends e) = if w.has_task then queued (enqueue w e).1 else []
accepted_by w (submits e) = queued (enqueue w e).1
accepted_by w _ = []

unfoldable pub run : ConnectionWriter → List Event → ConnectionWriter × List Entry
run w [] = (w, [])
run w (v ∷ vs) = let (w', rest) = run (step w v) vs in (w', accepted_by w v ++ rest)
