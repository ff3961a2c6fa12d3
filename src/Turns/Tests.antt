-- ===== src/Turns/Tests.antt =====
-- The theorems about turns at concrete envelopes.
use apipi.Base.{
  ℕ, ◌≡◌, ◌≤◌, refl, String, List, [], ◌∷◌, Option, none, some, inl, inr, Bool-cases, ◌==◌,
  if◌then◌else◌,
}
use apipi.Base.Dict
use apipi.Ingest.Batch.{
  Item, Row, Verdict, applied, Db, turn_mismatch, is_leased, is_deferred, flush_batch, ingest_items,
  ingest_item, advance, is_lease_free, ingest_leased, settle, judge, note_ack, ack_of, note_stopped,
}
use apipi.Ingest.Once.{flushes}
use apipi.Turns.Store.{
  Store, SessionEvent, in_progress, get_running_turn, get_latest_turn, is_running, get_session_turn,
  get_turn, get_item, create_turn, update_turn,
}
use apipi.Turns.Validate.{
  RawId, absent, is_id, Envelope, validate, validate_turns, check_turn, check_started, check_latest,
  check_item_added, check_session_status, envelope_turn_id,
}
use apipi.Turns.Apply.{
  apply, apply_rest, apply_turn_status, start_turn, end_turn, apply_usage, apply_item_added,
  create_item, with_other,
}
use apipi.Turns.Running.{TurnsOk, running_count}
use apipi.Turns.Flush.{validate_item, apply_item, flushes-TurnsOk}
use apipi.Turns.Cache.{
  opened, read_running, wrote, empty, running_id, after_apply, validate_cached, validate_cached_eq,
}

abbrev no_other : ℕ → Row → Envelope → Verdict (ℕ × List SessionEvent)
no_other r row e = applied (r, [])

abbrev envelope : String → Option String → RawId → Envelope
envelope kind status turn = record {
  session_id = 1;
  kind = kind;
  raw_size = 10;
  turn_id = none;
  payload_turn = turn;
  data_turn = absent;
  status = status;
  inner = none;
  required_actions = none;
  item_id = is_id 30;
  item_type = none;
  content = none;
  request_id = absent;
  upload_id = absent;
  size = none;
  usage = 5;
  message = none;
  code = none;
}

-- The payload of an item is the number of its turn; the sequence number says what it is about.
abbrev envelope_of : Item → Envelope
envelope_of i =
    envelope i.kind (if i.seq == 1 then some "started" else some "completed") (is_id i.payload)

abbrev queued : String → ℕ → ℕ → Item
queued kind seq turn = record {
  session_id = 1;
  seq = seq;
  kind = kind;
  raw_size = 10;
  payload = turn;
}

abbrev db : Db (Store ℕ)
db = record {
  rows = (1, record { worker_id = some 9; lease_id = some 4; worker_seq = 0 }) ∷ [];
  ledger = [];
  content = record { turns = []; items = []; events = []; sessions = []; other = 0 };
}

abbrev row : Row
row = record { worker_id = some 9; lease_id = some 4; worker_seq = 0 }

abbrev batches : List (ℕ × List Item)
batches =
    (9, queued "turn.status" 1 20 ∷ queued "item.added" 2 20 ∷ queued "turn.status" 3 20 ∷ [])
    ∷ (9, queued "usage" 4 20 ∷ [])
    ∷ []

-- A turn that starts and ends, in two batches.
two_batches :
    (flushes
      (validate_item no_other envelope_of)
      (apply_item no_other envelope_of)
      db
      batches).content.turns
    ≡ record { id = 20; session_id = 1; status = "completed"; usage = some 5 } ∷ []
unfolding flushes flush_batch ingest_items ingest_item Dict.get Dict.put advance is_lease_free
    ingest_leased settle judge note_ack ack_of note_stopped validate_item apply_item validate
    validate_turns is_leased is_deferred check_turn check_started check_latest check_item_added
    check_session_status envelope_turn_id get_running_turn get_latest_turn is_running apply
    apply_rest apply_turn_status start_turn end_turn apply_usage apply_item_added create_item
    with_other get_session_turn get_turn get_item create_turn update_turn
two_batches = refl

abbrev one_runs : Store ℕ
one_runs = record db.content {
  turns = record { id = 20; session_id = 1; status = in_progress; usage = none } ∷ [];
}

ended :
    apply no_other one_runs row (envelope "turn.status" (some "completed") (is_id 20))
    ≡ applied (record one_runs {
      turns = record { id = 20; session_id = 1; status = "completed"; usage = none } ∷ [];
    })
unfolding apply apply_turn_status end_turn get_session_turn get_turn update_turn
ended = refl

flushes-TurnsOk_example :
    let turns =
      (flushes
        (validate_item no_other envelope_of)
        (apply_item no_other envelope_of)
        db
        batches).content.turns in
    TurnsOk turns × ((s : ℕ) → running_count turns s ≤ 1)
flushes-TurnsOk_example =
    flushes-TurnsOk no_other envelope_of db batches
      (λ i. (
        refl,
        (inl refl, elim (Bool-cases (i.seq == 1)) [ inl e ↦ rw e refl | inr e ↦ rw e refl ]),
      ))
      tt

-- A running turn and an envelope that names it in front and another turn in its payload.
abbrev two_names : Envelope
two_names = record (envelope "turn.status" (some "started") (is_id 21)) { turn_id = some 20 }

-- Validation takes the name in front, so the second turn starts beside the first.
two_run :
    (validate 9 one_runs.turns row two_names ≡ none)
    × (apply no_other one_runs row two_names
        ≡ applied (record one_runs {
          turns =
              record { id = 21; session_id = 1; status = in_progress; usage = none }
              ∷ one_runs.turns;
        }))
unfolding validate validate_turns is_leased is_deferred check_turn check_started envelope_turn_id
    get_running_turn is_running apply apply_turn_status start_turn get_session_turn get_turn
    create_turn
two_run = (refl, refl)

-- A second turn that is named once is refused.
second_refused :
    validate 9 one_runs.turns row (envelope "turn.status" (some "started") (is_id 21))
    ≡ some turn_mismatch
unfolding validate validate_turns is_leased is_deferred check_turn check_started envelope_turn_id
    get_running_turn is_running
second_refused = refl

validate_cached_eq_example :
    let done = record one_runs {
      turns = record { id = 20; session_id = 1; status = "completed"; usage = none } ∷ [];
    } in
    let finish = envelope "turn.status" (some "completed") (is_id 20) in
    let next = envelope "turn.status" (some "started") (is_id 21) in
    let cache = after_apply (running_id one_runs.turns empty 1).1 finish in
    validate_cached 9 done.turns cache row next ≡ validate 9 done.turns row next
validate_cached_eq_example =
    let finish = envelope "turn.status" (some "completed") (is_id 20) in
    let next = envelope "turn.status" (some "started") (is_id 21) in
    let cache = running_id one_runs.turns empty 1 in
    let done = record one_runs {
      turns = record { id = 20; session_id = 1; status = "completed"; usage = none } ∷ [];
    } in
    validate_cached_eq no_other done (after_apply cache.1 finish) 9 row next (
      wrote one_runs done cache.1 row finish (read_running one_runs empty 1 (opened one_runs))
        ended)
