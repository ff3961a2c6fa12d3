-- ===== src/Turns/Validate.antt =====
-- envelope_turn_id and _validate of src/apipi/services/ingest.py.
use apipi.Base.{
  ℕ, Bool, true, false, not, ◌&&◌, ◌||◌, String, str_eq, List, [], ◌∷◌, Option, none, some, any,
  ◌==◌, if◌then◌else◌, is_empty,
}
use apipi.Outbox.State.{max_message_bytes}
use apipi.Ingest.Batch.{
  Reason, Row, is_leased, is_deferred, not_leased, oversize, not_implemented, invalid_envelope,
  unknown_event, live_event, turn_mismatch,
}
use apipi.Base.{ltb}
use apipi.Turns.Store.{Json, Turn, get_running_turn, get_latest_turn}

-- What a JSON field is for code that wants a UUID in it: no text, an empty text, a text that is no
-- UUID, or a UUID.
pub data RawId : Type 0 where
  absent blank malformed : RawId
  is_id : ℕ → RawId

-- An envelope as the API parsed it, with the payload's fields that the code reads: absent where the
-- field is missing or of another type.
pub record Envelope : Type 0 where
  pub session_id : ℕ
  pub kind : String
  pub raw_size : ℕ
  pub turn_id : Option ℕ
  pub payload_turn : RawId
  pub data_turn : RawId
  pub status : Option String
  pub inner : Option String
  pub required_actions : Option (List ℕ)
  pub item_id : RawId
  pub item_type : Option String
  pub content : Option Json
  pub request_id : RawId
  pub upload_id : RawId
  pub size : Option ℕ
  pub usage : ℕ
  pub message : Option String
  pub code : Option String

abbrev pub id_of : RawId → Option ℕ
id_of (is_id n) = some n
id_of _ = none

abbrev pub data_turn_id : Envelope → Option ℕ
data_turn_id e = if str_eq e.kind "event" then id_of e.data_turn else none

abbrev pub payload_turn_id : Envelope → RawId → Option ℕ
payload_turn_id e (is_id n) = some n
payload_turn_id e malformed = none
payload_turn_id e absent = data_turn_id e
payload_turn_id e blank = data_turn_id e

unfoldable pub envelope_turn_id : Envelope → Option ℕ
envelope_turn_id e = elim e.turn_id [ some t ↦ some t | none ↦ payload_turn_id e e.payload_turn ]

-- PUBLIC_EVENT_TYPES and LIVE_EVENT_TYPES of src/apipi/protocol/events.py
abbrev pub public_event_types : List String
public_event_types =
    "agent.session.created" ∷ "agent.session.in_progress" ∷ "agent.session.idle"
    ∷ "agent.session.requires_action" ∷ "agent.session.failed" ∷ "agent.session.error"
    ∷ "agent.session.turn.created" ∷ "agent.session.turn.in_progress"
    ∷ "agent.session.turn.completed" ∷ "agent.session.turn.failed" ∷ "agent.session.turn.cancelled"
    ∷ "agent.session.turn.output_text.delta" ∷ "agent.session.turn.output_text.done"
    ∷ "agent.session.turn.item.added" ∷ "agent.session.turn.item.done"
    ∷ "agent.session.turn.item.nested" ∷ "agent.session.turn.thinking.started"
    ∷ "agent.session.turn.thinking.completed" ∷ "agent.session.turn.compaction.started"
    ∷ "agent.session.turn.compaction.completed" ∷ "agent.session.turn.retrying"
    ∷ "agent.session.turn.retry.completed" ∷ "agent.session.environment.pending"
    ∷ "agent.session.environment.connected" ∷ "agent.session.environment.disconnected"
    ∷ "agent.session.environment.failed" ∷ []

abbrev pub one_of : String → List String → Bool
one_of s ss = any (str_eq s) ss

unfoldable pub is_public : String → Bool
is_public s = one_of s public_event_types

unfoldable pub is_live : String → Bool
is_live s = str_eq s "agent.session.turn.output_text.delta"

abbrev pub same_id : Option ℕ → Option ℕ → Bool
same_id none none = true
same_id (some a) (some b) = a == b
same_id _ _ = false

abbrev pub turn_id_of : Option Turn → Option ℕ
turn_id_of none = none
turn_id_of (some r) = some r.id

abbrev pub has_status : Envelope → String → Bool
has_status e s = elim e.status [ none ↦ false | some t ↦ str_eq t s ]

-- The payload of a presign: a UUID and a positive size.
unfoldable pub check_presign : Envelope → Option Reason
check_presign e = elim (id_of e.request_id) [
  | none ↦ some invalid_envelope
  | some _ ↦ elim e.size [
    | none ↦ some invalid_envelope
    | some n ↦ if n == 0 then some invalid_envelope else none
  ]
]

unfoldable pub check_upload : Envelope → Option Reason
check_upload e = elim (id_of e.upload_id) [ none ↦ some invalid_envelope | some _ ↦ none ]

unfoldable pub check_event : Envelope → Option Reason
check_event e = elim e.inner [
  | none ↦ some unknown_event
  | some inner ↦
      if not (is_public inner)
      then some unknown_event
      else if is_live inner
      then some live_event
      else none
]

-- `turn.status` with status "started": a turn may start if none runs, or it runs already.
unfoldable pub check_started : Option ℕ → Option ℕ → Option Reason
check_started none running = some invalid_envelope
check_started (some t) none = none
check_started (some t) (some r) = if r == t then none else some turn_mismatch

unfoldable pub check_item_added : Option ℕ → Option ℕ → Option Reason
check_item_added turn none = some turn_mismatch
check_item_added turn (some r) = if same_id (some r) turn then none else some turn_mismatch

-- A turn that is named must be the newest one.
unfoldable pub check_latest : Option ℕ → Option ℕ → Option Reason
check_latest none latest = none
check_latest (some t) none = some turn_mismatch
check_latest (some t) (some l) = if l == t then none else some turn_mismatch

unfoldable pub check_session_status : Envelope → Option Reason
check_session_status e = if not (str_eq e.kind "session.status") then none else elim e.status [
  | some _ ↦ none
  | none ↦ elim e.required_actions [
    | none ↦ some invalid_envelope
    | some actions ↦ if is_empty actions then some invalid_envelope else none
  ]
]

abbrev pub first_of : Option Reason → Option Reason → Option Reason
first_of (some r) rest = some r
first_of none rest = rest

-- The part that looks at turns: `running` and `latest` are what the turn cache gives.
unfoldable pub check_turn : Envelope → Option ℕ → Option ℕ → Option Reason
check_turn e running latest =
    let turn = envelope_turn_id e in
    if one_of e.kind ("item.added" ∷ "item.done" ∷ "usage" ∷ []) && same_id turn none
    then some invalid_envelope
    else if str_eq e.kind "turn.status" && has_status e "started"
    then check_started turn running
    else if str_eq e.kind "item.added"
    then check_item_added turn running
    else first_of (check_latest turn latest) (check_session_status e)

-- _validate, with the answers of the turn cache
unfoldable pub validate_turns : ℕ → Row → Envelope → Option ℕ → Option ℕ → Option Reason
validate_turns worker row e running latest =
    if ltb max_message_bytes e.raw_size
    then some oversize
    else if not (is_leased worker row)
    then some not_leased
    else if is_deferred e.kind
    then some not_implemented
    else if str_eq e.kind "sandbox.status"
        && not (has_status e "starting" || (has_status e "ready" || has_status e "stopped"))
    then some invalid_envelope
    else if str_eq e.kind "artifact.presign"
    then check_presign e
    else if str_eq e.kind "artifact.completed"
    then check_upload e
    else if one_of e.kind
        ("session.stopped" ∷ "workspace.reaped" ∷ "lifecycle.start" ∷ "lifecycle.stop" ∷ [])
    then none
    else if str_eq e.kind "event"
    then first_of (check_event e) (check_turn e running latest)
    else check_turn e running latest

-- What a fresh read of the tables gives.
abbrev pub running_now : List Turn → ℕ → Option ℕ
running_now turns s = turn_id_of (get_running_turn turns s)

abbrev pub latest_now : List Turn → ℕ → Option ℕ
latest_now turns s = turn_id_of (get_latest_turn turns s)

-- _validate on the tables as they are
unfoldable pub validate : ℕ → List Turn → Row → Envelope → Option Reason
validate worker turns row e =
    validate_turns worker row e (running_now turns e.session_id) (latest_now turns e.session_id)
