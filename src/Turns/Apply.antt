-- ===== src/Turns/Apply.antt =====
-- _apply of src/apipi/services/ingest.py. `other` is what the calls outside the model do (sandbox
-- transitions, presigned uploads and their completion, lifecycle intents, the turn log, links of
-- files): it changes their own tables, may add events, and may fail or refuse.
use apipi.Base.{
  ℕ, Bool, true, false, not, ◌||◌, String, str_eq, List, [], ◌∷◌, ◌++◌, Option, none, some, ◌==◌,
  if◌then◌else◌,
}
use apipi.Ingest.Batch.{
  Verdict, applied, refused, failed, transient, Row, not_implemented, turn_mismatch, unknown_turn,
}
use apipi.Turns.Store.{
  Json, ItemRow, fields, failure, SessionEvent, Store, get_session_turn, create_turn, update_turn,
  set_status, set_usage, get_item, merge_item, update_session, in_progress,
}
use apipi.Turns.Validate.{RawId, absent, blank, malformed, is_id, id_of, Envelope}

abbrev pub text_or : String → Option String → String
text_or s none = s
text_or s (some t) = if str_eq t "" then s else t

abbrev pub json_or : Json → Option Json → Json
json_or d none = d
json_or d (some e) = e

-- The parsed turn of an item: no text is no turn, a text that is no UUID raises.
abbrev pub item_turn : RawId → Option (Option ℕ)
item_turn absent = some none
item_turn (is_id t) = some (some t)
item_turn blank = none
item_turn malformed = none

-- Whether an item's turn agrees with the one that `item.done` names.
unfoldable pub agrees : RawId → Option ℕ → Bool
agrees absent turn = true
agrees blank turn = true
agrees malformed turn = false
agrees (is_id t) none = true
agrees (is_id t) (some u) = t == u

unfoldable pub append_event : {R : Type 0} → Store R → SessionEvent → Store R
append_event st ev = record st { events = ev ∷ st.events }

unfoldable pub with_other :
    {R : Type 0} → Store R → Verdict (R × List SessionEvent) → Verdict (Store R)
with_other st (applied (r, evs)) = applied (record st { other = r; events = evs ++ st.events })
with_other st (refused x) = refused x
with_other st failed = failed
with_other st transient = transient

-- `turn.status`
unfoldable pub start_turn : {R : Type 0} → Store R → ℕ → ℕ → Verdict (Store R)
start_turn st s t = elim (get_session_turn st.turns s t) [
  | some _ ↦ applied st
  | none ↦ elim (create_turn st.turns s t in_progress) [
    | none ↦ failed
    | some turns ↦ applied (record st { turns = turns })
  ]
]

unfoldable pub end_turn : {R : Type 0} → Store R → ℕ → ℕ → String → Verdict (Store R)
end_turn st s t status = elim (get_session_turn st.turns s t) [
  | none ↦ refused unknown_turn
  | some _ ↦ applied (record st { turns = update_turn (set_status status) st.turns t })
]

unfoldable pub apply_turn_status : {R : Type 0} → Store R → Envelope → Verdict (Store R)
apply_turn_status st e = elim e.status [
  | none ↦ failed
  | some status ↦ elim (id_of e.payload_turn) [
    | none ↦ failed
    | some t ↦
        if str_eq status "started"
        then start_turn st e.session_id t
        else end_turn st e.session_id t status
  ]
]

unfoldable pub create_item : {R : Type 0} → Store R → Envelope → ℕ → Option ℕ → Store R
create_item st e i turn = record st {
  items =
      record {
        id = i;
        session_id = e.session_id;
        turn_id = turn;
        kind = text_or "message" e.item_type;
        content = json_or [] e.content;
      }
      ∷ st.items;
}

unfoldable pub finish_item : {R : Type 0} → Store R → Envelope → ItemRow → Verdict (Store R)
finish_item st e r =
    if not (r.session_id == e.session_id)
    then refused unknown_turn
    else if not (agrees e.payload_turn r.turn_id)
    then refused turn_mismatch
    else applied (record st { items = merge_item st.items r.id (json_or [] e.content) })

unfoldable pub apply_item_done : {R : Type 0} → Store R → Envelope → Verdict (Store R)
apply_item_done st e = elim (id_of e.item_id) [
  | none ↦ failed
  | some i ↦ elim (get_item st.items i) [
    | none ↦ refused unknown_turn
    | some r ↦ finish_item st e r
  ]
]

unfoldable pub apply_event : {R : Type 0} → Store R → Envelope → Verdict (Store R)
apply_event st e = elim e.inner [
  | none ↦ failed
  | some inner ↦ applied (
      append_event st (record {
        session_id = e.session_id;
        kind = inner;
        content = fields (json_or [] e.content);
      }))
]

unfoldable pub apply_session_status : {R : Type 0} → Store R → Envelope → Verdict (Store R)
apply_session_status st e =
    applied
      (record st { sessions = update_session st.sessions e.session_id e.status e.required_actions })

unfoldable pub apply_error : {R : Type 0} → Store R → Envelope → Verdict (Store R)
apply_error st e = applied (
    append_event st (record {
      session_id = e.session_id;
      kind = "agent.session.error";
      content = failure (text_or "" e.message) (text_or "internal" e.code);
    }))

module _ {R : Type 0} (other : R → Row → Envelope → Verdict (R × List SessionEvent)) where
  abbrev pub outside : Store R → Row → Envelope → Verdict (Store R)
  outside st row e = with_other st (other st.other row e)

  unfoldable pub apply_item_added : Store R → Row → Envelope → Verdict (Store R)
  apply_item_added st row e = elim (id_of e.item_id) [
    | none ↦ failed
    | some i ↦ elim (item_turn e.payload_turn) [
      | none ↦ failed
      | some turn ↦ elim (get_item st.items i) [
        | some _ ↦ applied st
        | none ↦ outside (create_item st e i turn) row e
      ]
    ]
  ]

  unfoldable pub apply_usage : Store R → Row → Envelope → Verdict (Store R)
  apply_usage st row e = elim (id_of e.payload_turn) [
    | none ↦ failed
    | some t ↦ elim (get_session_turn st.turns e.session_id t) [
      | none ↦ refused unknown_turn
      | some _ ↦ outside (record st { turns = update_turn (set_usage e.usage) st.turns t }) row e
    ]
  ]

  -- The types behind `turn.status`, in the order of the code.
  unfoldable pub apply_rest : Store R → Row → Envelope → Verdict (Store R)
  apply_rest st row e =
      if str_eq e.kind "item.added"
      then apply_item_added st row e
      else if str_eq e.kind "item.done"
      then apply_item_done st e
      else if str_eq e.kind "usage"
      then apply_usage st row e
      else if str_eq e.kind "event"
      then apply_event st e
      else if str_eq e.kind "session.status"
      then apply_session_status st e
      else if str_eq e.kind "artifact.presign" || str_eq e.kind "artifact.completed"
      then outside st row e
      else if str_eq e.kind "error"
      then apply_error st e
      else refused not_implemented

  unfoldable pub apply : Store R → Row → Envelope → Verdict (Store R)
  apply st row e =
      if str_eq e.kind "sandbox.status"
      then outside st row e
      else if str_eq e.kind "session.stopped" || str_eq e.kind "workspace.reaped"
      then applied st
      else if str_eq e.kind "lifecycle.start" || str_eq e.kind "lifecycle.stop"
      then outside st row e
      else if str_eq e.kind "turn.status"
      then apply_turn_status st e
      else apply_rest st row e
