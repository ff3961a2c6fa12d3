-- ===== src/Deltas/Hub.antt =====
-- handle_delta and the lease memory of src/apipi/workerhub/deltas.py, with times in milliseconds.
use apipi.Base.{
  ℕ, ◌+◌, Bool, false, not, ◌||◌, String, str_eq, List, [], ◌∷◌, Option, none, some, ltb, leb, ◌==◌,
  if◌then◌else◌, is_empty, length, any,
}
use apipi.Base.Dict
use apipi.Base.Dict.{Dict}
use apipi.Ingest.Batch.{mem}
use apipi.Rate.Budget.{relay_rate_allowed}
use apipi.Deltas.Split.{Text}

pub record DeltaLease : Type 0 where
  pub worker_id : ℕ
  pub lease_id : ℕ
  pub tenant_id : ℕ
  pub turns_done : List String
  pub refreshed : ℕ

-- The two dicts of WorkerHub that deltas use.
pub record Hub : Type 0 where
  pub delta_hits : Dict (List ℕ)
  pub delta_leases : Dict DeltaLease

-- WorkerConnection: its worker and the leases it holds.
pub record Conn : Type 0 where
  pub worker_id : ℕ
  pub leases : List ℕ

pub record SessionRow : Type 0 where
  pub worker_id : Option ℕ
  pub lease_id : Option ℕ
  pub tenant_id : ℕ

pub data DeltaKind : Type 0 where
  reasoning_delta text_delta other_type : DeltaKind

-- An envelope; the payload is `none` where it does not parse.
pub record Delta : Type 0 where
  pub session_id : ℕ
  pub kind : DeltaKind
  pub payload : Option (Option ℕ × Text)

-- DELTA_MAX_TEXT and DELTA_RATE_LIMIT of src/apipi/protocol/constants.py
abbrev pub delta_max_text : ℕ
delta_max_text = 32768

abbrev pub delta_rate_limit : ℕ
delta_rate_limit = 100

abbrev pub done_cap : ℕ
done_cap = 256

abbrev pub lease_refresh : ℕ
lease_refresh = 30000

pub data Answer : Type 0 where
  published : Option ℕ → Text → Answer
  ignored reasoning_dropped invalid oversize rate_limited rejected dropped_done : Answer

abbrev pub renewed : Option DeltaLease → ℕ → ℕ → ℕ → ℕ → DeltaLease
renewed none worker lease tenant now = record {
  worker_id = worker;
  lease_id = lease;
  tenant_id = tenant;
  turns_done = [];
  refreshed = now;
}
renewed (some l) worker lease tenant now = record l {
  worker_id = worker;
  lease_id = lease;
  tenant_id = tenant;
  refreshed = now;
}

-- _note_delta_lease
unfoldable pub note_delta_lease : Hub → ℕ → ℕ → ℕ → ℕ → ℕ → Hub
note_delta_lease h s worker lease tenant now = record h {
  delta_leases =
      Dict.put h.delta_leases s (renewed (Dict.get h.delta_leases s) worker lease tenant now);
}

-- _forget_delta
unfoldable pub forget_delta : Hub → ℕ → Hub
forget_delta h s = record {
  delta_hits = Dict.remove h.delta_hits s;
  delta_leases = Dict.remove h.delta_leases s;
}

-- Whether the row is leased to the connection.
unfoldable pub row_lease : Conn → SessionRow → Option ℕ
row_lease c row = elim row.worker_id [
  | none ↦ none
  | some w ↦
      if not (w == c.worker_id)
      then none
      else elim row.lease_id [ none ↦ none | some l ↦ if mem l c.leases then some l else none ]
]

-- _refresh_delta_lease: `row` is what the database has for the session.
unfoldable pub refresh_delta_lease : Hub → Conn → ℕ → Option SessionRow → ℕ → Option Hub
refresh_delta_lease h c s none now = none
refresh_delta_lease h c s (some row) now = elim (row_lease c row) [
  | none ↦ none
  | some l ↦ some (note_delta_lease h s c.worker_id l row.tenant_id now)
]

-- Whether the memory answers for the lease.
abbrev pub is_known : Conn → ℕ → Option DeltaLease → Bool
is_known c now none = false
is_known c now (some l) = not (
    not (l.worker_id == c.worker_id)
    || (not (mem l.lease_id c.leases) || ltb (l.refreshed + lease_refresh) now))

unfoldable pub known_hub : Hub → Conn → ℕ → Option SessionRow → ℕ → Option Hub
known_hub h c s row now =
    if is_known c now (Dict.get h.delta_leases s) then some h else refresh_delta_lease h c s row now

abbrev pub is_in : String → List String → Bool
is_in t ts = any (str_eq t) ts

-- `text_of` is str of a UUID: the ended turns are texts of stored events, a delta names a UUID.
module _ (text_of : ℕ → String) where
  abbrev pub is_done : Option ℕ → Option DeltaLease → Bool
  is_done none l = false
  is_done (some t) none = false
  is_done (some t) (some l) = is_in (text_of t) l.turns_done

  -- The part behind the rate budget.
  unfoldable pub publish : Hub → Conn → ℕ → Option SessionRow → ℕ → Option ℕ → Text → Hub × Answer
  publish h c s row now turn text = elim (known_hub h c s row now) [
    | none ↦ (forget_delta h s, rejected)
    | some h' ↦
        if is_done turn (Dict.get h'.delta_leases s)
        then (h', dropped_done)
        else (h', published turn text)
  ]

  unfoldable pub handle_text :
      Hub → Conn → ℕ → Option SessionRow → ℕ → Option ℕ → Text → Hub × Answer
  handle_text h c s row now turn text =
      if is_empty text
      then (h, ignored)
      else if ltb delta_max_text (length text)
      then (h, oversize)
      else let (hits, allowed) =
          relay_rate_allowed (Dict.get_or h.delta_hits s []) now delta_rate_limit in
        let h' = record h { delta_hits = Dict.put h.delta_hits s hits } in
        let rest = publish h' c s row now turn text in
        if not allowed then (h', rate_limited) else rest

  unfoldable pub handle_payload :
      Hub → Conn → ℕ → Option SessionRow → ℕ → Option (Option ℕ × Text) → Hub × Answer
  handle_payload h c s row now none = (h, invalid)
  handle_payload h c s row now (some (turn, text)) = handle_text h c s row now turn text

  unfoldable pub handle_type : Hub → Conn → Delta → Option SessionRow → ℕ → DeltaKind → Hub × Answer
  handle_type h c d row now reasoning_delta = (h, reasoning_dropped)
  handle_type h c d row now other_type = (h, ignored)
  handle_type h c d row now text_delta = handle_payload h c d.session_id row now d.payload

  unfoldable pub handle_delta : Hub → Conn → Delta → Option SessionRow → ℕ → Hub × Answer
  handle_delta h c d row now = handle_type h c d row now d.kind

-- A stored event: its type and the turn_id of its data, where that is a string.
pub record Body : Type 0 where
  pub kind : String
  pub turn_id : Option String

abbrev pub done_types : List String
done_types =
    "agent.session.turn.output_text.done" ∷ "agent.session.turn.completed"
    ∷ "agent.session.turn.failed" ∷ "agent.session.turn.cancelled" ∷ []

-- `turn_id if isinstance(turn_id, str) and turn_id else None`
abbrev pub filled : Option String → Option String
filled none = none
filled (some t) = if str_eq t "" then none else some t

unfoldable pub done_turn_of : Body → Option String
done_turn_of b = if any (str_eq b.kind) done_types then filled b.turn_id else none

-- `if len(done) >= cap: done.clear()` and `done.add(turn)`
unfoldable pub add_done : List String → Option String → List String
add_done ts none = ts
add_done ts (some t) =
    if leb done_cap (length ts) then t ∷ [] else if is_in t ts then ts else t ∷ ts

unfoldable pub add_all : List String → List Body → List String
add_all ts [] = ts
add_all ts (b ∷ bs) = add_all (add_done ts (done_turn_of b)) bs

unfoldable pub note_stored_events : Hub → ℕ → List Body → Hub
note_stored_events h s bodies = elim (Dict.get h.delta_leases s) [
  | none ↦ h
  | some l ↦ record h {
    delta_leases =
        Dict.put h.delta_leases s (record l { turns_done = add_all l.turns_done bodies });
  }
]

-- _forget_worker_deltas
unfoldable pub forget_all : Hub → List ℕ → Hub
forget_all h [] = h
forget_all h (s ∷ ss) = forget_all (forget_delta h s) ss

abbrev pub sessions_of : ℕ → Dict DeltaLease → List ℕ
sessions_of worker [] = []
sessions_of worker ((s, l) ∷ d) =
    if l.worker_id == worker then s ∷ sessions_of worker d else sessions_of worker d

unfoldable pub forget_worker_deltas : Hub → ℕ → Hub
forget_worker_deltas h worker = forget_all h (sessions_of worker h.delta_leases)
