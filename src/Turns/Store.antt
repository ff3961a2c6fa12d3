-- ===== src/Turns/Store.antt =====
-- The tables that the ingest of envelopes writes, and the calls of src/apipi/store/repo.py on them.
-- Ids are numbers and belong to one tenant each. `create_turn` and `create_item` stamp a row after
-- the newest of its session, so a list with the newest row first has the order of the stamps.
use apipi.Base.{
  ℕ, Bool, ◌&&◌, String, str_eq, List, [], ◌∷◌, Option, none, some, ◌==◌, if◌then◌else◌,
}
use apipi.Base.Dict
use apipi.Base.Dict.{Dict}

-- An object of JSON: its keys and values are numbers.
abbrev pub Json : Type 0
Json = Dict ℕ

pub record Turn : Type 0 where
  pub id : ℕ
  pub session_id : ℕ
  pub status : String
  pub usage : Option ℕ

pub record ItemRow : Type 0 where
  pub id : ℕ
  pub session_id : ℕ
  pub turn_id : Option ℕ
  pub kind : String
  pub content : Json

pub data EventData : Type 0 where
  fields : Json → EventData
  failure : String → String → EventData

pub record SessionEvent : Type 0 where
  pub session_id : ℕ
  pub kind : String
  pub content : EventData

pub record SessionStatus : Type 0 where
  pub status : String
  pub required_actions : List ℕ

-- The tables; `other` stands for those that only calls outside the model write (turn logs, uploads,
-- artifacts, sandbox columns, lifecycle intents).
pub record Store (R : Type 0) : Type 0 where
  pub turns : List Turn
  pub items : List ItemRow
  pub events : List SessionEvent
  pub sessions : Dict SessionStatus
  pub other : R

abbrev pub in_progress : String
in_progress = "in_progress"

unfoldable pub get_turn : List Turn → ℕ → Option Turn
get_turn [] t = none
get_turn (r ∷ rs) t = if r.id == t then some r else get_turn rs t

-- get_session_turn
unfoldable pub get_session_turn : List Turn → ℕ → ℕ → Option Turn
get_session_turn rs s t = elim (get_turn rs t) [
  | none ↦ none
  | some r ↦ if r.session_id == s then some r else none
]

-- The newest turn of a session, and the newest one in progress.
unfoldable pub get_latest_turn : List Turn → ℕ → Option Turn
get_latest_turn [] s = none
get_latest_turn (r ∷ rs) s = if r.session_id == s then some r else get_latest_turn rs s

unfoldable pub is_running : Turn → Bool
is_running r = str_eq r.status in_progress

unfoldable pub get_running_turn : List Turn → ℕ → Option Turn
get_running_turn [] s = none
get_running_turn (r ∷ rs) s =
    if r.session_id == s && is_running r then some r else get_running_turn rs s

-- create_turn: `none` where the id is taken.
unfoldable pub create_turn : List Turn → ℕ → ℕ → String → Option (List Turn)
create_turn rs s t status = elim (get_turn rs t) [
  | some _ ↦ none
  | none ↦ some (record { id = t; session_id = s; status = status; usage = none } ∷ rs)
]

-- A write to the turn of an id.
unfoldable pub update_turn : (Turn → Turn) → List Turn → ℕ → List Turn
update_turn f [] t = []
update_turn f (r ∷ rs) t = if r.id == t then f r ∷ rs else r ∷ update_turn f rs t

abbrev pub set_status : String → Turn → Turn
set_status status r = record r { status = status }

abbrev pub set_usage : ℕ → Turn → Turn
set_usage usage r = record r { usage = some usage }

unfoldable pub get_item : List ItemRow → ℕ → Option ItemRow
get_item [] i = none
get_item (r ∷ rs) i = if r.id == i then some r else get_item rs i

-- `item.data = {**item.data, **raw_data}`
unfoldable pub merge : Json → Json → Json
merge d [] = d
merge d ((k, v) ∷ e) = merge (Dict.put d k v) e

unfoldable pub merge_item : List ItemRow → ℕ → Json → List ItemRow
merge_item [] i d = []
merge_item (r ∷ rs) i d =
    if r.id == i then record r { content = merge r.content d } ∷ rs else r ∷ merge_item rs i d

abbrev pub or_keep {ℓ} : {A : Type ℓ} → Option A → A → A
or_keep none a = a
or_keep (some b) a = b

-- update_session with a status and actions that may be absent
unfoldable pub update_session :
    Dict SessionStatus → ℕ → Option String → Option (List ℕ) → Dict SessionStatus
update_session d s status actions = elim (Dict.get d s) [
  | none ↦ d
  | some r ↦ Dict.put d s (record {
    status = or_keep status r.status;
    required_actions = or_keep actions r.required_actions;
  })
]
