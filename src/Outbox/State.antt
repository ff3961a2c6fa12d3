-- ===== src/Outbox/State.antt =====
-- The data of src/apipi/worker/outbox.py: envelopes, the buffer of one session, the outbox.
-- A UUID is a number; a clock reading is a number. `Held.id` and `Buffer.id` stand for the
-- identity of a Python object, which `mark_sent` and `_compact` compare with `is`.
use apipi.Base.{ℕ, Bool, List, Option, String}
use apipi.Base.Dict.{Dict}

-- The wire form of a durable envelope, over an arbitrary type of payloads.
pub record Envelope (P : Type 0) : Type 0 where
  pub session_id : ℕ
  pub seq : ℕ
  pub kind : String
  pub turn_id : Option ℕ
  pub payload : P

-- An envelope in memory.
pub record Held (P : Type 0) : Type 0 where
  pub id : ℕ
  pub wire : Envelope P
  pub open wire use *

-- One line of a spool file: white space, text that does not read back, or an envelope.
pub data Line (P : Type 0) : Type 0 where
  blank : Line P
  garbled : Line P
  entry : Envelope P → Line P

-- _SessionBuffer
pub record Buffer (P : Type 0) : Type 0 where
  pub id : ℕ
  pub issued : ℕ
  pub acked : ℕ
  pub envelopes : List (Held P)
  pub added : List ℕ
  pub bytes : ℕ
  pub emergency_used : ℕ
  pub sent : ℕ
  pub unsent : List (Held P)
  pub spooled : ℕ
  pub dead : ℕ

-- The attributes of Outbox. `files` is the spool directory, `none` when no directory is set, and
-- `allocated` is the next free object identity.
pub record Outbox (P : Type 0) : Type 0 where
  pub max_messages : ℕ
  pub max_bytes : ℕ
  pub session_messages : ℕ
  pub session_bytes : ℕ
  pub compact_min : ℕ
  pub peer_features : List String
  pub files : Option (Dict (List (Line P)))
  pub spool_skipped : ℕ
  pub sessions : Dict (Buffer P)
  pub floors : Dict ℕ
  pub unsynced : List ℕ
  pub messages : ℕ
  pub bytes : ℕ
  pub dirty : Bool
  pub allocated : ℕ

abbrev pub emergency_budget : ℕ
emergency_budget = 10

abbrev pub floor_limit : ℕ
floor_limit = 4096

abbrev pub max_message_bytes : ℕ
max_message_bytes = 1048576
