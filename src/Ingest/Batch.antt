-- ===== src/Ingest/Batch.antt =====
-- flush_batch of src/apipi/services/ingest.py: one transaction over a batch of envelopes, with the
-- ledger of applied sequence numbers, rejections, duplicates and retries. `_validate` and `_apply`
-- are arguments: the database that they read and write is `S`.
use apipi.Base.{
  ℕ, max, Bool, true, false, not, ◌&&◌, String, str_eq, List, [], ◌∷◌, ◌++◌, Option, none, some,
  any, ltb, ◌==◌, if◌then◌else◌,
}
use apipi.Base.Dict
use apipi.Base.Dict.{Dict}
use apipi.Outbox.State.{max_message_bytes}

-- QueuedEnvelope, with the fields of the envelope that the batch reads.
pub record Item : Type 0 where
  pub session_id : ℕ
  pub seq : ℕ
  pub kind : String
  pub raw_size : ℕ
  pub payload : ℕ

pub data Reason : Type 0 where
  not_leased oversize not_implemented ingest_error : Reason
  invalid_envelope unknown_event live_event turn_mismatch unknown_turn : Reason
  invalid : ℕ → Reason

-- What `_apply` does to the database: it commits, raises a rejection, or fails. A failure is
-- temporary or not as is_transient says.
pub data Verdict (S : Type 0) : Type 0 where
  applied : S → Verdict S
  refused : Reason → Verdict S
  failed transient : Verdict S

pub record Row : Type 0 where
  pub worker_id : Option ℕ
  pub lease_id : Option ℕ
  pub worker_seq : ℕ

-- The session rows, the ledger `worker_ingest`, and everything else.
pub record Db (S : Type 0) : Type 0 where
  pub rows : Dict Row
  pub ledger : List (ℕ × ℕ)
  pub content : S

-- IngestOutcome, and the set of stalled sessions beside it.
pub record Outcome : Type 0 where
  pub acks : Dict ℕ
  pub rejected : List (ℕ × ℕ × Reason)
  pub retry : List Item
  pub stopped : List ℕ
  pub stalled : List ℕ

abbrev pub nothing : Outcome
nothing = record { acks = []; rejected = []; retry = []; stopped = []; stalled = [] }

abbrev pub mem : ℕ → List ℕ → Bool
mem s ss = any (λ t. t == s) ss

abbrev pub claimed : ℕ → ℕ → List (ℕ × ℕ) → Bool
claimed s n [] = false
claimed s n ((t, m) ∷ l) = if t == s && m == n then true else claimed s n l

-- LEASE_FREE_TYPES and DEFERRED_TYPES
unfoldable pub is_lease_free : String → Bool
is_lease_free kind = str_eq kind "workspace.reaped"

unfoldable pub is_deferred : String → Bool
is_deferred kind = any (λ t. str_eq kind t) []

-- `row.worker_id != worker_id or row.lease_id is None`, negated
unfoldable pub is_leased : ℕ → Row → Bool
is_leased worker row = elim row.worker_id [
  | none ↦ false
  | some w ↦ w == worker && elim row.lease_id [ none ↦ false | some _ ↦ true ]
]

unfoldable pub ack_of : Outcome → ℕ → ℕ
ack_of out s = Dict.get_or out.acks s 0

-- `outcome.acks[s] = max(outcome.acks.get(s, 0), seq)`
unfoldable pub note_ack : Outcome → Item → Outcome
unfolding ack_of
note_ack out i = record out {
  acks = Dict.put out.acks i.session_id (max (ack_of out i.session_id) i.seq);
}

unfoldable pub reject : Outcome → Item → Reason → Outcome
reject out i r = record out { rejected = out.rejected ++ (i.session_id, i.seq, r) ∷ [] }

-- The session waits, and the envelope is tried again.
unfoldable pub stall : Outcome → Item → Outcome
stall out i = record out { stalled = i.session_id ∷ out.stalled; retry = out.retry ++ i ∷ [] }

unfoldable pub defer : Outcome → Item → Outcome
defer out i = record out { retry = out.retry ++ i ∷ [] }

unfoldable pub note_stopped : Outcome → Item → Outcome
note_stopped out i =
    if str_eq i.kind "session.stopped"
    then record out { stopped = out.stopped ++ i.session_id ∷ [] }
    else out

module _ {S : Type 0} (validate : S → Row → Item → Option Reason)
    (apply : S → Row → Item → Verdict S) where
  -- What the handlers around the savepoint make of a verdict; `commit` is the effect of success.
  unfoldable pub settle : Db S → Outcome → Item → Verdict S → (S → Db S) → Outcome → Db S × Outcome
  settle db out i (applied c) commit done = (commit c, note_ack done i)
  settle db out i (refused r) commit done = (db, note_ack (reject out i r) i)
  settle db out i failed commit done = (db, note_ack (reject out i ingest_error) i)
  settle db out i transient commit done = (db, stall out i)

  -- Validation and apply of an envelope whose ledger row is new.
  unfoldable pub judge : S → Row → Item → Verdict S
  judge c row i = elim (validate c row i) [ some r ↦ refused r | none ↦ apply c row i ]

  -- An envelope of a session that is leased here, past the size check.
  unfoldable pub ingest_leased : Db S → Outcome → Row → Item → Db S × Outcome
  ingest_leased db out row i =
      if claimed i.session_id i.seq db.ledger
      then if str_eq i.kind "artifact.presign"
        then settle db (note_stopped out i) i (apply db.content row i)
            (λ c. record db { content = c }) (note_stopped out i)
        else (db, note_ack (note_stopped out i) i)
      else settle db out i (judge db.content row i)
          (λ c. record db { ledger = db.ledger ++ (i.session_id, i.seq) ∷ []; content = c })
          (note_stopped out i)

  -- One round of the loop over the batch.
  unfoldable pub ingest_item : ℕ → Db S → Outcome → Item → Db S × Outcome
  ingest_item worker db out i =
      if mem i.session_id out.stalled
      then (db, defer out i)
      else elim (Dict.get db.rows i.session_id) [
        | none ↦ (db, note_ack (reject out i not_leased) i)
        | some row ↦
            if is_lease_free i.kind
            then (db, note_ack out i)
            else if not (is_leased worker row)
            then (db, note_ack (reject out i not_leased) i)
            else if ltb max_message_bytes i.raw_size
            then (db, note_ack (reject out i oversize) i)
            else if is_deferred i.kind
            then (db, note_ack (reject out i not_implemented) i)
            else ingest_leased db out row i
      ]

  unfoldable pub ingest_items : ℕ → Db S → Outcome → List Item → Db S × Outcome
  ingest_items worker db out [] = (db, out)
  ingest_items worker db out (i ∷ is) =
      let (db', out') = ingest_item worker db out i in ingest_items worker db' out' is

  -- The cursor of a leased session follows its ack.
  unfoldable pub advance : ℕ → Outcome → Dict Row → Dict Row
  advance worker out [] = []
  advance worker out ((s, row) ∷ rows) =
      (
        s,
        if is_leased worker row && ltb row.worker_seq (ack_of out s)
            then record row { worker_seq = ack_of out s }
            else row,
      )
      ∷ advance worker out rows

  unfoldable pub flush_batch : ℕ → Db S → List Item → Db S × Outcome
  flush_batch worker db queued =
      let (db', out) = ingest_items worker db nothing queued in
      (record db' { rows = advance worker out db'.rows }, out)
