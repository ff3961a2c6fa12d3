-- ===== src/Outbox/Spool.antt =====
-- The disk spool of src/apipi/worker/outbox.py: one append-only file for each session.
-- Whether a disk operation succeeds is an argument; one that fails leaves the file as it was.
use apipi.Base.{ℕ, ◌+◌, Bool, not, List, [], ◌∷◌, ◌++◌, none, some, keep, ◌==◌, if◌then◌else◌, any}
use apipi.Base.Dict
use apipi.Base.Dict.{Dict}
use apipi.Outbox.State.{Envelope, Line, entry, Buffer, Outbox}

-- set.add on the set of touched paths
unfoldable pub touch : ℕ → List ℕ → List ℕ
touch s touched = if any (λ t. t == s) touched then touched else touched ++ s ∷ []

-- set.discard
unfoldable pub untouch : ℕ → List ℕ → List ℕ
untouch s touched = keep (λ t. not (t == s)) touched

-- `self._floors.get(session_id, 0)`
unfoldable pub floor_of : Dict ℕ → ℕ → ℕ
floor_of floors s = elim (Dict.get floors s) [ none ↦ 0 | some n ↦ n ]

module _ {P : Type 0} where
  -- The lines of a session's file; a file that is not there has none.
  unfoldable pub file_of : Dict (List (Line P)) → ℕ → List (Line P)
  file_of files s = elim (Dict.get files s) [ none ↦ [] | some ls ↦ ls ]

  -- `self._sessions[session_id] = buffer`; also how a change to a shared buffer is written back
  unfoldable pub store : Outbox P → ℕ → Buffer P → Outbox P
  store o s b = record o { sessions = Dict.put o.sessions s b }

  -- A new _SessionBuffer whose counters start at `floor`.
  unfoldable pub fresh : ℕ → ℕ → Buffer P
  fresh id floor = record {
    id = id;
    issued = floor;
    acked = floor;
    envelopes = [];
    added = [];
    bytes = 0;
    emergency_used = 0;
    sent = floor;
    unsent = [];
    spooled = 0;
    dead = 0;
  }

  -- _spool_append
  unfoldable pub spool_append : Outbox P → ℕ → Buffer P → Envelope P → Bool → Outbox P
  spool_append o s b e disk = elim o.files [
    | none ↦ store o s b
    | some files ↦
        if disk
        then store
            (record o {
              files = some (Dict.put files s (file_of files s ++ entry e ∷ []));
              unsynced = touch s o.unsynced;
            })
            s (record b { spooled = b.spooled + 1 })
        else store o s b
  ]

  -- _remove_spool
  unfoldable pub remove_spool : Outbox P → ℕ → Bool → Outbox P
  unfolding untouch
  remove_spool o s disk = elim o.files [
    | none ↦ o
    | some files ↦ record o {
      files = some (if disk then Dict.remove files s else files);
      unsynced = untouch s o.unsynced;
    }
  ]

  -- sync_spool, and the first half of maintain_spool: fsync puts no byte anywhere else
  unfoldable pub sync_spool : Outbox P → Outbox P
  sync_spool o = record o { unsynced = [] }

  -- _buffer: the buffer of a session, made on first use, with the numbering that a release kept
  unfoldable pub ensure : Outbox P → ℕ → Outbox P × Buffer P
  ensure o s = elim (Dict.get o.sessions s) [
    | some b ↦ (o, b)
    | none ↦ (
      store (record o { floors = Dict.remove o.floors s; allocated = o.allocated + 1 }) s
          (fresh o.allocated (floor_of o.floors s)),
      fresh o.allocated (floor_of o.floors s),
    )
  ]
