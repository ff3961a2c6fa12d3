-- ===== src/Outbox/Run.antt =====
-- The methods of the outbox as one step function, and the outbox that the constructor makes.
use apipi.Base.{ℕ, ◌*◌, ◌/◌, max, refl, Bool, false, List, [], ◌∷◌, Option}
use apipi.Base.Dict
use apipi.Base.Dict.{Dict}
use apipi.Outbox.State.{Envelope, Held, Line, Outbox}
use apipi.Outbox.Spool.{sync_spool}
use apipi.Outbox.Ops.{
  Call, append, acked, set_base, begin_connection, mark_sent, release, drop_session,
}
use apipi.Outbox.Load.{load_spool, Snapshot, compact_end}
use apipi.Outbox.Valid.{WellFormed}
use apipi.Outbox.Keeps.{
  WellFormed-same, acked-WellFormed, set_base-WellFormed, append-WellFormed,
  begin_connection-WellFormed, mark_sent-WellFormed,
}
use apipi.Outbox.Ends.{
  release-WellFormed, drop_session-WellFormed, load_spool-WellFormed, compact_end-WellFormed,
}

-- The constructor. `session_share` is the fraction `num / den`; `files` is the spool directory as
-- it stands on disk.
unfoldable pub init :
    {P : Type 0}
    → (max_messages max_bytes compact_min num den : ℕ) → Option (Dict (List (Line P)))
    → Outbox P
init m n c num den files = record {
  max_messages = m;
  max_bytes = n;
  session_messages = max 1 (m * num / den);
  session_bytes = max 1 (n * num / den);
  compact_min = c;
  peer_features = "search" ∷ "presign" ∷ "lease_cursor" ∷ [];
  files = files;
  spool_skipped = 0;
  sessions = [];
  floors = [];
  unsynced = [];
  messages = 0;
  bytes = 0;
  dirty = false;
  allocated = 0;
}

-- A call of a method. `marks` is the second half of a round of the sender pump, and `compacts` the
-- end of a compaction whose snapshot was taken earlier.
pub data Op (P : Type 0) : Type 0 where
  appends : Call P → Op P
  acks bases : ℕ → ℕ → Bool → Op P
  connects syncs : Op P
  marks : ℕ → Held P → Op P
  releases drops : ℕ → Bool → Op P
  compacts : Snapshot P → Bool → Op P

module _ {P : Type 0} (size : Envelope P → ℕ) where
  unfoldable pub step : Outbox P → Op P → Outbox P
  step o (appends c) = (append size o c).0
  step o (acks s last disk) = acked size o s last disk
  step o (bases s last disk) = set_base size o s last disk
  step o connects = (begin_connection o).0
  step o syncs = sync_spool o
  step o (marks s e) = mark_sent o s e
  step o (releases s disk) = release o s disk
  step o (drops s disk) = drop_session o s disk
  step o (compacts snap disk) = compact_end o snap disk

  unfoldable pub run : Outbox P → List (Op P) → Outbox P
  run o [] = o
  run o (op ∷ ops) = run (step o op) ops

  pub step-WellFormed : (o : Outbox P) (op : Op P) → WellFormed size o → WellFormed size (step o op)
  unfolding step sync_spool
  step-WellFormed o (appends c) w = append-WellFormed size o c w
  step-WellFormed o (acks s last disk) w = acked-WellFormed size o s last disk w
  step-WellFormed o (bases s last disk) w = set_base-WellFormed size o s last disk w
  step-WellFormed o connects w = begin_connection-WellFormed size o w
  step-WellFormed o syncs w = WellFormed-same size o _ w refl refl refl
  step-WellFormed o (marks s e) w = mark_sent-WellFormed size o s e w
  step-WellFormed o (releases s disk) w = release-WellFormed size o s disk w
  step-WellFormed o (drops s disk) w = drop_session-WellFormed size o s disk w
  step-WellFormed o (compacts snap disk) w = compact_end-WellFormed size o snap disk w

  pub run-WellFormed :
      (o : Outbox P) (ops : List (Op P)) → WellFormed size o → WellFormed size (run o ops)
  unfolding run
  run-WellFormed o [] w = w
  run-WellFormed o (op ∷ ops) w = run-WellFormed (step o op) ops (step-WellFormed o op w)

  pub init-WellFormed :
      (m n c num den : ℕ) (files : Option (Dict (List (Line P))))
      → WellFormed size (init m n c num den files)
  unfolding init Dict.total Dict.get
  init-WellFormed m n c num den files = record {
    distinct = tt;
    messages_total = refl;
    bytes_total = refl;
    each = λ s b h. cc h;
  }

  -- From any spool directory, readable or not, and after any calls in any order, with every disk
  -- outcome, the totals of the outbox are the sums over its sessions, no session stands twice, and
  -- each buffer counts its bytes and stamps exactly, numbers its envelopes with rising sequence
  -- numbers up to `issued`, and has its unsent envelopes as the tail of those it holds.
  pub outbox-WellFormed :
      (m n c num den : ℕ) (files : Option (Dict (List (Line P)))) (readable : ℕ → Bool) (now : ℕ)
      (ops : List (Op P))
      → WellFormed size (run (load_spool size (init m n c num den files) readable now) ops)
  outbox-WellFormed m n c num den files readable now ops =
      run-WellFormed _ ops
        (load_spool-WellFormed size _ readable now (init-WellFormed m n c num den files))
