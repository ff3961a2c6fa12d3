-- ===== src/Outbox/Load.antt =====
-- load_spool and _compact of src/apipi/worker/outbox.py.
use apipi.Base.{
  ℕ, ◌+◌, Bool, not, ◌&&◌, List, [], ◌∷◌, ◌++◌, Option, none, some, keep, is_empty, ltb, leb, ◌==◌,
  if◌then◌else◌, length, map,
}
use apipi.Base.Dict
use apipi.Base.Dict.{Dict}
use apipi.Outbox.State.{Envelope, Held, Line, blank, garbled, entry, Buffer, Outbox}
use apipi.Outbox.Spool.{store, ensure, touch}

-- load_spool and _compact, which measure or copy envelopes
module _ {P : Type 0} (size : Envelope P → ℕ) where
  -- A spooled envelope that is new to the buffer.
  unfoldable pub reload : Outbox P → Buffer P → Envelope P → ℕ → Outbox P × Buffer P
  reload o b e now = (
    record o { messages = o.messages + 1; bytes = o.bytes + size e; allocated = o.allocated + 1 },
    record b {
      spooled = b.spooled + 1;
      issued = e.seq;
      envelopes = b.envelopes ++ record { id = o.allocated; wire = e } ∷ [];
      unsent = b.unsent ++ record { id = o.allocated; wire = e } ∷ [];
      added = b.added ++ now ∷ [];
      bytes = b.bytes + size e;
    },
  )

  -- The body of load_spool's inner loop.
  unfoldable pub load_line : Outbox P → Buffer P → Line P → ℕ → Outbox P × Buffer P
  unfolding reload
  load_line o b blank now = (o, b)
  load_line o b garbled now = (record o { spool_skipped = o.spool_skipped + 1 }, b)
  load_line o b (entry e) now =
      if leb e.seq b.issued
      then (o, record b { spooled = b.spooled + 1; dead = b.dead + 1 })
      else reload o b e now

  unfoldable pub load_lines : Outbox P → Buffer P → List (Line P) → ℕ → Outbox P × Buffer P
  load_lines o b [] now = (o, b)
  load_lines o b (l ∷ ls) now = let (o', b') = load_line o b l now in load_lines o' b' ls now

  -- One file of load_spool.
  unfoldable pub load_file : Outbox P → ℕ → List (Line P) → ℕ → Outbox P
  load_file o s ls now =
      let (o', b') = load_lines (ensure o s).0 (ensure o s).1 ls now in
      store o' s (record b' { sent = b'.issued })

  -- The files in order; `readable` says which of them can be read.
  unfoldable pub load_files : Outbox P → (ℕ → Bool) → Dict (List (Line P)) → ℕ → Outbox P
  load_files o readable [] now = o
  load_files o readable ((s, ls) ∷ files) now =
      load_files (if readable s then load_file o s ls now else o) readable files now

  -- load_spool; the high waters that it returns are those of `high_water`
  unfoldable pub load_spool : Outbox P → (ℕ → Bool) → ℕ → Outbox P
  load_spool o readable now = elim o.files [
    | none ↦ o
    | some files ↦ load_files o readable files now
  ]

-- _compact, in the two parts that the disk thread separates. Between them any method may run.
pub record Snapshot (P : Type 0) : Type 0 where
  pub session_id : ℕ
  pub buffer : ℕ
  pub taken : List (Held P)
  pub last : ℕ

unfoldable pub last_seq : {P : Type 0} → List (Held P) → ℕ
last_seq [] = 0
last_seq (e ∷ []) = e.seq
last_seq (e ∷ f ∷ es) = last_seq (f ∷ es)

module _ {P : Type 0} where
  -- The test of maintain_spool.
  unfoldable pub wants_compaction : Outbox P → Buffer P → Bool
  wants_compaction o b = leb o.compact_min b.dead && leb (length b.envelopes) b.dead

  unfoldable pub compact_begin : Outbox P → ℕ → Option (Snapshot P)
  unfolding last_seq
  compact_begin o s = elim o.files [
    | none ↦ none
    | some _ ↦ elim (Dict.get o.sessions s) [
      | none ↦ none
      | some b ↦
          if is_empty b.envelopes
          then none
          else some (record {
            session_id = s;
            buffer = b.id;
            taken = b.envelopes;
            last = last_seq b.envelopes;
          })
    ]
  ]

  -- The envelopes that came after the snapshot.
  unfoldable pub newer_than : ℕ → List (Held P) → List (Held P)
  newer_than last es = keep (λ e. ltb last e.seq) es

  unfoldable pub first_seq : List (Held P) → ℕ
  first_seq [] = 0
  first_seq (e ∷ es) = e.seq

  abbrev pub lines : List (Held P) → List (Line P)
  lines = map (λ e. entry e.wire)

  unfoldable pub replace_file : Outbox P → Buffer P → Snapshot P → Dict (List (Line P)) → Outbox P
  replace_file o b snap files =
      let newer = newer_than snap.last b.envelopes in
      store
        (record o {
          files = some (Dict.put files snap.session_id (lines (snap.taken ++ newer)));
          unsynced = if is_empty newer then o.unsynced else touch snap.session_id o.unsynced;
        })
        snap.session_id
        (record b {
          spooled = length snap.taken + length newer;
          dead = length (keep (λ e. ltb e.seq (first_seq b.envelopes)) snap.taken);
        })

  -- `disk` is false if any of the disk operations failed: the old file then stays.
  unfoldable pub compact_end : Outbox P → Snapshot P → Bool → Outbox P
  compact_end o snap disk = elim o.files [
    | none ↦ o
    | some files ↦ elim (Dict.get o.sessions snap.session_id) [
      | none ↦ o
      | some b ↦
          if b.id == snap.buffer && (not (is_empty b.envelopes) && disk)
          then replace_file o b snap files
          else o
    ]
  ]
