-- ===== src/Outbox/Ops.antt =====
-- The methods of Outbox in src/apipi/worker/outbox.py that the turn runtime and the sender pump
-- call. Each returns the new outbox. Logs and metrics are left out.
use apipi.Base.{
  ℕ, suc, ◌+◌, ◌-◌, Bool, true, not, ◌&&◌, ◌||◌, String, List, [], ◌∷◌, ◌++◌, Option, none, some,
  keep, is_empty, tail, max, ltb, leb, ◌==◌, str_eq, if◌then◌else◌, length, any, drop, Result, ok,
  err,
}
use apipi.Base.Dict
use apipi.Base.Dict.{Dict}
use apipi.Outbox.State.{
  Envelope, Held, Buffer, Outbox, emergency_budget, floor_limit, max_message_bytes,
}
use apipi.Outbox.Spool.{store, ensure, floor_of, spool_append, remove_spool}

-- TYPE_FEATURES of src/apipi/protocol/constants.py
unfoldable pub feature_of : String → Option String
feature_of kind =
    if str_eq kind "search.request" || str_eq kind "search.reply"
    then some "search"
    else if str_eq kind "artifact.presign"
        || (str_eq kind "artifact.presign.reply" || str_eq kind "artifact.completed")
    then some "presign"
    else none

pub data AppendError : Type 0 where
  feature_unsupported : String → AppendError
  envelope_too_large : ℕ → AppendError
  outbox_full : AppendError

-- The arguments of append, with the clock and the outcome of the disk write.
pub record Call (P : Type 0) : Type 0 where
  pub session_id : ℕ
  pub kind : String
  pub payload : P
  pub turn_id : Option ℕ
  pub emergency : Bool
  pub now : ℕ
  pub disk : Bool

-- The feature that the API did not advertise, if the type needs one.
unfoldable pub missing_feature : List String → String → Option String
unfolding feature_of
missing_feature peer kind = elim (feature_of kind) [
  | none ↦ none
  | some f ↦ if any (λ g. str_eq f g) peer then none else some f
]

-- `deque[0] is envelope` and popleft
unfoldable pub drop_head : {P : Type 0} → List (Held P) → Held P → List (Held P)
drop_head [] e = []
drop_head (x ∷ xs) e = if x.id == e.id then xs else x ∷ xs

-- release: the floors forget their oldest entries past the limit
unfoldable pub remember_floor : Dict ℕ → ℕ → ℕ → Dict ℕ
remember_floor floors s n =
    let d = Dict.remove floors s ++ (s, n) ∷ [] in drop (length d - floor_limit) d

-- The second loop of _trim.
unfoldable pub drop_seen : {P : Type 0} → ℕ → List (Held P) → List (Held P)
drop_seen last [] = []
drop_seen last (e ∷ es) = if leb e.seq last then drop_seen last es else e ∷ es

-- _after_trim
unfoldable pub after_trim : {P : Type 0} → Outbox P → ℕ → Buffer P → Bool → Outbox P
after_trim o s b disk =
    if is_empty b.envelopes && ltb 0 b.spooled
    then store (remove_spool o s disk) s (record b { spooled = 0; dead = 0 })
    else store o s b

module _ {P : Type 0} (size : Envelope P → ℕ) where
  unfoldable pub build : Outbox P → Buffer P → Call P → Held P
  build o b c = record {
    id = o.allocated;
    wire = record {
      session_id = c.session_id;
      seq = b.issued + 1;
      kind = c.kind;
      turn_id = c.turn_id;
      payload = c.payload;
    };
  }

  unfoldable pub over_worker : Outbox P → ℕ → Bool
  over_worker o n = ltb o.max_messages (o.messages + 1) || ltb o.max_bytes (o.bytes + n)

  unfoldable pub over_session : Outbox P → Buffer P → ℕ → Bool
  over_session o b n =
      ltb o.session_messages (length b.envelopes + 1) || ltb o.session_bytes (b.bytes + n)

  unfoldable pub exceeds : Outbox P → Buffer P → ℕ → Bool
  exceeds o b n = over_worker o n || over_session o b n

  -- The bounds hold the envelope back, and the emergency budget does not help.
  unfoldable pub refuses : Outbox P → Buffer P → Call P → Held P → Bool
  refuses o b c e =
      exceeds o b (size e.wire) && not (c.emergency && ltb b.emergency_used emergency_budget)

  -- The buffer that has taken one more envelope.
  unfoldable pub admit : Buffer P → Held P → Bool → ℕ → Buffer P
  admit b e over now = record b {
    emergency_used = if over then b.emergency_used + 1 else b.emergency_used;
    issued = e.seq;
    envelopes = b.envelopes ++ e ∷ [];
    unsent = b.unsent ++ e ∷ [];
    added = b.added ++ now ∷ [];
    bytes = b.bytes + size e.wire;
  }

  -- The part of append behind the size check: the bounds, and the emergency budget.
  unfoldable pub append_bounded :
      Outbox P → Buffer P → Call P → Held P → Outbox P × Result AppendError (Held P)
  append_bounded o b c e =
      let over = exceeds o b (size e.wire) in
      if refuses o b c e then (o, err outbox_full) else (
        spool_append
            (record o {
              messages = o.messages + 1;
              bytes = o.bytes + size e.wire;
              dirty = true;
              allocated = o.allocated + 1;
            })
            c.session_id (admit b e over c.now) e.wire c.disk,
        ok e,
      )

  unfoldable pub append_to : Outbox P → Buffer P → Call P → Outbox P × Result AppendError (Held P)
  append_to o b c =
      let e = build o b c in
      if ltb max_message_bytes (size e.wire)
      then (o, err (envelope_too_large (size e.wire)))
      else append_bounded o b c e

  unfoldable pub append : Outbox P → Call P → Outbox P × Result AppendError (Held P)
  append o c = elim (missing_feature o.peer_features c.kind) [
    | some f ↦ (o, err (feature_unsupported f))
    | none ↦ append_to (ensure o c.session_id).0 (ensure o c.session_id).1 c
  ]

  -- One round of the first loop of _trim: the head `e` is dropped, `es` stays.
  unfoldable pub drop_first : Outbox P → Buffer P → Held P → List (Held P) → Outbox P × Buffer P
  drop_first o b e es = (
    record o { messages = o.messages - 1; bytes = o.bytes - size e.wire },
    record b {
      envelopes = es;
      added = tail b.added;
      bytes = b.bytes - size e.wire;
      dead = b.dead + 1;
    },
  )

  unfoldable pub trim_envelopes : Outbox P → Buffer P → List (Held P) → ℕ → Outbox P × Buffer P
  unfolding drop_first
  trim_envelopes o b [] last = (o, b)
  trim_envelopes o b (e ∷ es) last =
      let rest = trim_envelopes (drop_first o b e es).0 (drop_first o b e es).1 es last in
      if leb e.seq last then rest else (o, b)

  -- _trim
  unfoldable pub trim : Outbox P → Buffer P → ℕ → Outbox P × Buffer P
  trim o b last =
      let (o', b') = trim_envelopes o b b.envelopes last in
      (o', record b' { unsent = drop_seen last b'.unsent })

  -- set_base
  unfoldable pub set_base : Outbox P → ℕ → ℕ → Bool → Outbox P
  set_base o s last disk =
      let (o₁, b₁) = ensure o s in
      let (o₂, b₂) = trim o₁ b₁ last in
      after_trim o₂ s
        (record b₂ {
          acked = max b₂.acked last;
          issued = max b₂.issued last;
          sent = max b₂.sent (max b₂.acked last);
        })
        disk

  -- acked
  unfoldable pub acked : Outbox P → ℕ → ℕ → Bool → Outbox P
  acked o s last disk = elim (Dict.get o.sessions s) [
    | none ↦ o
    | some b ↦
        let (o', b') = trim o b last in
        after_trim o' s
          (record b' { acked = max b'.acked last; sent = max b'.sent (max b'.acked last) }) disk
  ]

module _ {P : Type 0} where
  -- high_water and acked_seq
  unfoldable pub high_water : Outbox P → ℕ → ℕ
  unfolding floor_of
  high_water o s = elim (Dict.get o.sessions s) [ none ↦ floor_of o.floors s | some b ↦ b.issued ]

  unfoldable pub acked_seq : Outbox P → ℕ → ℕ
  unfolding floor_of
  acked_seq o s = elim (Dict.get o.sessions s) [ none ↦ floor_of o.floors s | some b ↦ b.acked ]

  -- pending(session_id, after_seq)
  unfoldable pub pending : Outbox P → ℕ → ℕ → List (Held P)
  pending o s after = elim (Dict.get o.sessions s) [
    | none ↦ []
    | some b ↦ keep (λ e. ltb after e.seq) b.envelopes
  ]

  -- begin_connection: how many envelopes of one buffer were sent before
  unfoldable pub count_sent : ℕ → List (Held P) → ℕ
  count_sent sent [] = 0
  count_sent sent (e ∷ es) = if ltb sent e.seq then 0 else suc (count_sent sent es)

  unfoldable pub rewind : Buffer P → Buffer P
  rewind b = record b { sent = b.acked; unsent = b.envelopes }

  unfoldable pub begin_connection : Outbox P → Outbox P × ℕ
  unfolding rewind count_sent
  begin_connection o = (
    record o { sessions = Dict.map_values rewind o.sessions; dirty = true },
    Dict.total (λ b. count_sent b.sent b.envelopes) o.sessions,
  )

  unfoldable pub next_unsent : Outbox P → ℕ → Option (Held P)
  next_unsent o s = elim (Dict.get o.sessions s) [
    | none ↦ none
    | some b ↦ elim b.unsent [ [] ↦ none | e ∷ _ ↦ some e ]
  ]

  unfoldable pub mark_sent : Outbox P → ℕ → Held P → Outbox P
  mark_sent o s e = elim (Dict.get o.sessions s) [
    | none ↦ o
    | some b ↦ store o s (record b { unsent = drop_head b.unsent e; sent = max b.sent e.seq })
  ]

  -- unsent_sessions and pending_sessions
  unfoldable pub sessions_with : (Buffer P → List (Held P)) → Dict (Buffer P) → List ℕ
  sessions_with f [] = []
  sessions_with f ((s, b) ∷ d) =
      let rest = sessions_with f d in if is_empty (f b) then rest else s ∷ rest

  unfoldable pub unsent_sessions : Outbox P → List ℕ
  unfolding sessions_with
  unsent_sessions o = sessions_with (λ b. b.unsent) o.sessions

  unfoldable pub pending_sessions : Outbox P → List ℕ
  unfolding sessions_with
  pending_sessions o = sessions_with (λ b. b.envelopes) o.sessions

  unfoldable pub release : Outbox P → ℕ → Bool → Outbox P
  release o s disk = elim (Dict.get o.sessions s) [
    | none ↦ o
    | some b ↦
        if not (is_empty b.envelopes)
        then o
        else let o' = record o {
          sessions = Dict.remove o.sessions s;
          floors = remember_floor o.floors s b.issued;
        } in
          if ltb 0 b.spooled then remove_spool o' s disk else o'
  ]

  unfoldable pub drop_session : Outbox P → ℕ → Bool → Outbox P
  drop_session o s disk =
      let o' = record o { floors = Dict.remove o.floors s } in
      elim (Dict.get o.sessions s) [
        | none ↦ remove_spool o' s disk
        | some b ↦
            remove_spool
              (record o' {
                sessions = Dict.remove o.sessions s;
                messages = o.messages - length b.envelopes;
                bytes = o.bytes - b.bytes;
              })
              s disk
      ]
