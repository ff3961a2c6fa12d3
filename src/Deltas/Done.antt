-- ===== src/Deltas/Done.antt =====
-- Which deltas the API publishes (handle_delta of src/apipi/workerhub/deltas.py).
use apipi.Base.{
  ℕ, ◌≤◌, ◌≡◌, refl, true, false, [], ◌∷◌, Option, none, some, some_eq, ltb, leb→le, ltb→ge, ◌==◌,
  String, ==_eq, ==_refl, length, Bool-cases, Option-cases, inl, inr, arith,
}
use apipi.Base.Dict
use apipi.Ingest.Batch.{mem}
use apipi.Rate.Budget.{relay_rate_allowed}
use apipi.Deltas.Split.{Text}
use apipi.Deltas.Hub.{
  DeltaLease, Hub, Conn, SessionRow, Delta, reasoning_delta, text_delta, other_type, delta_max_text,
  delta_rate_limit, Answer, published, ignored, reasoning_dropped, invalid, oversize, rate_limited,
  rejected, dropped_done, renewed, note_delta_lease, row_lease, refresh_delta_lease, is_known,
  known_hub, is_done, publish, handle_text, handle_payload, handle_type, DeltaKind, handle_delta,
}

-- The entry of a session is of the connection and of a lease that it holds.
abbrev pub Leased : Conn → Option DeltaLease → Type 0
Leased c l =
    (m : DeltaLease) × (l ≡ some m) × (m.worker_id ≡ c.worker_id) × (mem m.lease_id c.leases ≡ true)

is_known-Leased :
    (c : Conn) (now : ℕ) (l : Option DeltaLease) → is_known c now l ≡ true → Leased c l
is_known-Leased c now none k = cc
is_known-Leased c now (some l) k = elim (Bool-cases (l.worker_id == c.worker_id)) [
  | inr a ↦ cc (rw a at k)
  | inl a ↦ elim (Bool-cases (mem l.lease_id c.leases)) [
    | inr b ↦ cc (rw (a, b) at k)
    | inl b ↦ (l, refl, ==_eq l.worker_id c.worker_id a, b)
  ]
]

row_lease-mem :
    (c : Conn) (row : SessionRow) (l : ℕ) → row_lease c row ≡ some l → mem l c.leases ≡ true
unfolding row_lease
row_lease-mem c row l h = elim (Option-cases row.worker_id) [
  | inl a ↦ cc (rw (a, row_lease) at h)
  | inr (w, a) ↦ elim (Bool-cases (w == c.worker_id)) [
    | inr b ↦ cc (rw (row_lease, a, b) at h)
    | inl b ↦ elim (Option-cases row.lease_id) [
      | inl d ↦ cc (rw (row_lease, a, b, d) at h)
      | inr (m, d) ↦ elim (Bool-cases (mem m c.leases)) [
        | inr e ↦ cc (rw (row_lease, a, b, d, e) at h)
        | inl e ↦ let same : m ≡ l = some_eq (rw (row_lease, a, b, d, e) at h) in rw (← same) e
      ]
    ]
  ]
]

renewed-Leased :
    (c : Conn) (old : Option DeltaLease) (l tenant now : ℕ)
    → mem l c.leases ≡ true
    → Leased c (some (renewed old c.worker_id l tenant now))
renewed-Leased c none l tenant now m = (renewed none c.worker_id l tenant now, refl, refl, m)
renewed-Leased c (some o) l tenant now m =
    (renewed (some o) c.worker_id l tenant now, refl, refl, m)

refresh-Leased :
    (h h' : Hub) (c : Conn) (s : ℕ) (row : Option SessionRow) (now : ℕ)
    → refresh_delta_lease h c s row now ≡ some h'
    → (h'.delta_hits ≡ h.delta_hits) × Leased c (Dict.get h'.delta_leases s)
unfolding refresh_delta_lease note_delta_lease
refresh-Leased h h' c s none now k = cc
refresh-Leased h h' c s (some row) now k = elim (Option-cases (row_lease c row)) [
  | inl a ↦ cc (rw (a, refresh_delta_lease) at k)
  | inr (l, a) ↦
      let entry = renewed (Dict.get h.delta_leases s) c.worker_id l row.tenant_id now in
      let e : record h { delta_leases = Dict.put h.delta_leases s entry } ≡ h' =
        some_eq (rw (a, refresh_delta_lease) at k) in
      rw (← e, Dict.get-put h.delta_leases s s entry, ==_refl s)
        (
          refl,
          renewed-Leased c (Dict.get h.delta_leases s) l row.tenant_id now
              (row_lease-mem c row l a),
        )
]

-- The memory behind a delta that is let through: the hits are those there were, and the entry is of
-- a lease of the connection, with the ended turns that it had.
known_hub-Leased :
    (h h' : Hub) (c : Conn) (s : ℕ) (row : Option SessionRow) (now : ℕ)
    → known_hub h c s row now ≡ some h'
    → (h'.delta_hits ≡ h.delta_hits) × Leased c (Dict.get h'.delta_leases s)
unfolding known_hub
known_hub-Leased h h' c s row now k =
    elim (Bool-cases (is_known c now (Dict.get h.delta_leases s))) [
      | inl a ↦
          let e : h ≡ h' = some_eq (rw a at k) in
          rw (← e) (refl, is_known-Leased c now (Dict.get h.delta_leases s) a)
      | inr a ↦ refresh-Leased h h' c s row now (rw a at k)
    ]

-- `text_of` prints the turn that a delta names.
module _ (text_of : ℕ → String) where
  -- What holds where a delta is published.
  abbrev pub Granted : Conn → ℕ → Hub → Answer → Type 0
  Granted c s h (published turn text) =
      (1 ≤ length text)
      × (length text ≤ delta_max_text)
      × (length (Dict.get_or h.delta_hits s []) ≤ delta_rate_limit)
      × Leased c (Dict.get h.delta_leases s)
      × (is_done text_of turn (Dict.get h.delta_leases s) ≡ false)
  Granted c s h ignored = Unit
  Granted c s h reasoning_dropped = Unit
  Granted c s h invalid = Unit
  Granted c s h oversize = Unit
  Granted c s h rate_limited = Unit
  Granted c s h rejected = Unit
  Granted c s h dropped_done = Unit

  publish-Granted :
      (h : Hub) (c : Conn) (s : ℕ) (row : Option SessionRow) (now : ℕ) (turn : Option ℕ)
      (text : Text)
      → 1 ≤ length text
      → length text ≤ delta_max_text
      → length (Dict.get_or h.delta_hits s []) ≤ delta_rate_limit
      → let (h', answer) = publish text_of h c s row now turn text in Granted c s h' answer
  unfolding publish
  publish-Granted h c s row now turn text n m b = elim (Option-cases (known_hub h c s row now)) [
    | inl a ↦ rw (a, publish) tt
    | inr (h', a) ↦
        let (hits, leased) = known_hub-Leased h h' c s row now a in
        elim (Bool-cases (is_done text_of turn (Dict.get h'.delta_leases s))) [
          | inl d ↦ rw (publish, a, d) tt
          | inr d ↦ rw (publish, a, d) (n, m, rw hits b, leased, d)
        ]
  ]

  handle_text-Granted :
      (h : Hub) (c : Conn) (s : ℕ) (row : Option SessionRow) (now : ℕ) (turn : Option ℕ)
      (text : Text)
      → let (h', answer) = handle_text text_of h c s row now turn text in Granted c s h' answer
  unfolding handle_text relay_rate_allowed
  handle_text-Granted h c s row now turn [] = tt
  handle_text-Granted h c s row now turn (x ∷ text) =
      let budget = relay_rate_allowed (Dict.get_or h.delta_hits s []) now delta_rate_limit in
      let h' = record h { delta_hits = Dict.put h.delta_hits s budget.0 } in
      elim (Bool-cases (ltb delta_max_text (length (x ∷ text)))) [
        | inl a ↦ rw a tt
        | inr a ↦ elim (Bool-cases budget.1) [
          | inr b ↦ rw (a, b) tt
          | inl b ↦
              let hits : Dict.get_or h'.delta_hits s [] ≡ budget.0 =
                rw (Dict.get_or-put h.delta_hits s s budget.0 [], ==_refl s) refl in
              rw (a, b)
                (publish-Granted h' c s row now turn (x ∷ text) (omega arith)
                  (ltb→ge delta_max_text (length (x ∷ text)) a)
                  (rw hits (leb→le (length budget.0) delta_rate_limit b)))
        ]
      ]

  handle_payload-Granted :
      (h : Hub) (c : Conn) (s : ℕ) (row : Option SessionRow) (now : ℕ)
      (payload : Option (Option ℕ × Text))
      → let (h', answer) = handle_payload text_of h c s row now payload in Granted c s h' answer
  unfolding handle_payload
  handle_payload-Granted h c s row now none = tt
  handle_payload-Granted h c s row now (some (turn, text)) =
      handle_text-Granted h c s row now turn text

  handle_type-Granted :
      (h : Hub) (c : Conn) (d : Delta) (row : Option SessionRow) (now : ℕ) (kind : DeltaKind)
      → let (h', answer) = handle_type text_of h c d row now kind in
        Granted c d.session_id h' answer
  unfolding handle_type
  handle_type-Granted h c d row now reasoning_delta = tt
  handle_type-Granted h c d row now other_type = tt
  handle_type-Granted h c d row now text_delta =
      handle_payload-Granted h c d.session_id row now d.payload

  -- Where a delta is published its text is neither empty nor over the limit, the session's budget of
  -- the second holds, the session's entry is of the connection's worker and of a lease that the
  -- connection holds, and the turn is not among those that have ended.
  pub handle_delta-Granted :
      (h : Hub) (c : Conn) (d : Delta) (row : Option SessionRow) (now : ℕ)
      → let (h', answer) = handle_delta text_of h c d row now in Granted c d.session_id h' answer
  unfolding handle_delta
  handle_delta-Granted h c d row now = handle_type-Granted h c d row now d.kind
