-- ===== src/Deltas/Ended.antt =====
-- The texts of ended turns (note_stored_events and handle_delta of
-- src/apipi/workerhub/deltas.py).
use apipi.Base.{
  ℕ, String, str_eq, eq_iff, ◌⊎◌, ◌+◌, ◌≤◌, ◌≡◌, refl, Bool, true, false, List, [], ◌∷◌, Option,
  none, some, some_eq, ltb, leb, ==_refl, if◌then◌else◌, length, Bool-cases, Option-cases, inl, inr,
  arith, All,
}
use apipi.Base.Dict
use apipi.Rate.Budget.{relay_rate_allowed}
use apipi.Deltas.Split.{Text}
use apipi.Deltas.Hub.{
  DeltaLease, Hub, Conn, SessionRow, Delta, reasoning_delta, text_delta, other_type, delta_max_text,
  delta_rate_limit, Answer, published, ignored, reasoning_dropped, invalid, oversize, rate_limited,
  rejected, dropped_done, renewed, note_delta_lease, row_lease, refresh_delta_lease, is_known,
  known_hub, is_done, is_in, publish, handle_text, handle_payload, handle_type, DeltaKind,
  handle_delta, Body, done_turn_of, add_done, add_all, note_stored_events, done_cap,
}

-- The ended turns of a session's entry.
abbrev turns_of : Option DeltaLease → List String
turns_of none = []
turns_of (some l) = l.turns_done

renewed-turns_of :
    (old : Option DeltaLease) (worker lease tenant now : ℕ)
    → turns_of (some (renewed old worker lease tenant now)) ≡ turns_of old
renewed-turns_of none worker lease tenant now = refl
renewed-turns_of (some o) worker lease tenant now = refl

refresh-turns_of :
    (h h' : Hub) (c : Conn) (s : ℕ) (row : Option SessionRow) (now : ℕ)
    → refresh_delta_lease h c s row now ≡ some h'
    → turns_of (Dict.get h'.delta_leases s) ≡ turns_of (Dict.get h.delta_leases s)
unfolding refresh_delta_lease note_delta_lease
refresh-turns_of h h' c s none now k = cc
refresh-turns_of h h' c s (some row) now k = elim (Option-cases (row_lease c row)) [
  | inl a ↦ cc (rw (a, refresh_delta_lease) at k)
  | inr (l, a) ↦
      let entry = renewed (Dict.get h.delta_leases s) c.worker_id l row.tenant_id now in
      let e : record h { delta_leases = Dict.put h.delta_leases s entry } ≡ h' =
        some_eq (rw (a, refresh_delta_lease) at k) in
      rw (← e, Dict.get-put h.delta_leases s s entry, ==_refl s)
        (renewed-turns_of (Dict.get h.delta_leases s) c.worker_id l row.tenant_id now)
]

known_hub-turns_of :
    (h h' : Hub) (c : Conn) (s : ℕ) (row : Option SessionRow) (now : ℕ)
    → known_hub h c s row now ≡ some h'
    → turns_of (Dict.get h'.delta_leases s) ≡ turns_of (Dict.get h.delta_leases s)
unfolding known_hub
known_hub-turns_of h h' c s row now k =
    elim (Bool-cases (is_known c now (Dict.get h.delta_leases s))) [
      | inl a ↦ let e : h ≡ h' = some_eq (rw a at k) in rw (← e) refl
      | inr a ↦ refresh-turns_of h h' c s row now (rw a at k)
    ]

abbrev pub is_turn : String → Option String → Bool
is_turn t none = false
is_turn t (some u) = str_eq t u

-- One of the stored events ends the turn.
abbrev pub ends : String → List Body → Bool
ends t [] = false
ends t (b ∷ bs) = if is_turn t (done_turn_of b) then true else ends t bs

length-add_done : (ts : List String) (o : Option String) → length (add_done ts o) ≤ length ts + 1
unfolding add_done
length-add_done ts none = omega arith
length-add_done ts (some u) = ground arith

add_done-is_in :
    (t : String) (ts : List String) (o : Option String)
    → length ts + 1 ≤ done_cap
    → is_in t (add_done ts o) ≡ (if is_turn t o then true else is_in t ts)
unfolding add_done
add_done-is_in t ts none h = refl
add_done-is_in t ts (some u) h =
    let small : leb done_cap (length ts) ≡ false = ground arith in
    elim (Bool-cases (is_in u ts)) [
      | inr a ↦ rw (small, a) refl
      | inl a ↦ elim (Bool-cases (str_eq t u)) [
        | inl b ↦ rw (small, a, b) (rw (← ((eq_iff t u).0 b)) at a)
        | inr b ↦ rw (small, a, b) refl
      ]
    ]

either_comm :
    (a b x : Bool)
    → (if a then true else if b then true else x) ≡ (if if b then true else a then true else x)
either_comm true true x = refl
either_comm true false x = refl
either_comm false true x = refl
either_comm false false x = refl

add_all-is_in :
    (t : String) (ts : List String) (bs : List Body)
    → length ts + length bs ≤ done_cap
    → is_in t (add_all ts bs) ≡ (if ends t bs then true else is_in t ts)
unfolding add_all
add_all-is_in t ts [] h = refl
add_all-is_in t ts (b ∷ bs) h =
    let more = add_done ts (done_turn_of b) in
    let short : length more + length bs ≤ done_cap =
      omega (arith, length-add_done ts (done_turn_of b)) in
    rw (add_all-is_in t more bs short, add_done-is_in t ts (done_turn_of b) (omega arith))
      (either_comm (ends t bs) (is_turn t (done_turn_of b)) (is_in t ts))

-- A delta, with the connection it comes on, what the database has for its session, and the time.
pub record Arrival : Type 0 where
  pub conn : Conn
  pub delta : Delta
  pub row : Option SessionRow
  pub now : ℕ

-- The turn is among the ended ones of the session.
abbrev Ended : String → ℕ → Hub → Type 0
Ended t s h = is_in t (turns_of (Dict.get h.delta_leases s)) ≡ true

module _ (text_of : ℕ → String) where
  -- No text of the turn is published.
  abbrev pub Silent : String → Answer → Type 0
  Silent t (published (some u) text) = str_eq (text_of u) t ≡ false
  Silent t (published none text) = Unit
  Silent t ignored = Unit
  Silent t reasoning_dropped = Unit
  Silent t invalid = Unit
  Silent t oversize = Unit
  Silent t rate_limited = Unit
  Silent t rejected = Unit
  Silent t dropped_done = Unit

  -- Silent, and still ended afterwards unless the delta was rejected.
  abbrev Still : String → ℕ → Hub × Answer → Type 0
  Still t s r = Silent t r.1 × ((r.1 ≡ rejected) ⊎ Ended t s r.0)

  is_done-Silent :
      (turn : Option ℕ) (l : Option DeltaLease) (text : Text) (t : String)
      → is_in t (turns_of l) ≡ true
      → is_done text_of turn l ≡ false
      → Silent t (published turn text)
  is_done-Silent none l text t m d = tt
  is_done-Silent (some u) none text t m d = cc
  is_done-Silent (some u) (some l) text t m d = elim (Bool-cases (str_eq (text_of u) t)) [
    | inr a ↦ a
    | inl a ↦ let other : is_in t l.turns_done ≡ false = rw (← ((eq_iff (text_of u) t).0 a)) d in cc
  ]

  publish-Still :
      (h : Hub) (c : Conn) (s : ℕ) (row : Option SessionRow) (now : ℕ) (turn : Option ℕ)
      (text : Text) (t : String)
      → Ended t s h
      → Still t s (publish text_of h c s row now turn text)
  unfolding publish
  publish-Still h c s row now turn text t m = elim (Option-cases (known_hub h c s row now)) [
    | inl a ↦ rw (publish, a) (tt, inl refl)
    | inr (h', a) ↦
        let there : Ended t s h' = rw (known_hub-turns_of h h' c s row now a) m in
        elim (Bool-cases (is_done text_of turn (Dict.get h'.delta_leases s))) [
          | inl d ↦ rw (publish, a, d) (tt, inr there)
          | inr d ↦
              rw (publish, a, d)
                (is_done-Silent turn (Dict.get h'.delta_leases s) text t there d, inr there)
        ]
  ]

  handle_text-Still :
      (h : Hub) (c : Conn) (s : ℕ) (row : Option SessionRow) (now : ℕ) (turn : Option ℕ)
      (text : Text) (t : String)
      → Ended t s h
      → Still t s (handle_text text_of h c s row now turn text)
  unfolding handle_text
  handle_text-Still h c s row now turn [] t m = (tt, inr m)
  handle_text-Still h c s row now turn (x ∷ text) t m =
      let budget = relay_rate_allowed (Dict.get_or h.delta_hits s []) now delta_rate_limit in
      let h' = record h { delta_hits = Dict.put h.delta_hits s budget.0 } in
      elim (Bool-cases (ltb delta_max_text (length (x ∷ text)))) [
        | inl a ↦ rw a (tt, inr m)
        | inr a ↦ elim (Bool-cases budget.1) [
          | inr b ↦ rw (a, b) (tt, inr m)
          | inl b ↦ rw (a, b) (publish-Still h' c s row now turn (x ∷ text) t m)
        ]
      ]

  handle_payload-Still :
      (h : Hub) (c : Conn) (s : ℕ) (row : Option SessionRow) (now : ℕ)
      (payload : Option (Option ℕ × Text)) (t : String)
      → Ended t s h
      → Still t s (handle_payload text_of h c s row now payload)
  unfolding handle_payload
  handle_payload-Still h c s row now none t m = (tt, inr m)
  handle_payload-Still h c s row now (some (turn, text)) t m =
      handle_text-Still h c s row now turn text t m

  handle_type-Still :
      (h : Hub) (c : Conn) (d : Delta) (row : Option SessionRow) (now : ℕ) (kind : DeltaKind)
      (t : String)
      → Ended t d.session_id h
      → Still t d.session_id (handle_type text_of h c d row now kind)
  unfolding handle_type
  handle_type-Still h c d row now reasoning_delta t m = (tt, inr m)
  handle_type-Still h c d row now other_type t m = (tt, inr m)
  handle_type-Still h c d row now text_delta t m =
      handle_payload-Still h c d.session_id row now d.payload t m

  -- None of the deltas publishes text of the turn, up to the first that is rejected, which makes the
  -- hub forget the session.
  abbrev pub SilentUntil : String → Hub → List Arrival → Type 0
  SilentUntil t h [] = Unit
  SilentUntil t h (a ∷ ds) =
      let r = handle_delta text_of h a.conn a.delta a.row a.now in
      Silent t r.1 × ((r.1 ≡ rejected) ⊎ SilentUntil t r.0 ds)

  silent_from :
      (t : String) (s : ℕ) (h : Hub) (ds : List Arrival)
      → All (λ a. a.delta.session_id ≡ s) ds
      → Ended t s h
      → SilentUntil t h ds
  unfolding handle_delta
  silent_from t s h [] same m = tt
  silent_from t s h (a ∷ ds) (e, same) m =
      let still = handle_type-Still h a.conn a.delta a.row a.now a.delta.kind t (rw e m) in
      (
        still.0,
        elim still.1 [
          | inl x ↦ inl x
          | inr x ↦ inr (
              silent_from t s (handle_delta text_of h a.conn a.delta a.row a.now).0 ds same
                (rw (← e) x))
        ],
      )

  -- A session with an entry, and stored events of which one ends a turn and which the entry has room
  -- for. Of the deltas of the session that are handled next, on whatever connections and at whatever
  -- times, up to and with the first that is rejected, and with no further events stored between
  -- them, none publishes text of that turn.
  pub note_stored_events-Silent :
      (h : Hub) (s : ℕ) (l : DeltaLease) (bodies : List Body) (ds : List Arrival) (t : String)
      → Dict.get h.delta_leases s ≡ some l
      → length l.turns_done + length bodies ≤ done_cap
      → ends t bodies ≡ true
      → All (λ a. a.delta.session_id ≡ s) ds
      → SilentUntil t (note_stored_events h s bodies) ds
  unfolding note_stored_events
  note_stored_events-Silent h s l bodies ds t g room e same =
      let entry = record l { turns_done = add_all l.turns_done bodies } in
      let h' = record h { delta_leases = Dict.put h.delta_leases s entry } in
      let there : Ended t s h' =
        rw
          (
            Dict.get-put h.delta_leases s s entry,
            ==_refl s,
            add_all-is_in t l.turns_done bodies room,
            e,
          )
          refl in
      rw (g, note_stored_events) (silent_from t s h' ds same there)
