-- ===== src/Turns/Keeps.antt =====
-- Every envelope that passes `_validate` of src/apipi/services/ingest.py keeps the turns in order.
use apipi.Base.{
  ℕ, ◌≡◌, refl, ◌⊎◌, true, false, String, str_eq, eq_iff, List, Option, none, some, Bool-cases,
  Option-cases, inl, inr, ltb,
}
use apipi.Ingest.Batch.{Row, Verdict, applied, is_leased, is_deferred}
use apipi.Outbox.State.{max_message_bytes}
use apipi.Turns.Store.{
  Store, SessionEvent, get_running_turn, get_latest_turn, in_progress, set_usage,
}
use apipi.Turns.Validate.{
  RawId, absent, blank, malformed, is_id, id_of, Envelope, envelope_turn_id, has_status, turn_id_of,
  check_started, check_turn, validate_turns, validate,
}
use apipi.Turns.Apply.{start_turn, end_turn, apply_turn_status, outside, apply_rest, apply}
use apipi.Turns.Branches.{After, Then-applied, with_other-After, apply-After}
use apipi.Turns.Running.{
  TurnsOk, start_turn-TurnsOk, end_turn-TurnsOk, update_turn-TurnsOk, set_usage-Quiet,
}

-- What the parser and the worker's sink make sure of: the two places that name a turn agree, and a
-- status is none that the table uses for a turn in progress.
abbrev pub OneTurn : Envelope → Type 0
OneTurn e =
    ((e.turn_id ≡ none) ⊎ (e.turn_id ≡ id_of e.payload_turn)) × (has_status e in_progress ≡ false)

id_of-is_id : (r : RawId) (t : ℕ) → id_of r ≡ some t → r ≡ is_id t
id_of-is_id (is_id n) t h = cc
id_of-is_id absent t h = cc
id_of-is_id blank t h = cc
id_of-is_id malformed t h = cc

OneTurn-envelope_turn_id :
    (e : Envelope) (t : ℕ) → OneTurn e → id_of e.payload_turn ≡ some t → envelope_turn_id e ≡ some t
unfolding envelope_turn_id
OneTurn-envelope_turn_id e t h p = elim (h.0) [
  | inl n ↦ rw (n, id_of-is_id e.payload_turn t p) refl
  | inr q ↦ rw (q, p) refl
]

-- Two tests of one text.
pub same_text : (k a b : String) → str_eq k a ≡ true → str_eq k b ≡ str_eq a b
same_text k a b h = rw ((eq_iff k a).0 h) refl

-- A started turn that passes validation passes the check of the running turn.
validate-check_started :
    (worker : ℕ) (row : Row) (e : Envelope) (running latest : Option ℕ) (t : ℕ)
    → validate_turns worker row e running latest ≡ none
    → str_eq e.kind "turn.status" ≡ true
    → has_status e "started" ≡ true
    → envelope_turn_id e ≡ some t
    → check_started (some t) running ≡ none
unfolding validate_turns check_turn is_deferred
validate-check_started worker row e running latest t v k s p =
    let text = λ (b : String). same_text e.kind "turn.status" b k in
    elim (Bool-cases (ltb max_message_bytes e.raw_size)) [
      | inl a ↦ cc (rw a at v)
      | inr a ↦ elim (Bool-cases (is_leased worker row)) [
        | inr b ↦ cc (rw (a, b) at v)
        | inl b ↦
            rw
              (
                a,
                b,
                text "sandbox.status",
                text "artifact.presign",
                text "artifact.completed",
                text "session.stopped",
                text "workspace.reaped",
                text "lifecycle.start",
                text "lifecycle.stop",
                text "event",
                text "item.added",
                text "item.done",
                text "usage",
                k,
                s,
                p,
              )
              at v
      ]
    ]

apply_turn_status-TurnsOk :
    {R : Type 0} (worker : ℕ) (st : Store R) (row : Row) (e : Envelope)
    → TurnsOk st.turns
    → OneTurn e
    → str_eq e.kind "turn.status" ≡ true
    → validate worker st.turns row e ≡ none
    → After TurnsOk (apply_turn_status st e)
unfolding validate apply_turn_status
apply_turn_status-TurnsOk worker st row e ok one k v = elim (Option-cases e.status) [
  | inl a ↦ rw (apply_turn_status, a) tt
  | inr (status, a) ↦ elim (Option-cases (id_of e.payload_turn)) [
    | inl b ↦ rw (apply_turn_status, a, b) tt
    | inr (t, b) ↦ elim (Bool-cases (str_eq status "started")) [
      | inl c ↦
          let running = turn_id_of (get_running_turn st.turns e.session_id) in
          let latest = turn_id_of (get_latest_turn st.turns e.session_id) in
          let check =
            validate-check_started worker row e running latest t v k (rw (a, c) refl)
              (OneTurn-envelope_turn_id e t one b) in
          rw (apply_turn_status, a, b, c)
            (Then-applied (λ c. TurnsOk c.turns) (start_turn st e.session_id t)
              (λ st' h. start_turn-TurnsOk st st' e.session_id t ok check h))
      | inr c ↦
          rw (apply_turn_status, a, b, c)
            (Then-applied (λ c. TurnsOk c.turns) (end_turn st e.session_id t status)
              (λ st' h. end_turn-TurnsOk st st' e.session_id t status ok (rw a at one.1) h))
    ]
  ]
]

module _ {R : Type 0} (other : R → Row → Envelope → Verdict (R × List SessionEvent)) where
  -- An envelope that passes validation and is applied keeps the turns in order: a turn in progress is
  -- the newest of its session, and no id stands twice. The envelope names its turn in one way, and
  -- its status is not the table's own word for a turn in progress.
  pub apply-TurnsOk :
      (worker : ℕ) (st st' : Store R) (row : Row) (e : Envelope)
      → TurnsOk st.turns
      → OneTurn e
      → validate worker st.turns row e ≡ none
      → apply other st row e ≡ applied st'
      → TurnsOk st'.turns
  unfolding apply
  apply-TurnsOk worker st st' row e ok one v h =
      let order : After TurnsOk (apply other st row e) =
        apply-After TurnsOk other st row e ok
          (λ t. update_turn-TurnsOk (set_usage e.usage) (set_usage-Quiet e.usage) st.turns t ok)
          (λ k. apply_turn_status-TurnsOk worker st row e ok one k v) in
      rw h at order

  -- The answer to a presign that is in the ledger already, which is not validated again.
  pub apply-presign :
      (st st' : Store R) (row : Row) (e : Envelope)
      → TurnsOk st.turns
      → str_eq e.kind "artifact.presign" ≡ true
      → apply other st row e ≡ applied st'
      → TurnsOk st'.turns
  unfolding apply apply_rest
  apply-presign st st' row e ok k h =
      let text = λ (b : String). same_text e.kind "artifact.presign" b k in
      let order : After TurnsOk (outside other st row e) =
        with_other-After TurnsOk st (other st.other row e) ok in
      let same : outside other st row e ≡ applied st' =
        rw
          (
            text "sandbox.status",
            text "session.stopped",
            text "workspace.reaped",
            text "lifecycle.start",
            text "lifecycle.stop",
            text "turn.status",
            text "item.added",
            text "item.done",
            text "usage",
            text "event",
            text "session.status",
            k,
          )
          at h in
      rw same at order
