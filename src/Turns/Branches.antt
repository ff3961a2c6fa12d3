-- ===== src/Turns/Branches.antt =====
-- What each branch of `_apply` (src/apipi/services/ingest.py) does to a property of the turns.
use apipi.Base.{
  ℕ, ◌≡◌, refl, Bool, true, false, not, ◌||◌, str_eq, List, ◌==◌, if◌then◌else◌, Bool-cases,
  Option-cases, inl, inr,
}
use apipi.Ingest.Batch.{Row, Verdict, applied, refused, failed, transient}
use apipi.Turns.Store.{
  Turn, Store, SessionEvent, get_session_turn, get_item, update_turn, set_usage,
}
use apipi.Turns.Validate.{id_of, Envelope}
use apipi.Turns.Apply.{
  append_event, item_turn, agrees, with_other, apply_turn_status, create_item, finish_item,
  apply_item_done, apply_event, apply_session_status, apply_error, apply_item_added, apply_usage,
  apply_rest, apply,
}

-- A property of the tables after a verdict, where there are any.
abbrev pub Then : {S : Type 0} → (S → Type 0) → Verdict S → Type 0
Then P (applied c) = P c
Then P (refused _) = Unit
Then P failed = Unit
Then P transient = Unit

pub Then-applied :
    {S : Type 0} (P : S → Type 0) (v : Verdict S) → ((c : S) → v ≡ applied c → P c) → Then P v
Then-applied P (applied c) f = f c refl
Then-applied P (refused _) f = tt
Then-applied P failed f = tt
Then-applied P transient f = tt

module _ {R : Type 0} (P : List Turn → Type 0) where
  abbrev pub After : Verdict (Store R) → Type 0
  After v = Then (λ st. P st.turns) v

  abbrev pub UsageKeeps : Store R → Envelope → Type 0
  UsageKeeps st e = (t : ℕ) → P (update_turn (set_usage e.usage) st.turns t)

  pub with_other-After :
      (st : Store R) (v : Verdict (R × List SessionEvent)) → P st.turns → After (with_other st v)
  unfolding with_other
  with_other-After st (applied (r, evs)) h = h
  with_other-After st (refused _) h = tt
  with_other-After st failed h = tt
  with_other-After st transient h = tt

  if-After : (b : Bool) (x y : Verdict (Store R)) → After x → After y → After (if b then x else y)
  if-After true x y h k = h
  if-After false x y h k = k

  apply_event-After : (st : Store R) (e : Envelope) → P st.turns → After (apply_event st e)
  unfolding append_event apply_event
  apply_event-After st e ok = elim (Option-cases e.inner) [
    | inl a ↦ rw (apply_event, a) tt
    | inr (inner, a) ↦ rw (apply_event, a) ok
  ]

  apply_item_done-After : (st : Store R) (e : Envelope) → P st.turns → After (apply_item_done st e)
  unfolding apply_item_done finish_item
  apply_item_done-After st e ok = elim (Option-cases (id_of e.item_id)) [
    | inl a ↦ rw (apply_item_done, a) tt
    | inr (i, a) ↦ elim (Option-cases (get_item st.items i)) [
      | inl b ↦ rw (apply_item_done, a, b) tt
      | inr (r, b) ↦
          rw (apply_item_done, a, b)
            (if-After (not (r.session_id == e.session_id)) _ _ tt
              (if-After (not (agrees e.payload_turn r.turn_id)) _ _ tt ok))
    ]
  ]

  module _ (other : R → Row → Envelope → Verdict (R × List SessionEvent)) where
    apply_item_added-After :
        (st : Store R) (row : Row) (e : Envelope)
        → P st.turns
        → After (apply_item_added other st row e)
    unfolding apply_item_added create_item
    apply_item_added-After st row e ok = elim (Option-cases (id_of e.item_id)) [
      | inl a ↦ rw (apply_item_added, a) tt
      | inr (i, a) ↦ elim (Option-cases (item_turn e.payload_turn)) [
        | inl b ↦ rw (apply_item_added, a, b) tt
        | inr (turn, b) ↦ elim (Option-cases (get_item st.items i)) [
          | inr (r, c) ↦ rw (apply_item_added, a, b, c) ok
          | inl c ↦
              rw (apply_item_added, a, b, c)
                (with_other-After (create_item st e i turn) (other st.other row e) ok)
        ]
      ]
    ]

    apply_usage-After :
        (st : Store R) (row : Row) (e : Envelope)
        → UsageKeeps st e
        → After (apply_usage other st row e)
    unfolding apply_usage
    apply_usage-After st row e u = elim (Option-cases (id_of e.payload_turn)) [
      | inl a ↦ rw (apply_usage, a) tt
      | inr (t, a) ↦ elim (Option-cases (get_session_turn st.turns e.session_id t)) [
        | inl b ↦ rw (apply_usage, a, b) tt
        | inr (r, b) ↦
            let turns = update_turn (set_usage e.usage) st.turns t in
            rw (apply_usage, a, b)
              (with_other-After (record st { turns = turns }) (other st.other row e) (u t))
      ]
    ]

    apply_rest-After :
        (st : Store R) (row : Row) (e : Envelope)
        → P st.turns
        → UsageKeeps st e
        → After (apply_rest other st row e)
    unfolding apply_rest apply_session_status apply_error append_event
    apply_rest-After st row e ok u =
        if-After (str_eq e.kind "item.added") _ _ (apply_item_added-After st row e ok) (
          if-After (str_eq e.kind "item.done") _ _ (apply_item_done-After st e ok) (
            if-After (str_eq e.kind "usage") _ _ (apply_usage-After st row e u) (
              if-After (str_eq e.kind "event") _ _ (apply_event-After st e ok) (
                if-After (str_eq e.kind "session.status") _ _ ok (
                  if-After (str_eq e.kind "artifact.presign" || str_eq e.kind "artifact.completed")
                    _ _ (with_other-After st (other st.other row e) ok)
                    (if-After (str_eq e.kind "error") _ _ ok tt))))))

    pub apply-After :
        (st : Store R) (row : Row) (e : Envelope)
        → P st.turns
        → UsageKeeps st e
        → (str_eq e.kind "turn.status" ≡ true → After (apply_turn_status st e))
        → After (apply other st row e)
    unfolding apply
    apply-After st row e ok u k =
        if-After (str_eq e.kind "sandbox.status") _ _
          (with_other-After st (other st.other row e) ok)
          (if-After (str_eq e.kind "session.stopped" || str_eq e.kind "workspace.reaped") _ _ ok (
            if-After (str_eq e.kind "lifecycle.start" || str_eq e.kind "lifecycle.stop") _ _
              (with_other-After st (other st.other row e) ok)
              (elim (Bool-cases (str_eq e.kind "turn.status")) [
                | inl q ↦ rw q (k q)
                | inr q ↦ rw q (apply_rest-After st row e ok u)
              ])))
