-- ===== src/Turns/Same.antt =====
-- What `_apply` of src/apipi/services/ingest.py leaves as it was for the readers of the turns.
use apipi.Base.{
  ℕ, ◌≡◌, refl, true, false, String, str_eq, List, [], ◌∷◌, some, ◌==◌, Bool-cases, Option-cases,
  ==_eq, inl, inr, some_eq,
}
use apipi.Ingest.Batch.{Row, Verdict}
use apipi.Turns.Store.{
  Turn, Store, SessionEvent, get_turn, get_session_turn, get_running_turn, get_latest_turn,
  is_running, create_turn, update_turn, set_usage, set_status,
}
use apipi.Turns.Validate.{Envelope, running_now, latest_now, id_of}
use apipi.Turns.Apply.{apply, apply_turn_status, start_turn, end_turn}
use apipi.Turns.Branches.{After, apply-After}

-- Two states of the turns that read the same for a session.
abbrev pub Same : List Turn → ℕ → List Turn → Type 0
Same turns s turns' =
    (running_now turns' s ≡ running_now turns s) × (latest_now turns' s ≡ latest_now turns s)

-- A turn on top of both, whose status may differ where it is of another session.
Same-cons :
    (r r' : Turn) (rs rs' : List Turn) (s : ℕ)
    → r'.id ≡ r.id
    → r'.session_id ≡ r.session_id
    → ((r.session_id == s) ≡ true → is_running r' ≡ is_running r)
    → Same rs s rs'
    → Same (r ∷ rs) s (r' ∷ rs')
unfolding get_running_turn get_latest_turn is_running
Same-cons r r' rs rs' s i k q h = elim (Bool-cases (r.session_id == s)) [
  | inr a ↦ rw (k, a) h
  | inl a ↦ elim (Bool-cases (is_running r)) [
    | inl b ↦ rw (k, a, q a, b, i) (refl, refl)
    | inr b ↦ rw (k, a, q a, b, i) (h.0, refl)
  ]
]

set_usage-Same :
    (usage : ℕ) (turns : List Turn) (t s : ℕ) → Same turns s (update_turn (set_usage usage) turns t)
unfolding update_turn is_running
set_usage-Same usage [] t s = (refl, refl)
set_usage-Same usage (r ∷ rs) t s = elim (Bool-cases (r.id == t)) [
  | inl b ↦ rw b (Same-cons r (set_usage usage r) rs rs s refl refl (λ _. refl) (refl, refl))
  | inr b ↦ rw b (
      Same-cons r r rs (update_turn (set_usage usage) rs t) s refl refl (λ _. refl)
        (set_usage-Same usage rs t s))
]

set_status-Same :
    (status : String) (turns : List Turn) (t s : ℕ) (r : Turn)
    → get_turn turns t ≡ some r
    → (r.session_id == s) ≡ false
    → Same turns s (update_turn (set_status status) turns t)
unfolding get_turn update_turn
set_status-Same status [] t s q h k = (refl, refl)
set_status-Same status (r ∷ rs) t s q h k = elim (Bool-cases (r.id == t)) [
  | inl b ↦
      let e : r ≡ q = some_eq (rw b at h) in
      rw b (
        Same-cons r (set_status status r) rs rs s refl refl (λ a. cc (rw (e, k) at a)) (refl, refl))
  | inr b ↦ rw b (
      Same-cons r r rs (update_turn (set_status status) rs t) s refl refl (λ _. refl)
        (set_status-Same status rs t s q (rw b at h) k))
]

get_session_turn-get_turn :
    (rs : List Turn) (s t : ℕ) (r : Turn)
    → get_session_turn rs s t ≡ some r
    → (get_turn rs t ≡ some r) × (r.session_id ≡ s)
unfolding get_session_turn
get_session_turn-get_turn rs s t r h = elim (Option-cases (get_turn rs t)) [
  | inl a ↦ cc (rw (get_session_turn, a) at h)
  | inr (q, a) ↦ elim (Bool-cases (q.session_id == s)) [
    | inr b ↦ cc (rw (get_session_turn, a, b) at h)
    | inl b ↦
        let e : q ≡ r = some_eq (rw (get_session_turn, a, b) at h) in
        rw (← e) (a, ==_eq q.session_id s b)
  ]
]

start_turn-Same :
    {R : Type 0} (st : Store R) (u t s : ℕ)
    → (u == s) ≡ false
    → After (Same st.turns s) (start_turn st u t)
unfolding start_turn create_turn get_running_turn get_latest_turn
start_turn-Same st u t s n = elim (Option-cases (get_session_turn st.turns u t)) [
  | inr (r, a) ↦ rw (start_turn, a) (refl, refl)
  | inl a ↦ elim (Option-cases (get_turn st.turns t)) [
    | inr (r, b) ↦ rw (start_turn, a, create_turn, b) tt
    | inl b ↦ rw (start_turn, a, create_turn, b, get_running_turn, get_latest_turn, n) (refl, refl)
  ]
]

end_turn-Same :
    {R : Type 0} (st : Store R) (u t : ℕ) (status : String) (s : ℕ)
    → (u == s) ≡ false
    → After (Same st.turns s) (end_turn st u t status)
unfolding end_turn
end_turn-Same st u t status s n = elim (Option-cases (get_session_turn st.turns u t)) [
  | inl a ↦ rw (end_turn, a) tt
  | inr (r, a) ↦
      let (g, i) = get_session_turn-get_turn st.turns u t r a in
      rw (end_turn, a) (set_status-Same status st.turns t s r g (rw i n))
]

-- `turn.status` of one session leaves what the others read.
turn_status-Same :
    {R : Type 0} (st : Store R) (e : Envelope) (s : ℕ)
    → (e.session_id == s) ≡ false
    → After (Same st.turns s) (apply_turn_status st e)
unfolding apply_turn_status
turn_status-Same st e s n = elim (Option-cases e.status) [
  | inl a ↦ rw (apply_turn_status, a) tt
  | inr (status, a) ↦ elim (Option-cases (id_of e.payload_turn)) [
    | inl b ↦ rw (apply_turn_status, a, b) tt
    | inr (t, b) ↦ elim (Bool-cases (str_eq status "started")) [
      | inl c ↦ rw (apply_turn_status, a, b, c) (start_turn-Same st e.session_id t s n)
      | inr c ↦ rw (apply_turn_status, a, b, c) (end_turn-Same st e.session_id t status s n)
    ]
  ]
]

-- An applied envelope leaves what every session reads, but for `turn.status` and its own session.
pub apply-Same :
    {R : Type 0} (other : R → Row → Envelope → Verdict (R × List SessionEvent)) (st : Store R)
    (row : Row) (e : Envelope) (s : ℕ)
    → (str_eq e.kind "turn.status" ≡ true → (e.session_id == s) ≡ false)
    → After (Same st.turns s) (apply other st row e)
apply-Same other st row e s n =
    apply-After (Same st.turns s) other st row e (refl, refl)
      (λ t. set_usage-Same e.usage st.turns t s) (λ k. turn_status-Same st e s (n k))
