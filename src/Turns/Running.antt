-- ===== src/Turns/Running.antt =====
-- At most one turn of a session runs, through every write of src/apipi/services/ingest.py.
use apipi.Base.{
  ℕ, suc, ◌≤◌, ◌≡◌, refl, ◌≢◌, false, ◌&&◌, String, str_eq, List, [], ◌∷◌, none, some, ◌==◌,
  if◌then◌else◌, Bool-cases, Option-cases, ==_eq, inl, inr, arith,
}
use apipi.Ingest.Batch.{applied}
use apipi.Turns.Store.{
  Turn, Store, get_turn, get_session_turn, get_running_turn, is_running, create_turn, update_turn,
  set_status, set_usage, in_progress,
}
use apipi.Turns.Validate.{turn_id_of, check_started}
use apipi.Turns.Apply.{start_turn, end_turn}

-- A turn in progress is the newest of its session, and no id stands twice.
abbrev pub TurnsOk : List Turn → Type 0
TurnsOk [] = Unit
TurnsOk (r ∷ rs) =
    (get_running_turn rs r.session_id ≡ none) × (get_turn rs r.id ≡ none) × TurnsOk rs

-- The turn that runs is one of the table.
pub get_running_turn-get_turn :
    (rs : List Turn) (s : ℕ) (r : Turn) → get_running_turn rs s ≡ some r → get_turn rs r.id ≢ none
unfolding get_running_turn get_turn
get_running_turn-get_turn [] s r h n = ground arith
get_running_turn-get_turn (q ∷ qs) s r h n = elim (Bool-cases (q.session_id == s && is_running q)) [
  | inl a ↦ let e : q ≡ r = cc (rw a at h) in ground arith
  | inr a ↦ ground (arith, get_running_turn-get_turn qs s r (rw a at h))
]

-- A write to a turn that keeps its id and session and starts nothing.
abbrev pub Quiet : (Turn → Turn) → Type 0
Quiet f =
    (r : Turn)
    → ((f r).id ≡ r.id)
      × ((f r).session_id ≡ r.session_id)
      × (is_running r ≡ false → is_running (f r) ≡ false)

module _ (f : Turn → Turn) (quiet : Quiet f) where
  update_turn-get_turn :
      (rs : List Turn) (t u : ℕ) → get_turn rs u ≡ none → get_turn (update_turn f rs t) u ≡ none
  unfolding get_turn update_turn
  update_turn-get_turn [] t u h = refl
  update_turn-get_turn (r ∷ rs) t u h = elim (Bool-cases (r.id == u)) [
    | inl a ↦ cc (rw a at h)
    | inr a ↦ elim (Bool-cases (r.id == t)) [
      | inl b ↦ rw (b, (quiet r).0, a) (rw a at h)
      | inr b ↦ rw (b, a) (update_turn-get_turn rs t u (rw a at h))
    ]
  ]

  update_turn-get_running_turn :
      (rs : List Turn) (t s : ℕ)
      → get_running_turn rs s ≡ none
      → get_running_turn (update_turn f rs t) s ≡ none
  unfolding get_running_turn update_turn
  update_turn-get_running_turn [] t s h = refl
  update_turn-get_running_turn (r ∷ rs) t s h =
      let (i, k, q) = quiet r in
      let rec' = update_turn-get_running_turn rs t s in
      elim (Bool-cases (r.id == t)) [
        | inl b ↦ rw (b, k) (ground arith)
        | inr b ↦ rw b (ground arith)
      ]

  pub update_turn-TurnsOk : (rs : List Turn) (t : ℕ) → TurnsOk rs → TurnsOk (update_turn f rs t)
  unfolding update_turn
  update_turn-TurnsOk [] t h = tt
  update_turn-TurnsOk (r ∷ rs) t h = elim (Bool-cases (r.id == t)) [
    | inl b ↦ rw (b, (quiet r).0, (quiet r).1) h
    | inr b ↦ rw b (
      update_turn-get_running_turn rs t r.session_id h.0,
      update_turn-get_turn rs t r.id h.1,
      update_turn-TurnsOk rs t h.2,
    )
  ]

-- A turn that may start and is not in the table: none runs.
running_none :
    (rs : List Turn) (s t : ℕ)
    → check_started (some t) (turn_id_of (get_running_turn rs s)) ≡ none
    → get_turn rs t ≡ none
    → get_running_turn rs s ≡ none
unfolding check_started
running_none rs s t c b = elim (Option-cases (get_running_turn rs s)) [
  | inl q ↦ q
  | inr (r, q) ↦ elim (Bool-cases (r.id == t)) [
    | inl i ↦ elim (get_running_turn-get_turn rs s r q (rw (==_eq r.id t i) b)) [ ]
    | inr i ↦ cc (rw (q, i) at c)
  ]
]

pub start_turn-TurnsOk :
    {R : Type 0} (st st' : Store R) (s t : ℕ)
    → TurnsOk st.turns
    → check_started (some t) (turn_id_of (get_running_turn st.turns s)) ≡ none
    → start_turn st s t ≡ applied st'
    → TurnsOk st'.turns
unfolding start_turn create_turn
start_turn-TurnsOk st st' s t ok c h = elim (Option-cases (get_session_turn st.turns s t)) [
  | inr (r, a) ↦ let e : st ≡ st' = cc (rw (a, start_turn) at h) in rw (← e) ok
  | inl a ↦ elim (Option-cases (get_turn st.turns t)) [
    | inr (r, b) ↦ cc (rw (start_turn, a, create_turn, b) at h)
    | inl b ↦
        let e : record st {
          turns = record { id = t; session_id = s; status = in_progress; usage = none } ∷ st.turns;
        }
            ≡ st' =
          cc (rw (start_turn, a, create_turn, b) at h) in
        rw (← e) (running_none st.turns s t c b, b, ok)
  ]
]

pub set_usage-Quiet : (usage : ℕ) → Quiet (set_usage usage)
unfolding is_running
set_usage-Quiet usage r = (refl, refl, λ h. h)

set_status-Quiet : (status : String) → str_eq status in_progress ≡ false → Quiet (set_status status)
unfolding is_running
set_status-Quiet status h r = (refl, refl, λ _. h)

pub end_turn-TurnsOk :
    {R : Type 0} (st st' : Store R) (s t : ℕ) (status : String)
    → TurnsOk st.turns
    → str_eq status in_progress ≡ false
    → end_turn st s t status ≡ applied st'
    → TurnsOk st'.turns
unfolding end_turn
end_turn-TurnsOk st st' s t status ok n h = elim (Option-cases (get_session_turn st.turns s t)) [
  | inl a ↦ cc (rw (a, end_turn) at h)
  | inr (r, a) ↦
      let e : record st { turns = update_turn (set_status status) st.turns t } ≡ st' =
        cc (rw (a, end_turn) at h) in
      rw (← e) (update_turn-TurnsOk (set_status status) (set_status-Quiet status n) st.turns t ok)
]

-- The turns of a session in progress.
unfoldable pub running_count : List Turn → ℕ → ℕ
running_count [] s = 0
running_count (r ∷ rs) s =
    let rest = running_count rs s in if r.session_id == s && is_running r then suc rest else rest

running_count-none :
    (rs : List Turn) (s : ℕ) → get_running_turn rs s ≡ none → running_count rs s ≡ 0
unfolding running_count get_running_turn
running_count-none [] s h = refl
running_count-none (r ∷ rs) s h = ground (arith, running_count-none rs s)

pub running_count-TurnsOk : (rs : List Turn) (s : ℕ) → TurnsOk rs → running_count rs s ≤ 1
unfolding running_count
running_count-TurnsOk [] s h = ground arith
running_count-TurnsOk (r ∷ rs) s h = elim (Bool-cases (r.session_id == s && is_running r)) [
  | inl a ↦
      let e : r.session_id ≡ s = ground arith in
      let z : running_count rs s ≡ 0 = running_count-none rs s (rw e at (h.0)) in
      rw (a, z) (ground arith)
  | inr a ↦ rw a (running_count-TurnsOk rs s h.2)
]
