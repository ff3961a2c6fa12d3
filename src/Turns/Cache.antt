-- ===== src/Turns/Cache.antt =====
-- _TurnCache of src/apipi/services/ingest.py: the batch's cache of running and latest turns.
use apipi.Base.{
  ℕ, ◌≡◌, refl, sym, ◌∙◌, ap, true, false, str_eq, List, [], Option, none, some, ◌==◌,
  if◌then◌else◌, Bool-cases, Option-cases, ==_eq, ==_eq, inl, inr, some_eq, subst,
}
use apipi.Base.Dict
use apipi.Base.Dict.{Dict}
use apipi.Ingest.Batch.{Reason, Row, Verdict, applied}
use apipi.Turns.Store.{Turn, Store, SessionEvent}
use apipi.Turns.Validate.{Envelope, running_now, latest_now, validate_turns, validate}
use apipi.Turns.Apply.{apply}
use apipi.Turns.Branches.{Then}
use apipi.Turns.Same.{Same, apply-Same}

-- The ids of the cached turns, which is what the readers use; an entry may say that there is none.
pub record TurnCache : Type 0 where
  pub running : Dict (Option ℕ)
  pub latest : Dict (Option ℕ)

abbrev pub empty : TurnCache
empty = record { running = []; latest = [] }

-- A read through the cache fills the entry.
unfoldable pub look_up : (ℕ → Option ℕ) → Dict (Option ℕ) → ℕ → Option ℕ × Dict (Option ℕ)
look_up read d s = elim (Dict.get d s) [ some t ↦ (t, d) | none ↦ (read s, Dict.put d s (read s)) ]

unfoldable pub running_id : List Turn → TurnCache → ℕ → Option ℕ × TurnCache
running_id turns c s =
    let (t, d) = look_up (running_now turns) c.running s in (t, record c { running = d })

unfoldable pub latest_id : List Turn → TurnCache → ℕ → Option ℕ × TurnCache
latest_id turns c s =
    let (t, d) = look_up (latest_now turns) c.latest s in (t, record c { latest = d })

unfoldable pub invalidate : TurnCache → ℕ → TurnCache
invalidate c s = record { running = Dict.remove c.running s; latest = Dict.remove c.latest s }

-- The only call of `invalidate` is at the end of `turn.status`.
unfoldable pub after_apply : TurnCache → Envelope → TurnCache
after_apply c e = if str_eq e.kind "turn.status" then invalidate c e.session_id else c

-- _validate with the cache
unfoldable pub validate_cached : ℕ → List Turn → TurnCache → Row → Envelope → Option Reason
validate_cached worker turns c row e =
    validate_turns worker row e (running_id turns c e.session_id).0
      (latest_id turns c e.session_id).0

-- Each entry of a cache says what a fresh read would.
abbrev Fresh : (ℕ → Option ℕ) → Dict (Option ℕ) → Type 0
Fresh read d = (s : ℕ) (t : Option ℕ) → Dict.get d s ≡ some t → t ≡ read s

abbrev Coherent : List Turn → TurnCache → Type 0
Coherent turns c = Fresh (running_now turns) c.running × Fresh (latest_now turns) c.latest

nothing_cached : (read : ℕ → Option ℕ) → Fresh read []
unfolding Dict.get
nothing_cached read s t h = cc

look_up-Fresh :
    (read : ℕ → Option ℕ) (d : Dict (Option ℕ)) (s : ℕ)
    → Fresh read d
    → ((look_up read d s).0 ≡ read s) × Fresh read (look_up read d s).1
unfolding look_up
look_up-Fresh read d s h = elim (Option-cases (Dict.get d s)) [
  | inr (t, g) ↦ rw (look_up, g) (h s t g, h)
  | inl g ↦
      rw (look_up, g)
        (
          refl,
          λ u t g'. elim (Bool-cases (s == u)) [
            | inl e ↦
                let now : read s ≡ t = some_eq (rw (Dict.get-put d s u (read s), e) at g') in
                sym now ∙ ap read (==_eq s u e)
            | inr e ↦ h u t (rw (Dict.get-put d s u (read s), e) at g')
          ],
        )
]

remove-Fresh :
    (read read' : ℕ → Option ℕ) (d : Dict (Option ℕ)) (s : ℕ)
    → Fresh read d
    → ((u : ℕ) → (s == u) ≡ false → read' u ≡ read u)
    → Fresh read' (Dict.remove d s)
remove-Fresh read read' d s h k u t g = elim (Bool-cases (s == u)) [
  | inl e ↦ cc (rw (Dict.get-remove d s u, e) at g)
  | inr e ↦ h u t (rw (Dict.get-remove d s u, e) at g) ∙ sym (k u e)
]

module _ {R : Type 0} (other : R → Row → Envelope → Verdict (R × List SessionEvent)) where
  -- The tables and the cache of a batch: lookups at any time, and envelopes that are applied. What
  -- is refused or fails is rolled back, and its `invalidate` is not reached.
  pub data Batch : Store R → TurnCache → Type 0 where
    opened : (st : Store R) → Batch st empty
    read_running :
        (st : Store R) (c : TurnCache) (s : ℕ) → Batch st c → Batch st (running_id st.turns c s).1
    read_latest :
        (st : Store R) (c : TurnCache) (s : ℕ) → Batch st c → Batch st (latest_id st.turns c s).1
    wrote :
        (st st' : Store R) (c : TurnCache) (row : Row) (e : Envelope)
        → Batch st c
        → apply other st row e ≡ applied st'
        → Batch st' (after_apply c e)

  after_apply-Coherent :
      (st st' : Store R) (c : TurnCache) (row : Row) (e : Envelope)
      → Coherent st.turns c
      → apply other st row e ≡ applied st'
      → Coherent st'.turns (after_apply c e)
  unfolding after_apply invalidate
  after_apply-Coherent st st' c row e h a =
      let same = λ (s : ℕ) (n : str_eq e.kind "turn.status" ≡ true → (e.session_id == s) ≡ false).
        subst (Then (λ (d : Store R). Same st.turns s d.turns)) a (apply-Same other st row e s n) in
      elim (Bool-cases (str_eq e.kind "turn.status")) [
        | inl k ↦
            rw (after_apply, k)
              (
                remove-Fresh (running_now st.turns) (running_now st'.turns) c.running e.session_id
                    h.0 (λ u n. (same u (λ _. n)).0),
                remove-Fresh (latest_now st.turns) (latest_now st'.turns) c.latest e.session_id h.1
                    (λ u n. (same u (λ _. n)).1),
              )
        | inr k ↦
            let all = λ (s : ℕ). same s (λ q. cc (rw k at q)) in
            rw (after_apply, k)
              (λ s t g. h.0 s t g ∙ sym (all s).0, λ s t g. h.1 s t g ∙ sym (all s).1)
      ]

  Batch-Coherent : (st : Store R) (c : TurnCache) → Batch st c → Coherent st.turns c
  unfolding running_id latest_id
  Batch-Coherent _ _ (opened st) = (
    λ s t h. nothing_cached (running_now st.turns) s t h,
    λ s t h. nothing_cached (latest_now st.turns) s t h,
  )
  Batch-Coherent _ _ (read_running st c s b) =
      let (f, g) = Batch-Coherent st c b in
      ((look_up-Fresh (running_now st.turns) c.running s f).1, g)
  Batch-Coherent _ _ (read_latest st c s b) =
      let (f, g) = Batch-Coherent st c b in
      (f, (look_up-Fresh (latest_now st.turns) c.latest s g).1)
  Batch-Coherent _ _ (wrote st st' c row e b a) =
      after_apply-Coherent st st' c row e (Batch-Coherent st c b) a

  -- At every point of a batch, whatever it has looked up and applied: validation with the cache says
  -- what validation on the tables says.
  pub validate_cached_eq :
      (st : Store R) (c : TurnCache) (worker : ℕ) (row : Row) (e : Envelope)
      → Batch st c
      → validate_cached worker st.turns c row e ≡ validate worker st.turns row e
  unfolding validate_cached validate running_id latest_id
  validate_cached_eq st c worker row e b =
      let (f, g) = Batch-Coherent st c b in
      let s = e.session_id in
      rw
        (
          (look_up-Fresh (running_now st.turns) c.running s f).0,
          (look_up-Fresh (latest_now st.turns) c.latest s g).0,
        )
        refl
