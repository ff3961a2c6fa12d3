-- ===== src/Deltas/Order.antt =====
-- What becomes of the text that is submitted to DeltaRelay (src/apipi/worker/deltas.py).
use apipi.Base.{
  ℕ, ◌+◌, ◌≤◌, ◌≡◌, refl, sym, ap, ◌∙◌, Bool, false, List, [], ◌∷◌, ◌++◌, append-nil, append_assoc,
  ltb, ◌==◌, is_empty, All, Bool-cases, inl, inr,
}
use apipi.Base.Dict
use apipi.Outbox.State.{max_message_bytes}
use apipi.Deltas.Split.{Text}
use apipi.Deltas.Relay.{
  Key, Chunk, FlushTask, done, sleeping, sending, DeltaRelay, init, forget, started, submit, chunks,
  left, wake, Out, emit, Step, submits, wakes, emits, forgets, attaches, detaches, attach, detach,
  State, step, run, wake_up, send_next,
}
use apipi.Deltas.Buffers.{
  if_key, said, buffered, pending, chunk_of, told, whole, submitted_by, submitted, Unique,
  add_text-Unique, if_key_nil, is_empty_eq, buffered-add_text, without-Unique, said-chunks,
  buffered-without,
}

-- What sending a chunk leaves.
emit-same :
    (size : ℕ → Chunk → ℕ) (r : DeltaRelay) (c : Chunk) (works : Bool)
    → let (r', out) = emit size r c works in (r'.buffers ≡ r.buffers) × (chunk_of out ≡ c)
unfolding emit
emit-same size r c works =
    let last = Dict.get_or r.seq c.key.session_id 0 + 1 in
    elim (Bool-cases r.attached) [
      | inr a ↦ rw a (refl, refl)
      | inl a ↦ elim (Bool-cases (ltb max_message_bytes (size last c))) [
        | inl b ↦ rw (a, b) (refl, refl)
        | inr b ↦ elim (Bool-cases works) [
          | inl w ↦ rw (a, b, w) (refl, refl)
          | inr w ↦ rw (a, b, w) (refl, refl)
        ]
      ]
    ]

pending-left : (k : Key) (cs : List Chunk) → pending k (left cs) ≡ said k cs
pending-left k [] = refl
pending-left k (c ∷ cs) = refl

pending-started : (k : Key) (task : FlushTask) → pending k (started task) ≡ pending k task
pending-started k done = refl
pending-started k sleeping = refl
pending-started k (sending cs) = refl

abbrev pub Keeps : ℕ → Step → Type 0
Keeps s (forgets t) = (s == t) ≡ false
Keeps s (submits k t) = Unit
Keeps s wakes = Unit
Keeps s (emits works) = Unit
Keeps s attaches = Unit
Keeps s detaches = Unit

module _ (size : ℕ → Chunk → ℕ) (limit : ℕ) (positive : 1 ≤ limit) (k : Key) where
  submit-whole :
      (r : DeltaRelay) (outs : List Out) (j : Key) (t : Text)
      → Unique r.buffers
      → whole k (submit r j t, outs) ≡ whole k (r, outs) ++ if_key j k t
  unfolding submit
  submit-whole r outs j t u = elim (Bool-cases (is_empty t)) [
    | inl a ↦ rw (a, is_empty_eq t a, if_key_nil j k) (sym (append-nil (whole k (r, outs))))
    | inr a ↦
        let p = pending k r.flush_task in
        let b = buffered k r.buffers in
        let same : pending k (started r.flush_task) ≡ p = pending-started k r.flush_task in
        rw
          (
            a,
            same,
            buffered-add_text r.buffers j k t u,
            append_assoc (told k outs) (p ++ b) (if_key j k t),
            append_assoc p b (if_key j k t),
          )
          refl
  ]

  wake_up-whole :
      (task : FlushTask) (r : DeltaRelay) (outs : List Out)
      → r.flush_task ≡ task
      → whole k (wake_up size limit task (r, outs)) ≡ whole k (r, outs)
  unfolding wake
  wake_up-whole done r outs e = refl
  wake_up-whole (sending cs) r outs e = refl
  wake_up-whole sleeping r outs e =
      rw
        (
          e,
          pending-left k (chunks limit r.buffers),
          said-chunks limit k r.buffers positive,
          append-nil (buffered k r.buffers),
        )
        refl

  send_next-whole :
      (task : FlushTask) (r : DeltaRelay) (outs : List Out) (works : Bool)
      → r.flush_task ≡ task
      → whole k (send_next size limit task works (r, outs)) ≡ whole k (r, outs)
  send_next-whole done r outs works e = refl
  send_next-whole sleeping r outs works e = refl
  send_next-whole (sending []) r outs works e = refl
  send_next-whole (sending (c ∷ cs)) r outs works e =
      let (same, out) = emit-same size r c works in
      let piece = if_key c.key k c.text in
      let waiting : pending k r.flush_task ≡ said k (c ∷ cs) = ap (pending k) e in
      rw
        (
          waiting,
          same,
          out,
          pending-left k cs,
          append_assoc (told k outs) piece (said k cs ++ buffered k r.buffers),
          append_assoc piece (said k cs) (buffered k r.buffers),
        )
        refl

  step-whole :
      (st : State) (x : Step)
      → Unique st.0.buffers
      → Keeps k.session_id x
      → whole k (step size limit st x) ≡ whole k st ++ submitted_by k x
  unfolding step forget attach detach
  step-whole (r, outs) (submits j t) u h = submit-whole r outs j t u
  step-whole (r, outs) wakes u h =
      wake_up-whole r.flush_task r outs refl ∙ sym (append-nil (whole k (r, outs)))
  step-whole (r, outs) (emits works) u h =
      send_next-whole r.flush_task r outs works refl ∙ sym (append-nil (whole k (r, outs)))
  step-whole (r, outs) (forgets s) u h =
      rw (buffered-without s k r.buffers h) (sym (append-nil (whole k (r, outs))))
  step-whole (r, outs) attaches u h = sym (append-nil (whole k (r, outs)))
  step-whole (r, outs) detaches u h = sym (append-nil (whole k (r, outs)))

  wake_up-Unique :
      (task : FlushTask) (r : DeltaRelay) (outs : List Out)
      → Unique r.buffers
      → Unique (wake_up size limit task (r, outs)).0.buffers
  unfolding wake
  wake_up-Unique done r outs u = u
  wake_up-Unique (sending cs) r outs u = u
  wake_up-Unique sleeping r outs u = tt

  send_next-Unique :
      (task : FlushTask) (r : DeltaRelay) (outs : List Out) (works : Bool)
      → Unique r.buffers
      → Unique (send_next size limit task works (r, outs)).0.buffers
  send_next-Unique done r outs works u = u
  send_next-Unique sleeping r outs works u = u
  send_next-Unique (sending []) r outs works u = u
  send_next-Unique (sending (c ∷ cs)) r outs works u = rw ((emit-same size r c works).0) u

  step-Unique :
      (st : State) (x : Step) → Unique st.0.buffers → Unique (step size limit st x).0.buffers
  unfolding step forget attach detach submit
  step-Unique (r, outs) (submits j t) u = elim (Bool-cases (is_empty t)) [
    | inl a ↦ rw a u
    | inr a ↦ rw a (add_text-Unique r.buffers j t u)
  ]
  step-Unique (r, outs) wakes u = wake_up-Unique r.flush_task r outs u
  step-Unique (r, outs) (emits works) u = send_next-Unique r.flush_task r outs works u
  step-Unique (r, outs) (forgets s) u = without-Unique s r.buffers u
  step-Unique (r, outs) attaches u = u
  step-Unique (r, outs) detaches u = u

  run-whole :
      (st : State) (xs : List Step)
      → Unique st.0.buffers
      → All (Keeps k.session_id) xs
      → whole k (run size limit st xs) ≡ whole k st ++ submitted k xs
  unfolding run
  run-whole st [] u h = sym (append-nil (whole k st))
  run-whole st (x ∷ xs) u h =
      let st' = step size limit st x in
      rw (run-whole st' xs (step-Unique st x u) h.1, step-whole st x u h.0)
        (append_assoc (whole k st) (submitted_by k x) (submitted k xs))

-- The text of a key whose session is not forgotten: what was sent, what was given up, what is about
-- to be sent and what the buffers hold is, in this order of time, the text that was submitted.
pub run-told :
    (size : ℕ → Chunk → ℕ) (limit : ℕ) (k : Key) (xs : List Step)
    → 1 ≤ limit
    → All (Keeps k.session_id) xs
    → let (r, outs) = run size limit (init, []) xs in
      told k outs ++ (pending k r.flush_task ++ buffered k r.buffers) ≡ submitted k xs
run-told size limit k xs positive h = run-whole size limit positive k (init, []) xs tt h
