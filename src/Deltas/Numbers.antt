-- ===== src/Deltas/Numbers.antt =====
-- The numbers of the envelopes that DeltaRelay (src/apipi/worker/deltas.py) sends.
use apipi.Base.{
  ℕ, ◌+◌, ◌-◌, ◌≤◌, ◌≡◌, ap, Bool, false, List, [], ◌∷◌, ltb, ◌==◌, ==_eq, if◌then◌else◌, is_empty,
  All, Bool-cases, inl, inr, arith,
}
use apipi.Base.Dict
use apipi.Outbox.State.{max_message_bytes}
use apipi.Deltas.Relay.{
  Chunk, FlushTask, done, sleeping, sending, DeltaRelay, init, forget, submit, wake, Out, sent,
  lost, emit, Step, submits, wakes, emits, forgets, attaches, detaches, attach, detach, State, step,
  run, wake_up, send_next,
}
use apipi.Deltas.Order.{Keeps}

-- The numbers sent for a session, the last one first.
abbrev pub numbers : ℕ → List Out → List ℕ
numbers s [] = []
numbers s (sent n c ∷ os) = if c.key.session_id == s then n ∷ numbers s os else numbers s os
numbers s (lost c ∷ os) = numbers s os

-- Positive numbers that fall from at most a bound.
abbrev pub Falling : ℕ → List ℕ → Type 0
Falling n [] = Unit
Falling n (m ∷ ms) = (1 ≤ m) × (m ≤ n) × Falling (m - 1) ms

Falling-le : (m n : ℕ) (ms : List ℕ) → m ≤ n → Falling m ms → Falling n ms
Falling-le m n [] h f = tt
Falling-le m n (k ∷ ks) h f = (f.0, omega arith, f.2)

abbrev counter : ℕ → DeltaRelay → ℕ
counter s r = Dict.get_or r.seq s 0

abbrev Numbered : ℕ → State → Type 0
Numbered s (r, outs) = Falling (counter s r) (numbers s outs)

emit-Numbered :
    (size : ℕ → Chunk → ℕ) (s : ℕ) (r : DeltaRelay) (outs : List Out) (c : Chunk) (works : Bool)
    → Numbered s (r, outs)
    → let (r', out) = emit size r c works in Numbered s (r', out ∷ outs)
unfolding emit
emit-Numbered size s r outs c works h =
    let t = c.key.session_id in
    let last = counter t r + 1 in
    let now = Dict.get_or-put r.seq t s last 0 in
    let kept : Falling (if t == s then last else counter s r) (numbers s outs) =
      elim (Bool-cases (t == s)) [
        | inl e ↦
            rw (e, ==_eq t s e)
              (Falling-le (counter s r) (counter s r + 1) (numbers s outs) (omega arith) h)
        | inr e ↦ rw e h
      ] in
    elim (Bool-cases r.attached) [
      | inr a ↦ rw a h
      | inl a ↦ elim (Bool-cases (ltb max_message_bytes (size last c))) [
        | inl b ↦ rw (a, b, now) kept
        | inr b ↦ elim (Bool-cases works) [
          | inr w ↦ rw (a, b, w, now) kept
          | inl w ↦ elim (Bool-cases (t == s)) [
            | inr e ↦ rw (a, b, w, now, e) h
            | inl e ↦
                let same : counter t r ≡ counter s r = ap (λ u. counter u r) (==_eq t s e) in
                rw (a, b, w, now, e)
                  (
                    omega arith,
                    omega arith,
                    Falling-le (counter s r) (counter t r + 1 - 1) (numbers s outs) (omega arith) h,
                  )
          ]
        ]
      ]
    ]

module _ (size : ℕ → Chunk → ℕ) (limit : ℕ) (s : ℕ) where
  send_next-Numbered :
      (task : FlushTask) (r : DeltaRelay) (outs : List Out) (works : Bool)
      → Numbered s (r, outs)
      → Numbered s (send_next size limit task works (r, outs))
  send_next-Numbered done r outs works h = h
  send_next-Numbered sleeping r outs works h = h
  send_next-Numbered (sending []) r outs works h = h
  send_next-Numbered (sending (c ∷ cs)) r outs works h = emit-Numbered size s r outs c works h

  wake_up-Numbered :
      (task : FlushTask) (r : DeltaRelay) (outs : List Out)
      → Numbered s (r, outs)
      → Numbered s (wake_up size limit task (r, outs))
  unfolding wake
  wake_up-Numbered done r outs h = h
  wake_up-Numbered sleeping r outs h = h
  wake_up-Numbered (sending cs) r outs h = h

  step-Numbered :
      (st : State) (x : Step) → Keeps s x → Numbered s st → Numbered s (step size limit st x)
  unfolding step submit forget attach detach
  step-Numbered (r, outs) (submits j t) k h = elim (Bool-cases (is_empty t)) [
    | inl a ↦ rw a h
    | inr a ↦ rw a h
  ]
  step-Numbered (r, outs) wakes k h = wake_up-Numbered r.flush_task r outs h
  step-Numbered (r, outs) (emits works) k h = send_next-Numbered r.flush_task r outs works h
  step-Numbered (r, outs) (forgets t) k h =
      let other : (t == s) ≡ false = ground arith in rw (Dict.get_or-remove r.seq t s 0, other) h
  step-Numbered (r, outs) attaches k h = h
  step-Numbered (r, outs) detaches k h = h

  run-Numbered :
      (st : State) (xs : List Step)
      → All (Keeps s) xs
      → Numbered s st
      → Numbered s (run size limit st xs)
  unfolding run
  run-Numbered st [] k h = h
  run-Numbered st (x ∷ xs) k h =
      run-Numbered (step size limit st x) xs k.1 (step-Numbered st x k.0 h)

-- The numbers of the envelopes that were sent for a session, which is not forgotten: each is
-- positive and larger than the one before it, and none is above the session's counter, whatever was
-- given up in between.
pub run-Falling :
    (size : ℕ → Chunk → ℕ) (limit s : ℕ) (xs : List Step)
    → All (Keeps s) xs
    → let (r, outs) = run size limit (init, []) xs in
      Falling (Dict.get_or r.seq s 0) (numbers s outs)
run-Falling size limit s xs k = run-Numbered size limit s (init, []) xs k tt
