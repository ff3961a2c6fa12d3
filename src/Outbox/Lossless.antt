-- ===== src/Outbox/Lossless.antt =====
-- Nothing is lost: over any history, what is pending is what was accepted and not acked.
use apipi.Base.{
  ℕ, max, ◌+◌, ◌≤◌, ◌<◌, ◌≡◌, refl, sym, ap, ◌∙◌, Bool, true, false, List, [], ◌∷◌, ◌++◌, arith,
  keep, keep-append, ltb, ◌==◌, ==_eq, if◌then◌else◌, Option, none, some, Bool-cases, Option-cases,
  inl, inr, Result, ok, err, length, All, append_assoc, append-nil, All-append,
}
use apipi.Base.Dict
use apipi.Outbox.State.{Envelope, Held, Buffer, Outbox, floor_limit, max_message_bytes}
use apipi.Outbox.Spool.{ensure}
use apipi.Outbox.Ops.{
  Call, AppendError, append, append_to, append_bounded, build, refuses, missing_feature,
}
use apipi.Outbox.Trim.{Rising, Rising-mono}
use apipi.Outbox.Valid.{WellFormed}
use apipi.Outbox.Keeps.{ensure-get}
use apipi.Outbox.Run.{
  Op, appends, acks, bases, connects, syncs, marks, releases, drops, compacts, step, run,
  step-WellFormed,
}
use apipi.Outbox.Spec.{View, view, view_of, quiet, view-here, view-ensure}
use apipi.Outbox.Moves.{discard, rebase, spec, outcome}
use apipi.Outbox.Refines.{view-step_within}

module _ {P : Type 0} where
  -- The envelope of session `s` in what a call accepted.
  unfoldable pub of_session : ℕ → Op P → Option (Held P) → List (Held P)
  of_session s (appends c) (some e) = if c.session_id == s then e ∷ [] else []
  of_session s (appends c) none = []
  of_session s op _ = []

  -- The highest number that an ack or a cursor of session `s` named.
  unfoldable pub cut : ℕ → List (Op P) → ℕ
  cut s [] = 0
  cut s (acks t n _ ∷ ops) = if t == s then max n (cut s ops) else cut s ops
  cut s (bases t n _ ∷ ops) = if t == s then max n (cut s ops) else cut s ops
  cut s (_ ∷ ops) = cut s ops

  -- Calls that leave session `s` in place and ack no number that it has not issued.
  abbrev pub IsFair : ℕ → Outbox P → Op P → Type 0
  IsFair s o (acks t n _) = n ≤ (view o t).issued
  IsFair s o (releases t _) = (t == s) ≡ false
  IsFair s o (drops t _) = (t == s) ≡ false
  IsFair s o op = Unit

  keep_past :
      (m n : ℕ) (es : List (Held P))
      → keep (λ e. ltb n e.seq) (keep (λ e. ltb m e.seq) es) ≡ keep (λ e. ltb (max m n) e.seq) es
  keep_past m n [] = refl
  keep_past m n (e ∷ es) = ground (arith, keep_past m n es)

  keep_late :
      (m n : ℕ) (es : List (Held P))
      → All (λ e. m < e.seq) es
      → keep (λ e. ltb (max m n) e.seq) es ≡ keep (λ e. ltb n e.seq) es
  keep_late m n [] h = refl
  keep_late m n (e ∷ es) h = ground (arith, keep_late m n es h.1)

  keep-Rising : (es : List (Held P)) → Rising 0 es → keep (λ e. ltb 0 e.seq) es ≡ es
  keep-Rising [] r = refl
  keep-Rising (e ∷ es) r = ground (arith, keep-Rising es (Rising-mono es (omega arith) r.1))

  later : (m n : ℕ) (es : List (Held P)) → m ≤ n → All (λ e. n < e.seq) es → All (λ e. m < e.seq) es
  later m n [] h a = tt
  later m n (e ∷ es) h a = (omega arith, later m n es h a.1)

module _ {P : Type 0} (size : Envelope P → ℕ) where
  -- The envelopes of session `s` that a history accepted, in order.
  unfoldable pub accepted : ℕ → Outbox P → List (Op P) → List (Held P)
  accepted s o [] = []
  accepted s o (op ∷ ops) = of_session s op (outcome size o op) ++ accepted s (step size o op) ops

  abbrev pub AllFair : ℕ → Outbox P → List (Op P) → Type 0
  AllFair s o [] = Unit
  AllFair s o (op ∷ ops) =
      (length o.floors < floor_limit) × IsFair s o op × AllFair s (step size o op) ops

  append_to_numbers :
      (o : Outbox P) (b : Buffer P) (c : Call P) (e : Held P)
      → (append_to size o b c).1 ≡ ok e
      → e.seq ≡ b.issued + 1
  unfolding append_to append_bounded build
  append_to_numbers o b c e h =
      elim (Bool-cases (ltb max_message_bytes (size (build size o b c).wire))) [
        | inl x ↦ cc (rw x at h)
        | inr x ↦ elim (Bool-cases (refuses size o b c (build size o b c))) [
          | inl r ↦ cc (rw (x, r) at h)
          | inr r ↦ let same : ok (build size o b c) ≡ ok e = rw (x, r) at h in ap seq_of (sym same)
        ]
      ]
    where
      seq_of : Result AppendError (Held P) → ℕ
      seq_of (ok x) = x.seq
      seq_of (err _) = 0

  -- A successful append numbers its envelope one past the highest number issued before.
  pub append_numbers :
      (o : Outbox P) (c : Call P) (e : Held P)
      → (append size o c).1 ≡ ok e
      → e.seq ≡ (view o c.session_id).issued + 1
  unfolding append view_of
  append_numbers o c e h = elim (Option-cases (missing_feature o.peer_features c.kind)) [
    | inr (f, m) ↦ cc (rw (m, append) at h)
    | inl m ↦
        let s = c.session_id in
        let o₁ = (ensure o s).0 in
        let b = (ensure o s).1 in
        rw (← (view-ensure o s s), view-here o₁ s b (ensure-get size o s))
          (append_to_numbers o₁ b c e (rw (m, append) at h))
  ]

  -- What one fair call does to a session: the numbers issued only rise, and what is accepted is
  -- numbered past them.
  record FairStep (s : ℕ) (o : Outbox P) (op : Op P) : Type 0 where
    rises : (view o s).issued ≤ (view (step size o op) s).issued
    fresh : All (λ e. (view o s).issued < e.seq) (of_session s op (outcome size o op))

  appends-FairStep :
      (s : ℕ) (o : Outbox P) (c : Call P) (r : Result AppendError (Held P))
      → (append size o c).1 ≡ r
      → view (step size o (appends c)) s
        ≡ spec (appends c) (outcome size o (appends c)) s (view o s)
      → FairStep s o (appends c)
  unfolding outcome spec of_session
  appends-FairStep s o c (err x) h e = record { rises = rw (e, h) (omega arith); fresh = rw h tt }
  appends-FairStep s o c (ok x) h e = elim (Bool-cases (c.session_id == s)) [
    | inr p ↦ record { rises = rw (e, h, p) (omega arith); fresh = rw (h, p) tt }
    | inl p ↦
        let n = append_numbers o c x h in
        let same : (view o c.session_id).issued ≡ (view o s).issued =
          ap (λ t. (view o t).issued) (==_eq c.session_id s p) in
        record {
          rises = rw (e, h, p) (omega (arith, n, same));
          fresh = rw (h, p) (omega (arith, n, same), tt);
        }
  ]

  kept_issued :
      (c : Bool) (v w : View P) → v.issued ≤ w.issued → v.issued ≤ (if c then w else v).issued
  kept_issued true v w h = h
  kept_issued false v w h = omega arith

  step-FairStep :
      (s : ℕ) (o : Outbox P) (op : Op P)
      → WellFormed size o
      → length o.floors < floor_limit
      → IsFair s o op
      → FairStep s o op
  unfolding outcome spec of_session
  step-FairStep s o (appends c) w room fair =
      appends-FairStep s o c (append size o c).1 refl (view-step_within size o (appends c) s w room)
  step-FairStep s o (acks t n d) w room fair = record {
    rises =
        rw (view-step_within size o (acks t n d) s w room)
          (kept_issued (t == s) (view o s) _ (omega arith));
    fresh = tt;
  }
  step-FairStep s o (bases t n d) w room fair = record {
    rises =
        rw (view-step_within size o (bases t n d) s w room)
          (kept_issued (t == s) (view o s) _ (omega arith));
    fresh = tt;
  }
  step-FairStep s o connects w room fair = record {
    rises = rw (view-step_within size o connects s w room) (omega arith);
    fresh = tt;
  }
  step-FairStep s o syncs w room fair = record {
    rises = rw (view-step_within size o syncs s w room) (omega arith);
    fresh = tt;
  }
  step-FairStep s o (marks t e) w room fair = record {
    rises =
        rw (view-step_within size o (marks t e) s w room)
          (kept_issued (t == s) (view o s) _ (omega arith));
    fresh = tt;
  }
  step-FairStep s o (releases t d) w room fair = record {
    rises = rw (view-step_within size o (releases t d) s w room, fair) (omega arith);
    fresh = tt;
  }
  step-FairStep s o (drops t d) w room fair = record {
    rises = rw (view-step_within size o (drops t d) s w room, fair) (omega arith);
    fresh = tt;
  }
  step-FairStep s o (compacts snap d) w room fair = record {
    rises = rw (view-step_within size o (compacts snap d) s w room) (omega arith);
    fresh = tt;
  }

  -- Whatever a fair history accepts from now on is numbered past what was issued before.
  accepted_late :
      (s : ℕ) (o : Outbox P) (ops : List (Op P))
      → WellFormed size o
      → AllFair s o ops
      → All (λ e. (view o s).issued < e.seq) (accepted s o ops)
  unfolding accepted
  accepted_late s o [] w fair = tt
  accepted_late s o (op ∷ ops) w fair =
      let f = step-FairStep s o op w fair.0 fair.1 in
      All-append (λ e. (view o s).issued < e.seq) (of_session s op (outcome size o op)) _ f.fresh
        (later (view o s).issued (view (step size o op) s).issued _ f.rises
          (accepted_late s (step size o op) ops (step-WellFormed size o op w) fair.2))

  pending-Rising : (s : ℕ) (o : Outbox P) → WellFormed size o → Rising 0 (view o s).pending
  unfolding view view_of quiet
  pending-Rising s o w = elim (Option-cases (Dict.get o.sessions s)) [
    | inl g ↦ rw g tt
    | inr (b, g) ↦ rw g (w.each s b g).rising
  ]

  -- One call, where it is an ack or a cursor of the session.
  cut_step :
      (m n : ℕ) (p late : List (Held P))
      → All (λ e. m < e.seq) late
      → keep (λ e. ltb n e.seq) (keep (λ e. ltb m e.seq) p ++ late)
        ≡ keep (λ e. ltb (max m n) e.seq) (p ++ late)
  cut_step m n p late h =
      keep-append (λ e. ltb n e.seq) (keep (λ e. ltb m e.seq) p) late
      ∙ (rw (keep_past m n p, ← (keep_late m n late h)) refl
          ∙ sym (keep-append (λ e. ltb (max m n) e.seq) p late))

  -- What a call adds to a session besides dropping what it acks.
  abbrev Follows : ℕ → Outbox P → Op P → List (Op P) → Type 0
  Follows s o op ops =
      (late : List (Held P))
      → All (λ e. (view (step size o op) s).issued < e.seq) late
      → keep (λ e. ltb (cut s ops) e.seq) ((view (step size o op) s).pending ++ late)
        ≡ keep (λ e. ltb (cut s (op ∷ ops)) e.seq)
            ((view o s).pending ++ (of_session s op (outcome size o op) ++ late))

  appends-Follows :
      (s : ℕ) (o : Outbox P) (c : Call P) (ops : List (Op P)) (r : Result AppendError (Held P))
      → (append size o c).1 ≡ r
      → view (step size o (appends c)) s
        ≡ spec (appends c) (outcome size o (appends c)) s (view o s)
      → Follows s o (appends c) ops
  unfolding outcome spec of_session cut
  appends-Follows s o c ops (err x) h e late a = rw (e, h)
  appends-Follows s o c ops (ok x) h e late a = elim (Bool-cases (c.session_id == s)) [
    | inr p ↦ rw (e, h, p)
    | inl p ↦ rw (e, h, p) (rw append_assoc)
  ]

  -- An ack or a cursor `n` of session `t`, which leaves `v` with `n` issued if `t` is `s`.
  cut-Follows :
      (s t n k : ℕ) (v v' : View P) (late : List (Held P))
      → v'.pending ≡ (if t == s then keep (λ e. ltb n e.seq) v.pending else v.pending)
      → ((t == s) ≡ true → n ≤ v'.issued)
      → All (λ e. v'.issued < e.seq) late
      → keep (λ e. ltb k e.seq) (v'.pending ++ late)
        ≡ keep (λ e. ltb (if t == s then max n k else k) e.seq) (v.pending ++ late)
  cut-Follows s t n k v v' late e le a = elim (Bool-cases (t == s)) [
    | inl p ↦ rw (e, p) (cut_step n k v.pending late (later n v'.issued late (le p) a))
    | inr p ↦ rw (e, p)
  ]

  step-Follows :
      (s : ℕ) (o : Outbox P) (op : Op P) (ops : List (Op P))
      → WellFormed size o
      → length o.floors < floor_limit
      → IsFair s o op
      → Follows s o op ops
  unfolding outcome spec of_session cut discard rebase
  step-Follows s o (appends c) ops w room fair late a =
      appends-Follows s o c ops (append size o c).1 refl
        (view-step_within size o (appends c) s w room) late a
  step-Follows s o (acks t n d) ops w room fair late a =
      let e = view-step_within size o (acks t n d) s w room in
      let rises = (step-FairStep s o (acks t n d) w room fair).rises in
      cut-Follows s t n (cut s ops) (view o s) (view (step size o (acks t n d)) s) late
        (rw e (elim (Bool-cases (t == s)) [ inl p ↦ rw p | inr p ↦ rw p ]))
        (λ p. omega (arith, rises, fair, ap (λ x. (view o x).issued) (==_eq t s p))) a
  step-Follows s o (bases t n d) ops w room fair late a =
      let e = view-step_within size o (bases t n d) s w room in
      cut-Follows s t n (cut s ops) (view o s) (view (step size o (bases t n d)) s) late
        (rw e (elim (Bool-cases (t == s)) [ inl p ↦ rw p | inr p ↦ rw p ]))
        (λ p. rw (e, p) (omega arith)) a
  step-Follows s o connects ops w room fair late a = rw (view-step_within size o connects s w room)
  step-Follows s o syncs ops w room fair late a = rw (view-step_within size o syncs s w room)
  step-Follows s o (marks t e) ops w room fair late a =
      rw (view-step_within size o (marks t e) s w room)
        (elim (Bool-cases (t == s)) [ inl p ↦ rw p | inr p ↦ rw p ])
  step-Follows s o (releases t d) ops w room fair late a =
      rw (view-step_within size o (releases t d) s w room, fair)
  step-Follows s o (drops t d) ops w room fair late a =
      rw (view-step_within size o (drops t d) s w room, fair)
  step-Follows s o (compacts snap d) ops w room fair late a =
      rw (view-step_within size o (compacts snap d) s w room)

  -- Nothing is lost and nothing is kept too long. Take any history of calls after a well formed
  -- outbox in which session `s` is neither released nor dropped, no ack names a number that its
  -- session has not issued, and fewer than 4096 released sessions are remembered. At its end the
  -- pending envelopes of `s` are exactly those that were pending before or accepted since, in
  -- order, with a number past every ack and cursor of `s`.
  pub lossless :
      (s : ℕ) (o : Outbox P) (ops : List (Op P))
      → WellFormed size o
      → AllFair s o ops
      → (view (run size o ops) s).pending
        ≡ keep (λ e. ltb (cut s ops) e.seq) ((view o s).pending ++ accepted s o ops)
  unfolding run accepted cut of_session outcome
  lossless s o [] w fair =
      rw append-nil (sym (keep-Rising (view o s).pending (pending-Rising s o w)))
  lossless s o (op ∷ ops) w fair =
      let o' = step size o op in
      let w' = step-WellFormed size o op w in
      lossless s o' ops w' fair.2
      ∙ step-Follows s o op ops w fair.0 fair.1 (accepted s o' ops)
          (accepted_late s o' ops w' fair.2)
