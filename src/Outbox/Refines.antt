-- ===== src/Outbox/Refines.antt =====
-- The calls of the outbox and their specification: releases, drops, compactions, and all together
-- (src/apipi/worker/outbox.py).
use apipi.Base.{
  ℕ, ◌-◌, ◌<◌, ◌≡◌, refl, sym, ◌∙◌, Bool, true, false, [], ◌∷◌, ◌++◌, arith, ltb, ◌==◌, ==_eq,
  ==_refl, if◌then◌else◌, none, Bool-cases, Option-cases, inl, inr, is_empty, ◌&&◌, not, length,
  length-append, ◌⊎◌, ◌≤◌, drop, zero, suc,
}
use apipi.Base.Dict
use apipi.Base.Dict.{Dict}
use apipi.Outbox.State.{Envelope, Outbox, floor_limit}
use apipi.Outbox.Spool.{floor_of, remove_spool, sync_spool}
use apipi.Outbox.Ops.{release, drop_session, remember_floor}
use apipi.Outbox.Load.{Snapshot, compact_end, replace_file}
use apipi.Outbox.Valid.{WellFormed}
use apipi.Outbox.Run.{
  Op, appends, acks, bases, connects, syncs, marks, releases, drops, compacts, step,
}
use apipi.Outbox.Spec.{
  View, view, view_of, quiet, view-here, view-store, floor_of-remove, floor_of-gone,
}
use apipi.Outbox.Moves.{
  retire, spec, outcome, at_session, view-acked, view-set_base, view-append, view-begin_connection,
  view-mark_sent,
}

module _ {P : Type 0} (size : Envelope P → ℕ) where
  -- A view that lost its buffer and its floor.
  view-remove :
      (o o' : Outbox P) (s t : ℕ) (x : View P)
      → o'.sessions ≡ Dict.remove o.sessions s
      → quiet (floor_of o'.floors s) ≡ x
      → ((s == t) ≡ false
          → Dict.get o.sessions t ≡ none
          → floor_of o'.floors t ≡ floor_of o.floors t)
      → view o' t ≡ (if s == t then x else view o t)
  unfolding view
  view-remove o o' s t x e f h = elim (Bool-cases (s == t)) [
    | inl p ↦ rw (e, Dict.get-remove o.sessions s t, p) (rw (← (==_eq s t p)) f)
    | inr p ↦ elim (Option-cases (Dict.get o.sessions t)) [
      | inl g ↦ rw (e, Dict.get-remove o.sessions s t, p, g) (rw (h p g) refl)
      | inr (b, g) ↦ rw (e, Dict.get-remove o.sessions s t, p, g) refl
    ]
  ]

  view-remove_spool :
      (o : Outbox P) (s t : ℕ) (disk : Bool) → view (remove_spool o s disk) t ≡ view o t
  unfolding remove_spool view
  view-remove_spool o s t disk = elim (Option-cases o.files) [
    | inl f ↦ rw (f, remove_spool)
    | inr (files, f) ↦ rw (f, remove_spool)
  ]

  view-drop_session :
      (o : Outbox P) (s t : ℕ) (disk : Bool)
      → view (drop_session o s disk) t ≡ (if s == t then quiet 0 else view o t)
  unfolding drop_session
  view-drop_session o s t disk = elim (Option-cases (Dict.get o.sessions s)) [
    | inl g ↦
        rw (g, drop_session)
          (view-remove_spool _ s t disk
            ∙ view-remove o _ s t (quiet 0) (sym (Dict.remove_absent o.sessions s g))
                (rw (floor_of-gone o.floors s)) (λ p _. floor_of-remove o.floors s t p))
    | inr (b, g) ↦
        rw (g, drop_session)
          (view-remove_spool _ s t disk
            ∙ view-remove o _ s t (quiet 0) refl (rw (floor_of-gone o.floors s))
                (λ p _. floor_of-remove o.floors s t p))
  ]

  -- With room for one more floor nothing is forgotten.
  floors_kept :
      (floors : Dict ℕ) (s n t : ℕ)
      → length floors < floor_limit
      → floor_of (remember_floor floors s n) t ≡ (if s == t then n else floor_of floors t)
  unfolding remember_floor
  floors_kept floors s n t h =
      let d = Dict.remove floors s in
      let room : length (d ++ (s, n) ∷ []) - floor_limit ≡ 0 =
        omega (arith, h, Dict.length-remove-le floors s, length-append d ((s, n) ∷ [])) in
      let gone : Dict.get d s ≡ none = rw (Dict.get-remove floors s s) (rw (==_refl s)) in
      rw room (elim (Bool-cases (s == t)) [
        | inl p ↦ unfold floor_of in rw (Dict.get-snoc d s t n gone, p, floor_of)
        | inr p ↦
            unfold floor_of in
            rw (Dict.get-snoc d s t n gone, Dict.get-remove floors s t, p, floor_of)
      ])

  get-drop_absent : (n k : ℕ) (d : Dict ℕ) → Dict.get d k ≡ none → Dict.get (drop n d) k ≡ none
  unfolding Dict.get
  get-drop_absent zero k d h = h
  get-drop_absent (suc n) k [] h = refl
  get-drop_absent (suc n) k ((j, w) ∷ d) h = elim (Bool-cases (j == k)) [
    | inl e ↦ cc (rw e at h)
    | inr e ↦ get-drop_absent n k d (rw e at h)
  ]

  -- The floor that was stored last is never among those that a full table drops.
  floor_here : (floors : Dict ℕ) (s n : ℕ) → floor_of (remember_floor floors s n) s ≡ n
  unfolding remember_floor
  floor_here floors s n =
      let d = Dict.remove floors s in
      let k = length (d ++ (s, n) ∷ []) - floor_limit in
      let gone : Dict.get d s ≡ none = rw (Dict.get-remove floors s s) (rw (==_refl s)) in
      let front : drop k (d ++ (s, n) ∷ []) ≡ drop k d ++ (s, n) ∷ [] =
        drop-front k d ((s, n) ∷ []) (omega (arith, length-append d ((s, n) ∷ []))) in
      rw front (
        unfold floor_of in
        rw (Dict.get-snoc (drop k d) s s n (get-drop_absent k s d gone), ==_refl s, floor_of))
    where
      drop-front : (k : ℕ) (xs ys : Dict ℕ) → k ≤ length xs → drop k (xs ++ ys) ≡ drop k xs ++ ys
      drop-front zero xs ys h = refl
      drop-front (suc k) [] ys h = absurd (omega arith)
      drop-front (suc k) (x ∷ xs) ys h = drop-front k xs ys (omega arith)

  view-release :
      (o : Outbox P) (s t : ℕ) (disk : Bool)
      → ((n : ℕ)
          → (s == t) ≡ false
          → Dict.get o.sessions t ≡ none
          → floor_of (remember_floor o.floors s n) t ≡ floor_of o.floors t)
      → view (release o s disk) t ≡ (if s == t then retire (view o t) else view o t)
  unfolding release retire
  view-release o s t disk kept = elim (Option-cases (Dict.get o.sessions s)) [
    | inl g ↦ elim (Bool-cases (s == t)) [
      | inr h ↦ rw (g, h, release)
      | inl h ↦ rw (g, h, release) (rw (← (==_eq s t h)) (unfold view quiet in rw g))
    ]
    | inr (b, g) ↦ elim (Bool-cases (is_empty b.envelopes)) [
      | inr x ↦ elim (Bool-cases (s == t)) [
        | inr h ↦ rw (g, x, h, release)
        | inl h ↦
            rw (g, x, h, release)
              (rw (← (==_eq s t h)) (unfold view_of in rw (view-here o s b g) (rw x)))
      ]
      | inl x ↦
          let here : floor_of (remember_floor o.floors s b.issued) s ≡ b.issued =
            floor_here o.floors s b.issued in
          let gone =
            view-remove o
              (record o {
                sessions = Dict.remove o.sessions s;
                floors = remember_floor o.floors s b.issued;
              })
              s t (quiet b.issued) refl (rw here) (kept b.issued) in
          let moved =
            at_session size o s t (quiet b.issued) retire
              (unfold view_of quiet in rw (view-here o s b g) (rw x)) in
          elim (Bool-cases (ltb 0 b.spooled)) [
            | inl d ↦ rw (g, x, d, release) (view-remove_spool _ s t disk ∙ (gone ∙ moved))
            | inr d ↦ rw (g, x, d, release) (gone ∙ moved)
          ]
    ]
  ]

  sessions-remove_spool :
      (o : Outbox P) (s : ℕ) (disk : Bool) → (remove_spool o s disk).sessions ≡ o.sessions
  unfolding remove_spool
  sessions-remove_spool o s disk = elim (Option-cases o.files) [
    | inl f ↦ rw (f, remove_spool) refl
    | inr (files, f) ↦ rw (f, remove_spool) refl
  ]

  -- A session with no buffer stays without one when another is released.
  view-release-quiet :
      (o : Outbox P) (s t : ℕ) (disk : Bool)
      → (s == t) ≡ false
      → Dict.get o.sessions t ≡ none
      → view (release o s disk) t ≡ quiet (floor_of (release o s disk).floors t)
  unfolding release view
  view-release-quiet o s t disk p g = elim (Option-cases (Dict.get o.sessions s)) [
    | inl h ↦ rw (h, release) (rw g refl)
    | inr (b, h) ↦ elim (Bool-cases (is_empty b.envelopes)) [
      | inr x ↦ rw (h, x, release) (rw g refl)
      | inl x ↦ elim (Bool-cases (ltb 0 b.spooled)) [
        | inl d ↦
            let o' : Outbox P = record o {
              sessions = Dict.remove o.sessions s;
              floors = remember_floor o.floors s b.issued;
            } in
            rw (h, x, d, release)
              (rw (sessions-remove_spool o' s disk, Dict.get-remove o.sessions s t, p, g) refl)
        | inr d ↦ rw (h, x, d, release) (rw (Dict.get-remove o.sessions s t, p, g) refl)
      ]
    ]
  ]

  view-compact_end :
      (o : Outbox P) (snap : Snapshot P) (disk : Bool) (t : ℕ)
      → view (compact_end o snap disk) t ≡ view o t
  unfolding compact_end replace_file view_of view
  view-compact_end o snap disk t = elim (Option-cases o.files) [
    | inl e ↦ rw (e, compact_end)
    | inr (files, e) ↦ elim (Option-cases (Dict.get o.sessions snap.session_id)) [
      | inl g ↦ rw (e, g, compact_end)
      | inr (b, g) ↦
          let s = snap.session_id in
          elim (Bool-cases (b.id == snap.buffer && (not (is_empty b.envelopes) && disk))) [
            | inr x ↦ rw (e, g, x, compact_end)
            | inl x ↦
                rw (e, g, x, compact_end)
                  (view-store o _ s t _ refl (λ _. refl)
                    ∙ (at_session size o s t _ (λ v. v) (sym (view-here o s b g)) ∙ same (s == t)))
          ]
    ]
  ]
    where
      same : (c : Bool) → (if c then view o t else view o t) ≡ view o t
      same true = refl
      same false = refl

  -- With room for one more floor every call moves every view as specified.
  pub view-step_within :
      (o : Outbox P) (op : Op P) (t : ℕ)
      → WellFormed size o
      → length o.floors < floor_limit
      → view (step size o op) t ≡ spec op (outcome size o op) t (view o t)
  unfolding step outcome spec
  view-step_within o (appends c) t w room = view-append size o c t w
  view-step_within o (acks s n disk) t w room = view-acked size o s n t disk w
  view-step_within o (bases s n disk) t w room = view-set_base size o s n t disk w
  view-step_within o connects t w room = view-begin_connection size o t w
  view-step_within o syncs t w room = unfold view sync_spool in refl
  view-step_within o (marks s e) t w room = view-mark_sent size o s t e
  view-step_within o (releases s disk) t w room =
      view-release o s t disk (λ n p _. floors_kept o.floors s n t room ∙ rw p)
  view-step_within o (drops s disk) t w room = view-drop_session o s t disk
  view-step_within o (compacts snap disk) t w room = view-compact_end o snap disk t

  -- The numbering that a full table forgets: a release of another session, with 4096 floors or more
  -- remembered, at a session that has no buffer.
  abbrev pub Evicted : Outbox P → Op P → ℕ → Type 0
  Evicted o (releases s disk) t =
      ((s == t) ≡ false)
      × (floor_limit ≤ length o.floors)
      × (Dict.get o.sessions t ≡ none)
      × ((n : ℕ) × (view (release o s disk) t ≡ quiet n))
  Evicted o _ t = ⊥

  -- The calls of append, ack, set_base, begin_connection, sync_spool, mark_sent, release,
  -- drop_session and compact_end refine the specification. Whatever the call, the disk and the
  -- session, in a well formed outbox: the call moves the view of the session exactly as the
  -- specification says, or the call releases another session while 4096 released ones or more are
  -- remembered, and then this session, which holds no envelope before or after, may lose its number.
  pub view-step :
      (o : Outbox P) (op : Op P) (t : ℕ)
      → WellFormed size o
      → (view (step size o op) t ≡ spec op (outcome size o op) t (view o t)) ⊎ Evicted o op t
  unfolding step outcome spec
  view-step o (appends c) t w = inl (view-append size o c t w)
  view-step o (acks s n disk) t w = inl (view-acked size o s n t disk w)
  view-step o (bases s n disk) t w = inl (view-set_base size o s n t disk w)
  view-step o connects t w = inl (view-begin_connection size o t w)
  view-step o syncs t w = inl (unfold view sync_spool in refl)
  view-step o (marks s e) t w = inl (view-mark_sent size o s t e)
  view-step o (releases s disk) t w = elim (Bool-cases (s == t)) [
    | inl p ↦ inl (view-release o s t disk (λ n q _. cc (p, q)))
    | inr p ↦ elim (Option-cases (Dict.get o.sessions t)) [
      | inr (b, g) ↦ inl (view-release o s t disk (λ n _ h. cc (g, h)))
      | inl g ↦ elim (Bool-cases (ltb (length o.floors) floor_limit)) [
        | inl r ↦
            inl
              (view-release o s t disk (λ n q _. floors_kept o.floors s n t (ground arith) ∙ rw q))
        | inr r ↦ inr (p, ground arith, g, (_, view-release-quiet o s t disk p g))
      ]
    ]
  ]
  view-step o (drops s disk) t w = inl (view-drop_session o s t disk)
  view-step o (compacts snap disk) t w = inl (view-compact_end o snap disk t)
