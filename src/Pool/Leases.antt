-- ===== src/Pool/Leases.antt =====
-- When a lease goes, and what a marked one waits for (src/apipi/worker/pi/pool.py).
use apipi.Base.{
  ℕ, ◌+◌, ◌≡◌, refl, ap, Bool, true, false, ◌||◌, List, [], ◌∷◌, Option, if◌then◌else◌, ◌==◌, ==_eq,
  arith, Bool-cases, Option-cases, inl, inr, leb, All, ◌-◌,
}
use apipi.Base.Dict
use apipi.Base.Dict.{Dict}
use apipi.Pool.State.{Call, Settings, PiPool, new, mem}
use apipi.Pool.Ops.{
  alive, kill_begin, reuse, claim, store_proc, finish_spawn, dies, same, get_locked, hold, release,
  release_after_turn, touch, kill_hook, kill_count, kill_end, after_turn, held, is_some, discard,
  count_down, Hook, killed, released, capacity_code,
}
use apipi.Pool.Run.{
  Step, gets, booted, boot_failed, kills, hooks, kill_ends, kill_breaks, holds, marks, turn_ends,
  touches, exits, boot, turn_over, mark_held, step,
}

-- A session that a turn holds or that is being killed.
abbrev pub busy : PiPool → ℕ → Bool
busy p s = held p s || is_some (Dict.get p.killing s)

-- A marked lease of a session of which no kill broke off, `bs` being those of which one did, waits
-- for something that ends by calling after_turn.
abbrev pub Kept : List ℕ → PiPool → Type 0
Kept bs p = (s : ℕ) → mem s p.release_after ≡ true → mem s bs ≡ false → busy p s ≡ true

-- The same but for one session, at which after_turn is to be called.
abbrev KeptBut : List ℕ → ℕ → PiPool → Type 0
KeptBut bs s p =
    (j : ℕ) → (s == j) ≡ false → mem j p.release_after ≡ true → mem j bs ≡ false → busy p j ≡ true

-- A hook that gives a lease up is called at a session that no turn holds; on_release besides only
-- where no kill is under way and no process is alive.
abbrev pub Safe : PiPool → Hook → Type 0
Safe p (killed s proc true) = held p s ≡ false
Safe p (killed s proc false) = Unit
Safe p (released s) = (busy p s ≡ false) × (alive p s ≡ false)

mem-discard : (j s : ℕ) (ss : List ℕ) → mem j (discard s ss) ≡ (if s == j then false else mem j ss)
mem-discard j s [] = ground arith
mem-discard j s (t ∷ ss) = ground (arith, mem-discard j s ss)

module _ (bs : List ℕ) where
  -- What after_turn leaves behind, and calls.
  abbrev Fine : PiPool × List Hook → Type 0
  Fine r = Kept bs r.0 × All (Safe r.0) r.1

  unmarked-Kept : (p : PiPool) (s : ℕ) → KeptBut bs s p → mem s p.release_after ≡ false → Kept bs p
  unmarked-Kept p s k e j m n = elim (Bool-cases (s == j)) [
    | inl q ↦ cc (rw (==_eq s j q) at e, m)
    | inr q ↦ k j q m n
  ]

  busy-Kept : (p : PiPool) (s : ℕ) → KeptBut bs s p → busy p s ≡ true → Kept bs p
  busy-Kept p s k h j m n = elim (Bool-cases (s == j)) [
    | inl q ↦ rw (← (==_eq s j q)) h
    | inr q ↦ k j q m n
  ]

  discard-Kept :
      (p : PiPool) (s : ℕ)
      → KeptBut bs s p
      → Kept bs (record p { release_after = discard s p.release_after })
  unfolding held
  discard-Kept p s k j m n = elim (Bool-cases (s == j)) [
    | inl q ↦ cc (rw (mem-discard j s p.release_after, q) at m)
    | inr q ↦ k j q (rw (mem-discard j s p.release_after, q) at m) n
  ]

  released-Safe :
      (p : PiPool) (s : ℕ)
      → busy p s ≡ false
      → let q = record p { release_after = discard s p.release_after } in
        All (Safe q) (if alive p s then [] else released s ∷ [])
  unfolding held alive
  released-Safe p s h = elim (Bool-cases (alive p s)) [
    | inl e ↦ rw e tt
    | inr e ↦ rw e ((h, e), tt)
  ]

  after_turn-Fine : (p : PiPool) (s : ℕ) → KeptBut bs s p → Fine (after_turn p s)
  unfolding after_turn
  after_turn-Fine p s k = elim (Bool-cases (mem s p.release_after)) [
    | inr e ↦ rw e (unmarked-Kept p s k e, tt)
    | inl e ↦ elim (Bool-cases (busy p s)) [
      | inl h ↦ rw (e, h) (busy-Kept p s k h, tt)
      | inr h ↦ rw (e, h) (discard-Kept p s k, released-Safe p s h)
    ]
  ]

  -- What leaves the marks, the holds and the kills alone keeps the leases.
  Kept-same :
      (p q : PiPool)
      → q.release_after ≡ p.release_after
      → q.held ≡ p.held
      → q.killing ≡ p.killing
      → Kept bs p
      → Kept bs q
  unfolding held
  Kept-same p q a b d k j m n = rw (b, d) (k j (rw a at m) n)

  get-count_down :
      (d : Dict ℕ) (s j n : ℕ) → (s == j) ≡ false → Dict.get (count_down d s n) j ≡ Dict.get d j
  get-count_down d s j n e = elim (Bool-cases (leb 2 n)) [
    | inl h ↦ rw (h, Dict.get-put d s j (n - 1), e) refl
    | inr h ↦ rw (h, Dict.get-remove d s j, e) refl
  ]

  release-KeptBut : (p : PiPool) (s : ℕ) → Kept bs p → KeptBut bs s (release p s)
  unfolding release held
  release-KeptBut p s k j e m n =
      rw (ap is_some (get-count_down p.held s j (Dict.get_or p.held s 0) e)) (k j m n)

  marked-KeptBut : (p : PiPool) (s : ℕ) → KeptBut bs s p → KeptBut bs s (release_after_turn p s)
  unfolding release_after_turn held
  marked-KeptBut p s k j e m n = k j e (rw e at m) n

  turn_over-Fine : (p : PiPool) (s : ℕ) (ended : Bool) → Kept bs p → Fine (turn_over p s ended)
  unfolding turn_over
  turn_over-Fine p s true k = after_turn-Fine (release p s) s (release-KeptBut p s k)
  turn_over-Fine p s false k =
      after_turn-Fine (release_after_turn (release p s) s) s
        (marked-KeptBut (release p s) s (release-KeptBut p s k))

  kill_ended-KeptBut :
      (p : PiPool) (s : ℕ)
      → Kept bs p
      → KeptBut bs s (record p { killing = count_down p.killing s (Dict.get_or p.killing s 1) })
  unfolding held
  kill_ended-KeptBut p s k j e m n =
      rw (get-count_down p.killing s j (Dict.get_or p.killing s 1) e) (k j m n)

  kill_end-Fine : (p : PiPool) (s : ℕ) → Kept bs p → Fine (kill_end p s)
  unfolding kill_end kill_count
  kill_end-Fine p s k = after_turn-Fine _ s (kill_ended-KeptBut p s k)

  -- A write of some count makes a session busy, and leaves the others as they are.
  put-held :
      (p : PiPool) (s j n : ℕ)
      → busy p j ≡ true
      → busy (record p { held = Dict.put p.held s n }) j ≡ true
  unfolding held
  put-held p s j n h = rw (Dict.get-put p.held s j n) (ground arith)

  put-killing :
      (p : PiPool) (s j n : ℕ)
      → busy p j ≡ true
      → busy (record p { killing = Dict.put p.killing s n }) j ≡ true
  unfolding held
  put-killing p s j n h = rw (Dict.get-put p.killing s j n) (ground arith)

  hold-Kept : (p : PiPool) (s : ℕ) → Kept bs p → Kept bs (hold p s)
  unfolding hold
  hold-Kept p s k j m n = put-held p s j (Dict.get_or p.held s 0 + 1) (k j m n)

  kill_begin-Kept : (p : PiPool) (s : ℕ) → Kept bs p → Kept bs (kill_begin p s)
  unfolding kill_begin held
  kill_begin-Kept p s k j m n = put-killing p s j (Dict.get_or p.killing s 0 + 1) (k j m n)

  -- A mark at a held session.
  mark-Kept :
      (p : PiPool) (s : ℕ)
      → held p s ≡ true
      → Kept bs p
      → Kept bs (record p { release_after = s ∷ p.release_after })
  unfolding held
  mark-Kept p s h k j m n = elim (Bool-cases (s == j)) [
    | inl q ↦ rw (← (==_eq s j q), h) refl
    | inr q ↦ k j (rw q at m) n
  ]

  mark_held-Kept : (p : PiPool) (s : ℕ) → Kept bs p → Kept bs (mark_held p s)
  unfolding mark_held release_after_turn
  mark_held-Kept p s k = elim (Bool-cases (held p s)) [
    | inl h ↦ rw h (mark-Kept p s h k)
    | inr h ↦ rw h k
  ]

  kill_hook-Fine :
      (p : PiPool) (s : ℕ) (proc : Option ℕ) (let_go : Bool)
      → Kept bs p
      → Fine (kill_hook p s proc let_go)
  unfolding kill_hook
  kill_hook-Fine p s proc false k = (Kept-same p _ refl refl refl k, (tt, tt))
  kill_hook-Fine p s proc true k = elim (Bool-cases (held p s)) [
    | inl h ↦ rw h (mark-Kept p s h k, (tt, tt))
    | inr h ↦ rw h (Kept-same p _ refl refl refl k, (unfold held in h, tt))
  ]

  get_locked-Kept :
      (c : Settings) (p : PiPool) (s : ℕ) (a : Call) (now : ℕ)
      → Kept bs p
      → Kept bs (get_locked c p s a now).0
  unfolding get_locked claim reuse
  get_locked-Kept c p s a now k = elim (Option-cases (Dict.get p.inflight s)) [
    | inr (b, g) ↦ rw (g, get_locked) k
    | inl g ↦ elim (Option-cases (Dict.get p.procs s)) [
      | inl free ↦ elim (Option-cases (capacity_code c p s a.tenant a.mem)) [
        | inl e ↦ rw (g, free, e, get_locked, claim) (Kept-same p _ refl refl refl k)
        | inr (x, e) ↦ rw (g, free, e, get_locked, claim) k
      ]
      | inr (r, old) ↦ elim (Bool-cases r.alive) [
        | inr dead ↦ rw (g, old, dead, get_locked) (kill_begin-Kept p s k)
        | inl up ↦ elim (Bool-cases (same r.spec a.spec)) [
          | inr other ↦ rw (g, old, up, other, get_locked) (kill_begin-Kept p s k)
          | inl fit ↦ rw (g, old, up, fit, get_locked) (Kept-same p _ refl refl refl k)
        ]
      ]
    ]
  ]

  boot-Kept : (p : PiPool) (s ident now : ℕ) → Kept bs p → Kept bs (boot p s ident now)
  unfolding boot store_proc
  boot-Kept p s ident now k = elim (Option-cases (Dict.get p.inflight s)) [
    | inl g ↦ rw (g, boot) k
    | inr (a, g) ↦ rw (g, boot) (Kept-same p _ refl refl refl k)
  ]

  dies-Kept : (p : PiPool) (s : ℕ) → Kept bs p → Kept bs (dies p s)
  unfolding dies
  dies-Kept p s k = elim (Option-cases (Dict.get p.procs s)) [
    | inl g ↦ rw (g, dies) k
    | inr (r, g) ↦ rw (g, dies) (Kept-same p _ refl refl refl k)
  ]

-- The sessions of which a kill broke off.
abbrev pub broken : Step → List ℕ → List ℕ
broken (kill_breaks s) bs = s ∷ bs
broken _ bs = bs

kill_breaks-Kept : (bs : List ℕ) (p : PiPool) (s : ℕ) → Kept bs p → Kept (s ∷ bs) (kill_count p s)
unfolding kill_count held
kill_breaks-Kept bs p s k j m n = elim (Bool-cases (s == j)) [
  | inl q ↦ cc (rw q at n)
  | inr q ↦ kill_ended-KeptBut bs p s k j q m (rw q at n)
]

step-Fine :
    (c : Settings) (p : PiPool) (bs : List ℕ) (v : Step)
    → Kept bs p
    → Fine (broken v bs) (step c p v)
unfolding step
step-Fine c p bs (gets s a now) k = (get_locked-Kept bs c p s a now k, tt)
step-Fine c p bs (booted s ident now) k = (boot-Kept bs p s ident now k, tt)
step-Fine c p bs (boot_failed s) k = (unfold finish_spawn in Kept-same bs p _ refl refl refl k, tt)
step-Fine c p bs (kills s) k = (kill_begin-Kept bs p s k, tt)
step-Fine c p bs (hooks s proc let_go) k = kill_hook-Fine bs p s proc let_go k
step-Fine c p bs (kill_ends s) k = kill_end-Fine bs p s k
step-Fine c p bs (kill_breaks s) k = (kill_breaks-Kept bs p s k, tt)
step-Fine c p bs (holds s) k = (hold-Kept bs p s k, tt)
step-Fine c p bs (marks s) k = (mark_held-Kept bs p s k, tt)
step-Fine c p bs (turn_ends s ended) k = turn_over-Fine bs p s ended k
step-Fine c p bs (touches s now) k = (unfold touch in Kept-same bs p _ refl refl refl k, tt)
step-Fine c p bs (exits s) k = (dies-Kept bs p s k, tt)

-- Each step calls its hooks where they are safe and leaves the marked leases kept.
abbrev pub Upheld : Settings → PiPool → List ℕ → List Step → Type 0
Upheld c p bs [] = Unit
Upheld c p bs (v ∷ vs) =
    (Kept (broken v bs) (step c p v).0 × All (Safe (step c p v).0) (step c p v).1)
    × Upheld c (step c p v).0 (broken v bs) vs

steps-Upheld :
    (c : Settings) (p : PiPool) (bs : List ℕ) (vs : List Step) → Kept bs p → Upheld c p bs vs
steps-Upheld c p bs [] k = tt
steps-Upheld c p bs (v ∷ vs) k =
    let fine = step-Fine c p bs v k in (fine, steps-Upheld c (step c p v).0 (broken v bs) vs fine.0)

-- A new pool and any steps of any calls in any order, kills that raise or are cancelled among them,
-- with a mark set only while a turn or a command holds its session. At each step: a hook that gives
-- a lease up is called at a session that no turn holds, and on_release only where besides no kill is
-- under way and no process is alive. And after each step a session whose lease is marked, and of
-- which no kill broke off so far, is held or being killed, so it still has an after_turn to come.
pub trace-leases : (c : Settings) (vs : List Step) → Upheld c new [] vs
trace-leases c vs = steps-Upheld c new [] vs (unfold new in λ s m n. cc)
