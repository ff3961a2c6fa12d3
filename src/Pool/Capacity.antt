-- ===== src/Pool/Capacity.antt =====
-- The pool never passes its limits (src/apipi/worker/pi/pool.py).
use apipi.Base.{
  ℕ, ◌+◌, ◌≤◌, ◌<◌, ◌≡◌, refl, sym, ap, Bool, true, false, List, [], ◌∷◌, Option, none, some, ◌==◌,
  ==_eq, arith, Bool-cases, Option-cases, inl, inr, leb, ltb, subst, ◌||◌,
}
use apipi.Base.Dict
use apipi.Base.Dict.{Dict}
use apipi.Pool.State.{Call, Settings, PiPool, new, mem}
use apipi.Pool.Ops.{
  load, one, of_tenant, memory_of, live, live_for, memory_used, alive, tenant_full, capacity_code,
  kill_begin, reuse, claim, store_proc, finish_spawn, dies, same, get_locked, hold, release,
  release_after_turn, touch, kill_hook, kill_count, kill_end, after_turn, held, is_some, discard,
}
use apipi.Pool.Run.{
  Step, gets, booted, boot_failed, kills, hooks, kill_ends, kill_breaks, holds, marks, turn_ends,
  touches, exits, boot, turn_over, mark_held, step, run,
}
use apipi.Pool.Fits.{
  kill_begin-Fits, reuse-Fits, dies-Fits, finish_spawn-Fits, store_proc-Fits, claimed-Fits,
}
use apipi.Pool.Load.{
  Fits, load-kill_begin-le, load-finish_spawn-le, load-dies-le, load-reuse, load-store_proc,
  load-claim,
}

-- The limits of the settings: sessions, sessions of each tenant, memory.
pub record Within (c : Settings) (p : PiPool) : Type 0 where
  pub sessions : live p ≤ c.max_sessions
  pub tenants : (t : ℕ) → live_for t p ≤ c.max_sessions_per_tenant
  pub memory : memory_used p ≤ c.node_memory_mb

-- Both invariants.
record Good (c : Settings) (p : PiPool) : Type 0 where
  fits : Fits p
  within : Within c p

shrinks :
    (c : Settings) (p q : PiPool)
    → ((f : Option ℕ → ℕ → ℕ) → load f q ≤ load f p)
    → Within c p
    → Within c q
shrinks c p q le w = record {
  sessions = omega (arith, w.sessions, le one);
  tenants = λ t. omega (arith, w.tenants t, le (of_tenant t));
  memory = omega (arith, w.memory, le memory_of);
}

claim-Fits :
    (c : Settings) (p : PiPool) (s : ℕ) (a : Call)
    → Fits p
    → Dict.get p.inflight s ≡ none
    → Dict.get p.procs s ≡ none
    → Fits (claim c p s a).0
unfolding claim
claim-Fits c p s a k g free = elim (Option-cases (capacity_code c p s a.tenant a.mem)) [
  | inr (e, h) ↦ rw (h, claim) k
  | inl h ↦ rw (h, claim) (claimed-Fits p s a k free)
]

-- What a claim within the limits leaves of each of them.
capacity_code-fits :
    (c : Settings) (p : PiPool) (s : ℕ) (t : Option ℕ) (m : ℕ)
    → alive p s ≡ false
    → capacity_code c p s t m ≡ none
    → (live p < c.max_sessions)
      × (tenant_full c p t ≡ false)
      × (memory_used p + m ≤ c.node_memory_mb)
unfolding capacity_code
capacity_code-fits c p s t m off h = elim (Bool-cases (tenant_full c p t)) [
  | inl e ↦ cc (rw (off, e) at h)
  | inr e ↦ elim (Bool-cases (leb c.max_sessions (live p))) [
    | inl f ↦ cc (rw (off, e, f) at h)
    | inr f ↦ elim (Bool-cases (ltb c.node_memory_mb (memory_used p + m))) [
      | inl g ↦ cc (rw (off, e, f, g) at h)
      | inr g ↦ (ground arith, e, ground arith)
    ]
  ]
]

tenant-fits :
    (c : Settings) (p : PiPool) (t : Option ℕ) (m u : ℕ)
    → tenant_full c p t ≡ false
    → live_for u p ≤ c.max_sessions_per_tenant
    → live_for u p + of_tenant u t m ≤ c.max_sessions_per_tenant
unfolding tenant_full
tenant-fits c p none m u h k = omega arith
tenant-fits c p (some t) m u h k = elim (Bool-cases (t == u)) [
  | inr e ↦ rw e (omega arith)
  | inl e ↦ rw e (ground (arith, ap (λ n. live_for n p) (==_eq t u e)))
]

claim-Within :
    (c : Settings) (p : PiPool) (s : ℕ) (a : Call)
    → Good c p
    → Dict.get p.inflight s ≡ none
    → Dict.get p.procs s ≡ none
    → Within c (claim c p s a).0
claim-Within c p s a k g free = elim (Option-cases (capacity_code c p s a.tenant a.mem)) [
  | inr (e, h) ↦ unfold claim in rw (h, claim) k.within
  | inl h ↦
      let off : alive p s ≡ false = unfold alive in rw free refl in
      let (room, tenant, memory) = capacity_code-fits c p s a.tenant a.mem off h in
      let after = λ (f : Option ℕ → ℕ → ℕ). load-claim f c p s a k.fits g h in
      record {
        sessions = omega (arith, after one);
        tenants = λ u. omega (
          arith,
          after (of_tenant u),
          tenant-fits c p a.tenant a.mem u tenant (k.within.tenants u),
        );
        memory = omega (arith, after memory_of);
      }
]

kill_begin-Good : (c : Settings) (p : PiPool) (s : ℕ) → Good c p → Good c (kill_begin p s)
kill_begin-Good c p s k = record {
  fits = kill_begin-Fits p s k.fits;
  within = shrinks c p (kill_begin p s) (λ f. load-kill_begin-le f p s k.fits) k.within;
}

-- What leaves the processes and the boots alone keeps the limits.
Good-same :
    (c : Settings) (p q : PiPool)
    → q.procs ≡ p.procs
    → q.reserved ≡ p.reserved
    → q.inflight ≡ p.inflight
    → Good c p
    → Good c q
Good-same c p q a b d k = record {
  fits = record {
    procs_once = subst Dict.Distinct (sym a) k.fits.procs_once;
    reserved_once = subst Dict.Distinct (sym b) k.fits.reserved_once;
    reserves = λ j x h. rw b (k.fits.reserves j x (rw d at h));
    frees = λ j h. rw b (k.fits.frees j (rw d at h));
    waiting = λ j x h. rw a (k.fits.waiting j x (rw d at h));
  };
  within = shrinks c p q (λ f. unfold load in rw (a, b) (omega arith)) k.within;
}

after_turn-Good : (c : Settings) (p : PiPool) (s : ℕ) → Good c p → Good c (after_turn p s).0
unfolding after_turn
after_turn-Good c p s k = elim (Bool-cases (mem s p.release_after)) [
  | inr e ↦ rw e k
  | inl e ↦ elim (Bool-cases (held p s || is_some (Dict.get p.killing s))) [
    | inl h ↦ rw (e, h) k
    | inr h ↦
        rw (e, h)
          (Good-same c p (record p { release_after = discard s p.release_after }) refl refl refl k)
  ]
]

get_locked-Good :
    (c : Settings) (p : PiPool) (s : ℕ) (a : Call) (now : ℕ)
    → Good c p
    → Good c (get_locked c p s a now).0
unfolding get_locked reuse
get_locked-Good c p s a now k = elim (Option-cases (Dict.get p.inflight s)) [
  | inr (b, g) ↦ rw (g, get_locked) k
  | inl g ↦ elim (Option-cases (Dict.get p.procs s)) [
    | inl free ↦
        rw (g, free, get_locked)
          (record {
            fits = claim-Fits c p s a k.fits g free;
            within = claim-Within c p s a k g free;
          })
    | inr (r, old) ↦ elim (Bool-cases r.alive) [
      | inr dead ↦ rw (g, old, dead, get_locked) (kill_begin-Good c p s k)
      | inl up ↦ elim (Bool-cases (same r.spec a.spec)) [
        | inr other ↦ rw (g, old, up, other, get_locked) (kill_begin-Good c p s k)
        | inl fit ↦
            rw (g, old, up, fit, get_locked)
              (record {
                fits = reuse-Fits p s a r now k.fits old;
                within =
                    shrinks c p (reuse p s a r now)
                      (λ f. omega (arith, load-reuse f p s a r now old)) k.within;
              })
      ]
    ]
  ]
]

boot-Good : (c : Settings) (p : PiPool) (s ident now : ℕ) → Good c p → Good c (boot p s ident now)
unfolding boot
boot-Good c p s ident now k = elim (Option-cases (Dict.get p.inflight s)) [
  | inl g ↦ rw (g, boot) k
  | inr (a, g) ↦
      rw (g, boot)
        (record {
          fits = store_proc-Fits p s k.fits a ident now;
          within =
              shrinks c p (store_proc p s a ident now)
                (λ f. omega (arith, load-store_proc f p s a ident now k.fits g)) k.within;
        })
]

mark_held-Good : (c : Settings) (p : PiPool) (s : ℕ) → Good c p → Good c (mark_held p s)
unfolding mark_held release_after_turn
mark_held-Good c p s k = elim (Bool-cases (held p s)) [
  | inr h ↦ rw h k
  | inl h ↦ rw h (Good-same c p (record p { release_after = s ∷ p.release_after }) refl refl refl k)
]

turn_over-Good :
    (c : Settings) (p : PiPool) (s : ℕ) (ended : Bool) → Good c p → Good c (turn_over p s ended).0
unfolding turn_over release release_after_turn
turn_over-Good c p s true k = after_turn-Good c _ s (Good-same c p _ refl refl refl k)
turn_over-Good c p s false k = after_turn-Good c _ s (Good-same c p _ refl refl refl k)

step-Good : (c : Settings) (p : PiPool) (v : Step) → Good c p → Good c (step c p v).0
unfolding step
step-Good c p (gets s a now) k = get_locked-Good c p s a now k
step-Good c p (booted s ident now) k = boot-Good c p s ident now k
step-Good c p (boot_failed s) k = record {
  fits = finish_spawn-Fits p s k.fits;
  within = shrinks c p (finish_spawn p s) (λ f. load-finish_spawn-le f p s k.fits) k.within;
}
step-Good c p (kills s) k = kill_begin-Good c p s k
step-Good c p (hooks s proc let_go) k =
    unfold kill_hook in Good-same c p (kill_hook p s proc let_go).0 refl refl refl k
step-Good c p (kill_ends s) k =
    unfold kill_end kill_count in after_turn-Good c _ s (Good-same c p _ refl refl refl k)
step-Good c p (kill_breaks s) k = unfold kill_count in Good-same c p _ refl refl refl k
step-Good c p (holds s) k = unfold hold in Good-same c p (hold p s) refl refl refl k
step-Good c p (marks s) k = mark_held-Good c p s k
step-Good c p (turn_ends s ended) k = turn_over-Good c p s ended k
step-Good c p (touches s now) k = unfold touch in Good-same c p (touch p s now) refl refl refl k
step-Good c p (exits s) k = record {
  fits = dies-Fits p s k.fits;
  within = shrinks c p (dies p s) (λ f. load-dies-le f p s) k.within;
}

run-Good : (c : Settings) (p : PiPool) (vs : List Step) → Good c p → Good c (run c p vs).0
unfolding run
run-Good c p [] k = k
run-Good c p (v ∷ vs) k = run-Good c (step c p v).0 vs (step-Good c p v k)

new-Good : (c : Settings) → Good c new
unfolding new load Dict.get Dict.total
new-Good c = record {
  fits = record {
    procs_once = tt;
    reserved_once = tt;
    reserves = λ s a h. cc;
    frees = λ s h. refl;
    waiting = λ s a h. cc;
  };
  within = record { sessions = omega arith; tenants = λ t. omega arith; memory = omega arith };
}

-- A new pool, any settings and any steps of any calls in any order, processes that die among them:
-- the live processes and the boots in flight together never pass the limit on sessions, those of a
-- tenant never pass the tenant's limit, and their memory never passes the node's.
pub run-Within : (c : Settings) (vs : List Step) → Within c (run c new vs).0
run-Within c vs = (run-Good c new vs (new-Good c)).within
