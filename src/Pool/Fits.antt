-- ===== src/Pool/Fits.antt =====
-- The dicts of the pool stay fitted together (src/apipi/worker/pi/pool.py).
use apipi.Base.{
  ℕ, ◌≡◌, refl, ap, true, false, ◌∷◌, none, some, ◌==◌, ==_eq, arith, Bool-cases, Option-cases, inl,
  inr, some_eq,
}
use apipi.Base.Dict
use apipi.Base.Dict.{Dict}
use apipi.Pool.State.{Proc, Call, PiPool}
use apipi.Pool.Ops.{kill_begin, reuse, store_proc, finish_spawn, dies}
use apipi.Pool.Load.{Fits}

pub kill_begin-Fits : (p : PiPool) (s : ℕ) → Fits p → Fits (kill_begin p s)
unfolding kill_begin
kill_begin-Fits p s k = record {
  procs_once = Dict.remove-Distinct p.procs s k.procs_once;
  reserved_once = k.reserved_once;
  reserves = k.reserves;
  frees = k.frees;
  waiting = λ j a g. rw (Dict.get-remove p.procs s j, k.waiting j a g) (ground arith);
}

-- A write at a session that has a process.
put-waiting :
    (p : PiPool) (s : ℕ) (r r' : Proc) (j : ℕ) (a : Call)
    → Fits p
    → Dict.get p.procs s ≡ some r
    → Dict.get p.inflight j ≡ some a
    → Dict.get (Dict.put p.procs s r') j ≡ none
put-waiting p s r r' j a k g h = elim (Bool-cases (s == j)) [
  | inl e ↦
      let free : Dict.get p.procs s ≡ none = rw (==_eq s j e) (k.waiting j a h) in cc (g, free)
  | inr e ↦ rw (Dict.get-put p.procs s j r', e) (k.waiting j a h)
]

pub reuse-Fits :
    (p : PiPool) (s : ℕ) (a : Call) (r : Proc) (now : ℕ)
    → Fits p
    → Dict.get p.procs s ≡ some r
    → Fits (reuse p s a r now)
unfolding reuse
reuse-Fits p s a r now k g = elim (Option-cases a.env_type) [
  | inl e ↦ rw e (record {
    procs_once = k.procs_once;
    reserved_once = k.reserved_once;
    reserves = k.reserves;
    frees = k.frees;
    waiting = k.waiting;
  })
  | inr (t, e) ↦
      let r' : Proc = record r { env_type = some t } in
      rw e (record {
        procs_once = Dict.put-Distinct p.procs s r' k.procs_once;
        reserved_once = k.reserved_once;
        reserves = k.reserves;
        frees = k.frees;
        waiting = λ j b h. put-waiting p s r r' j b k g h;
      })
]

pub dies-Fits : (p : PiPool) (s : ℕ) → Fits p → Fits (dies p s)
unfolding dies
dies-Fits p s k = elim (Option-cases (Dict.get p.procs s)) [
  | inl g ↦ rw (g, dies) k
  | inr (r, g) ↦
      let r' : Proc = record r { alive = false } in
      rw (g, dies)
        (record {
          procs_once = Dict.put-Distinct p.procs s r' k.procs_once;
          reserved_once = k.reserved_once;
          reserves = k.reserves;
          frees = k.frees;
          waiting = λ j b h. put-waiting p s r r' j b k g h;
        })
]

module _ (p : PiPool) (s : ℕ) (k : Fits p) where
  removed-reserves :
      (j : ℕ) (a : Call)
      → Dict.get (Dict.remove p.inflight s) j ≡ some a
      → (Dict.get p.inflight j ≡ some a) × ((s == j) ≡ false)
  removed-reserves j a h = elim (Bool-cases (s == j)) [
    | inl e ↦ cc (rw (Dict.get-remove p.inflight s j, e) at h)
    | inr e ↦ (rw (Dict.get-remove p.inflight s j, e) at h, e)
  ]

  ended-reserves :
      (j : ℕ) (a : Call)
      → Dict.get (Dict.remove p.inflight s) j ≡ some a
      → Dict.get (Dict.remove p.reserved s) j ≡ some (a.tenant, a.mem)
  ended-reserves j a h =
      let (g, e) = removed-reserves j a h in
      rw (Dict.get-remove p.reserved s j, e) (k.reserves j a g)

  ended-frees :
      (j : ℕ)
      → Dict.get (Dict.remove p.inflight s) j ≡ none
      → Dict.get (Dict.remove p.reserved s) j ≡ none
  ended-frees j h = elim (Bool-cases (s == j)) [
    | inl e ↦ rw (Dict.get-remove p.reserved s j, e) refl
    | inr e ↦
        rw (Dict.get-remove p.reserved s j, e)
          (k.frees j (rw (Dict.get-remove p.inflight s j, e) at h))
  ]

  pub finish_spawn-Fits : Fits (finish_spawn p s)
  unfolding finish_spawn
  finish_spawn-Fits = record {
    procs_once = k.procs_once;
    reserved_once = Dict.remove-Distinct p.reserved s k.reserved_once;
    reserves = ended-reserves;
    frees = ended-frees;
    waiting = λ j a h. k.waiting j a (removed-reserves j a h).0;
  }

  pub store_proc-Fits : (a : Call) (ident now : ℕ) → Fits (store_proc p s a ident now)
  unfolding store_proc
  store_proc-Fits a ident now =
      let r : Proc = record {
        ident = ident;
        alive = true;
        spec = a.spec;
        tenant = a.tenant;
        mem = a.mem;
        env_type = a.env_type;
      } in
      record {
        procs_once = Dict.put-Distinct p.procs s r k.procs_once;
        reserved_once = Dict.remove-Distinct p.reserved s k.reserved_once;
        reserves = ended-reserves;
        frees = ended-frees;
        waiting = λ j b h.
            let (g, e) = removed-reserves j b h in
            rw (Dict.get-put p.procs s j r, e) (k.waiting j b g);
      }

pub claimed-Fits :
    (p : PiPool) (s : ℕ) (a : Call)
    → Fits p
    → Dict.get p.procs s ≡ none
    → Fits (record p {
      inflight = Dict.put p.inflight s a;
      reserved = Dict.put p.reserved s (a.tenant, a.mem);
      booting = s ∷ p.booting;
    })
claimed-Fits p s a k free = record {
  procs_once = k.procs_once;
  reserved_once = Dict.put-Distinct p.reserved s (a.tenant, a.mem) k.reserved_once;
  reserves = λ j b h. elim (Bool-cases (s == j)) [
    | inl e ↦
        let same : a ≡ b = some_eq (rw (Dict.get-put p.inflight s j a, e) at h) in
        rw (Dict.get-put p.reserved s j (a.tenant, a.mem), e)
          (ap (λ (x : Call). some (x.tenant, x.mem)) same)
    | inr e ↦
        rw (Dict.get-put p.reserved s j (a.tenant, a.mem), e)
          (k.reserves j b (rw (Dict.get-put p.inflight s j a, e) at h))
  ];
  frees = λ j h. elim (Bool-cases (s == j)) [
    | inl e ↦ cc (rw (Dict.get-put p.inflight s j a, e) at h)
    | inr e ↦
        rw (Dict.get-put p.reserved s j (a.tenant, a.mem), e)
          (k.frees j (rw (Dict.get-put p.inflight s j a, e) at h))
  ];
  waiting = λ j b h. elim (Bool-cases (s == j)) [
    | inl e ↦ rw (← (==_eq s j e)) free
    | inr e ↦ k.waiting j b (rw (Dict.get-put p.inflight s j a, e) at h)
  ];
}
