-- ===== src/Pool/Load.antt =====
-- What a weight comes to over the pool, before and after each method (src/apipi/worker/pi/pool.py).
use apipi.Base.{
  ℕ, ◌+◌, ◌≤◌, ◌≡◌, refl, true, false, Option, none, some, if◌then◌else◌, arith, Option-cases, inl,
  inr,
}
use apipi.Base.Dict
use apipi.Base.Dict.{Dict}
use apipi.Pool.State.{Proc, Call, Settings, PiPool}
use apipi.Pool.Ops.{load, kill_begin, reuse, claim, capacity_code, store_proc, finish_spawn, dies}

-- The dicts of the pool fit together: a boot in flight has its reservation and its session no
-- process.
pub record Fits (p : PiPool) : Type 0 where
  pub procs_once : Dict.Distinct p.procs
  pub reserved_once : Dict.Distinct p.reserved
  pub reserves :
      (s : ℕ) (a : Call)
      → Dict.get p.inflight s ≡ some a
      → Dict.get p.reserved s ≡ some (a.tenant, a.mem)
  pub frees : (s : ℕ) → Dict.get p.inflight s ≡ none → Dict.get p.reserved s ≡ none
  pub waiting : (s : ℕ) (a : Call) → Dict.get p.inflight s ≡ some a → Dict.get p.procs s ≡ none

module _ (f : Option ℕ → ℕ → ℕ) where
  abbrev weight : Proc → ℕ
  weight r = if r.alive then f r.tenant r.mem else 0

  abbrev reserve : Option ℕ × ℕ → ℕ
  reserve r = f r.0 r.1

  pub load-kill_begin-le : (p : PiPool) (s : ℕ) → Fits p → load f (kill_begin p s) ≤ load f p
  unfolding load kill_begin
  load-kill_begin-le p s k = omega (arith, Dict.total-remove weight p.procs s k.procs_once)

  pub load-finish_spawn-le : (p : PiPool) (s : ℕ) → Fits p → load f (finish_spawn p s) ≤ load f p
  unfolding load finish_spawn
  load-finish_spawn-le p s k = omega (arith, Dict.total-remove reserve p.reserved s k.reserved_once)

  pub load-dies-le : (p : PiPool) (s : ℕ) → load f (dies p s) ≤ load f p
  unfolding load dies
  load-dies-le p s = elim (Option-cases (Dict.get p.procs s)) [
    | inl g ↦ rw (g, dies) (omega arith)
    | inr (r, g) ↦
        let change = Dict.total-put weight p.procs s (record r { alive = false }) in
        rw (g, dies) (omega (arith, change))
  ]

  pub load-reuse :
      (p : PiPool) (s : ℕ) (a : Call) (r : Proc) (now : ℕ)
      → Dict.get p.procs s ≡ some r
      → load f (reuse p s a r now) ≡ load f p
  unfolding load reuse
  load-reuse p s a r now g = elim (Option-cases a.env_type) [
    | inl e ↦ rw e refl
    | inr (t, e) ↦
        let change = Dict.total-put weight p.procs s (record r { env_type = some t }) in
        rw e (omega (arith, rw g at change))
  ]

  pub load-store_proc :
      (p : PiPool) (s : ℕ) (a : Call) (ident now : ℕ)
      → Fits p
      → Dict.get p.inflight s ≡ some a
      → load f (store_proc p s a ident now) ≡ load f p
  unfolding load store_proc
  load-store_proc p s a ident now k g =
      let new : Proc = record {
        ident = ident;
        alive = true;
        spec = a.spec;
        tenant = a.tenant;
        mem = a.mem;
        env_type = a.env_type;
      } in
      let stored = Dict.total-put weight p.procs s new in
      let freed = Dict.total-remove reserve p.reserved s k.reserved_once in
      omega (arith, rw (k.waiting s a g) at stored, rw (k.reserves s a g) at freed)

  pub load-claim :
      (c : Settings) (p : PiPool) (s : ℕ) (a : Call)
      → Fits p
      → Dict.get p.inflight s ≡ none
      → capacity_code c p s a.tenant a.mem ≡ none
      → load f (claim c p s a).0 ≡ load f p + f a.tenant a.mem
  unfolding load claim
  load-claim c p s a k g fits =
      let put = Dict.total-put reserve p.reserved s (a.tenant, a.mem) in
      rw (fits, claim) (omega (arith, rw (k.frees s g) at put))
