-- ===== src/Pool/Ops.antt =====
-- The methods of PiPool (src/apipi/worker/pi/pool.py), cut at the places where they wait.
use apipi.Base.{
  ℕ, ◌+◌, ◌-◌, Bool, true, false, not, ◌&&◌, ◌||◌, List, [], ◌∷◌, Option, none, some, keep, ltb,
  leb, ◌==◌, if◌then◌else◌,
}
use apipi.Base.Dict
use apipi.Base.Dict.{Dict}
use apipi.Pool.State.{Spec, Proc, Call, Settings, PiPool, mem}

pub data Reason : Type 0 where
  session idle respawn memory crash drain shutdown push_failed : Reason

pub data CapacityCode : Type 0 where
  capacity_tenant capacity : CapacityCode

abbrev pub same_option : Option ℕ → Option ℕ → Bool
same_option none none = true
same_option (some a) (some b) = a == b
same_option _ _ = false

abbrev pub same_bool : Bool → Bool → Bool
same_bool true b = b
same_bool false b = not b

-- _same
unfoldable pub same : Spec → Spec → Bool
same a b =
    same_bool a.tools b.tools
    && (same_option a.model b.model
        && (same_option a.instructions b.instructions
            && (a.thinking == b.thinking
                && (a.codemode == b.codemode
                    && (same_bool a.web_search b.web_search
                        && (same_option a.system_prompt b.system_prompt
                            && same_option a.key_id b.key_id))))))

-- How much a weight of tenant and memory comes to over the live processes and the boots in flight:
-- live() counts 1, live_for(tenant) counts the tenant's, capacity_code sums the memory.
unfoldable pub load : (Option ℕ → ℕ → ℕ) → PiPool → ℕ
load f p =
    Dict.total (λ (r : Proc). if r.alive then f r.tenant r.mem else 0) p.procs
    + Dict.total (λ (r : Option ℕ × ℕ). f r.0 r.1) p.reserved

abbrev pub one : Option ℕ → ℕ → ℕ
one t m = 1

abbrev pub of_tenant : ℕ → Option ℕ → ℕ → ℕ
of_tenant t none m = 0
of_tenant t (some u) m = if u == t then 1 else 0

abbrev pub memory_of : Option ℕ → ℕ → ℕ
memory_of t m = m

abbrev pub live : PiPool → ℕ
live p = load one p

abbrev pub live_for : ℕ → PiPool → ℕ
live_for t p = load (of_tenant t) p

abbrev pub memory_used : PiPool → ℕ
memory_used p = load memory_of p

abbrev pub is_alive : Option Proc → Bool
is_alive none = false
is_alive (some r) = r.alive

unfoldable pub alive : PiPool → ℕ → Bool
alive p s = is_alive (Dict.get p.procs s)

unfoldable pub tenant_full : Settings → PiPool → Option ℕ → Bool
tenant_full c p none = false
tenant_full c p (some t) = leb c.max_sessions_per_tenant (live_for t p)

unfoldable pub capacity_code : Settings → PiPool → ℕ → Option ℕ → ℕ → Option CapacityCode
capacity_code c p s tenant incoming =
    if alive p s
    then none
    else if tenant_full c p tenant
    then some capacity_tenant
    else if leb c.max_sessions (live p)
    then some capacity
    else if ltb c.node_memory_mb (memory_used p + incoming)
    then some capacity
    else none

abbrev pub is_some : {A : Type 0} → Option A → Bool
is_some none = false
is_some (some _) = true

unfoldable pub held : PiPool → ℕ → Bool
held p s = is_some (Dict.get p.held s)

unfoldable pub hold : PiPool → ℕ → PiPool
hold p s = record p { held = Dict.put p.held s (Dict.get_or p.held s 0 + 1) }

-- `count = pop(s, 0) - 1; if count > 0: put back`
abbrev pub count_down : Dict ℕ → ℕ → ℕ → Dict ℕ
count_down d s n = if leb 2 n then Dict.put d s (n - 1) else Dict.remove d s

unfoldable pub release : PiPool → ℕ → PiPool
release p s = record p { held = count_down p.held s (Dict.get_or p.held s 0) }

unfoldable pub release_after_turn : PiPool → ℕ → PiPool
release_after_turn p s = record p { release_after = s ∷ p.release_after }

unfoldable pub touch : PiPool → ℕ → ℕ → PiPool
touch p s now = record p { last = Dict.put p.last s now }

abbrev pub discard : ℕ → List ℕ → List ℕ
discard s ss = keep (λ t. not (t == s)) ss

-- What a caller of the pool sees of the hooks: on_kill with the process and whether the lease goes
-- too, and on_release.
pub data Hook : Type 0 where
  killed : ℕ → Option ℕ → Bool → Hook
  released : ℕ → Hook

-- kill up to its first wait: the session's entries go at once.
unfoldable pub kill_begin : PiPool → ℕ → PiPool
kill_begin p s = record p {
  killing = Dict.put p.killing s (Dict.get_or p.killing s 0 + 1);
  procs = Dict.remove p.procs s;
  last = Dict.remove p.last s;
  ttls = Dict.remove p.ttls s;
  booting = discard s p.booting;
}

-- Behind that wait: on_kill is called, and a lease that a turn holds is kept for after_turn. `proc`
-- is the process that was popped, `let_go` the argument `release`.
unfoldable pub kill_hook : PiPool → ℕ → Option ℕ → Bool → PiPool × List Hook
kill_hook p s proc let_go = (
  record p { release_after = if let_go && held p s then s ∷ p.release_after else p.release_after },
  killed s proc (let_go && not (held p s)) ∷ [],
)

unfoldable pub after_turn : PiPool → ℕ → PiPool × List Hook
after_turn p s =
    if not (mem s p.release_after)
    then (p, [])
    else if held p s || is_some (Dict.get p.killing s)
    then (p, [])
    else (
      record p { release_after = discard s p.release_after },
      if alive p s then [] else released s ∷ [],
    )

-- The `finally` of kill, which also runs where _kill raises or is cancelled.
unfoldable pub kill_count : PiPool → ℕ → PiPool
kill_count p s = record p { killing = count_down p.killing s (Dict.get_or p.killing s 1) }

-- The end of a kill whose _kill returned, behind on_kill and the process's end.
unfoldable pub kill_end : PiPool → ℕ → PiPool × List Hook
kill_end p s = after_turn (kill_count p s) s

-- What `get` comes to under the lock.
pub data Claim : Type 0 where
  waits : Claim
  kills : Reason → Claim
  reuses : ℕ → Claim
  refuses : CapacityCode → Claim
  spawns : Claim

abbrev pub set_ttl : Option (Option ℕ) → Dict (Option ℕ) → ℕ → Dict (Option ℕ)
set_ttl none d s = d
set_ttl (some ttl) d s = Dict.put d s ttl

-- The attach of _claim_or_reuse.
unfoldable pub reuse : PiPool → ℕ → Call → Proc → ℕ → PiPool
reuse p s c r now = record p {
  procs = elim c.env_type [
    | none ↦ p.procs
    | some e ↦ Dict.put p.procs s (record r { env_type = some e })
  ];
  ttls = set_ttl c.idle_ttl p.ttls s;
  last = Dict.put p.last s now;
}

unfoldable pub claim : Settings → PiPool → ℕ → Call → PiPool × Claim
claim c p s a = elim (capacity_code c p s a.tenant a.mem) [
  | some code ↦ (p, refuses code)
  | none ↦ (
    record p {
      inflight = Dict.put p.inflight s a;
      reserved = Dict.put p.reserved s (a.tenant, a.mem);
      booting = s ∷ p.booting;
    },
    spawns,
  )
]

-- `get` under its lock. Where it kills the old process, the locked part goes on when the kill has
-- ended, at a session without a process: this is the same part run once more.
unfoldable pub get_locked : Settings → PiPool → ℕ → Call → ℕ → PiPool × Claim
get_locked c p s a now = elim (Dict.get p.inflight s) [
  | some _ ↦ (p, waits)
  | none ↦ elim (Dict.get p.procs s) [
    | none ↦ claim c p s a
    | some r ↦
        if not r.alive
        then (kill_begin p s, kills crash)
        else if not (same r.spec a.spec)
        then (kill_begin p s, kills respawn)
        else (reuse p s a r now, reuses r.ident)
  ]
]

-- _store_proc and what follows it, for the call that booted the process.
unfoldable pub store_proc : PiPool → ℕ → Call → ℕ → ℕ → PiPool
store_proc p s a ident now = record p {
  procs = Dict.put p.procs s (record {
    ident = ident;
    alive = true;
    spec = a.spec;
    tenant = a.tenant;
    mem = a.mem;
    env_type = a.env_type;
  });
  ttls = set_ttl a.idle_ttl p.ttls s;
  last = Dict.put p.last s now;
  inflight = Dict.remove p.inflight s;
  reserved = Dict.remove p.reserved s;
  booting = discard s p.booting;
}

-- _finish_spawn
unfoldable pub finish_spawn : PiPool → ℕ → PiPool
finish_spawn p s = record p {
  reserved = Dict.remove p.reserved s;
  booting = discard s p.booting;
  inflight = Dict.remove p.inflight s;
}

-- A process ends by itself.
unfoldable pub dies : PiPool → ℕ → PiPool
dies p s = elim (Dict.get p.procs s) [
  | none ↦ p
  | some r ↦ record p { procs = Dict.put p.procs s (record r { alive = false }) }
]

unfoldable pub ttl_seconds : Settings → PiPool → ℕ → Option ℕ
ttl_seconds c p s = elim (Dict.get p.ttls s) [
  | some ttl ↦ ttl
  | none ↦ c.pi_idle_ttl_for (elim (Dict.get p.procs s) [ none ↦ none | some r ↦ r.env_type ])
]

-- The sessions that reap kills; `now - last >= ttl` on a clock that does not run backwards.
unfoldable pub idle_sessions : Settings → PiPool → ℕ → Dict ℕ → List ℕ
idle_sessions c p now [] = []
idle_sessions c p now ((s, t) ∷ d) =
    let rest = idle_sessions c p now d in
    let old : Bool = elim (ttl_seconds c p s) [ none ↦ false | some ttl ↦ leb (t + ttl) now ] in
    if old then s ∷ rest else rest

-- The sessions that sweep_dead, kill_unheld and close go through.
unfoldable pub dead_sessions : Dict Proc → List ℕ
dead_sessions [] = []
dead_sessions ((s, r) ∷ d) = let rest = dead_sessions d in if r.alive then rest else s ∷ rest

unfoldable pub unheld : PiPool → List ℕ → List ℕ
unheld p ss = keep (λ s. alive p s && not (held p s)) ss
