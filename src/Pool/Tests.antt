-- ===== src/Pool/Tests.antt =====
-- The pool's theorems at a concrete history.
use apipi.Base.{ℕ, ◌≡◌, refl, true, false, List, [], ◌∷◌, none, some}
use apipi.Pool.State.{Spec, Call, Settings, new, mem}
use apipi.Base.Dict
use apipi.Pool.Ops.{
  killed, released, kill_hook, held, kill_count, kill_end, after_turn, kill_begin, get_locked, hold,
  claim, capacity_code, alive, tenant_full, load, store_proc, release,
}
use apipi.Pool.Run.{
  Step, gets, booted, kills, hooks, kill_ends, kill_breaks, holds, turn_ends, run, step, boot,
  turn_over,
}
use apipi.Pool.Capacity.{Within, run-Within}
use apipi.Pool.Leases.{busy, Upheld, trace-leases}

abbrev plain : Spec
plain = record {
  tools = true;
  model = some 1;
  instructions = none;
  thinking = 0;
  system_prompt = none;
  key_id = none;
  codemode = 0;
  web_search = false;
}

abbrev call : ℕ → Call
call tenant = record {
  spec = plain;
  tenant = some tenant;
  mem = 512;
  env_type = some "openai_hosted";
  idle_ttl = none;
}

abbrev small : Settings
small = record {
  max_sessions = 2;
  max_sessions_per_tenant = 1;
  node_memory_mb = 1024;
  pi_idle_ttl_for = λ e. some 60;
}

-- Session 1 boots in a turn and is killed while the turn holds it; session 2 of the same tenant is
-- refused meanwhile.
abbrev history : List Step
history =
    holds 1
    ∷ gets 1 (call 8) 0
    ∷ gets 2 (call 8) 0
    ∷ booted 1 70 1
    ∷ kills 1
    ∷ hooks 1 (some 70) true
    ∷ kill_ends 1
    ∷ turn_ends 1 true
    ∷ []

-- The lease goes at the end of the turn, and not before.
hooks_called : (run small new history).1 ≡ killed 1 (some 70) false ∷ released 1 ∷ []
unfolding run new step kill_hook held kill_end kill_count Dict.get after_turn kill_begin boot
    get_locked hold claim capacity_code alive tenant_full load Dict.total Dict.put store_proc
    turn_over Dict.remove release
hooks_called = refl

-- The turn ends while a kill of its session is under way, and the kill breaks off behind its hook:
-- the lease stays marked at a session that is neither held nor being killed.
abbrev broken_kill : List Step
broken_kill = holds 1 ∷ kills 1 ∷ hooks 1 none true ∷ turn_ends 1 true ∷ kill_breaks 1 ∷ []

mark_left_behind :
    let p = (run small new broken_kill).0 in
    (mem 1 p.release_after ≡ true) × (busy p 1 ≡ false) × (alive p 1 ≡ false)
unfolding run new step kill_hook held kill_count Dict.get after_turn kill_begin hold alive Dict.put
    turn_over Dict.remove release
mark_left_behind = (refl, refl, refl)

run-Within_example : Within small (run small new history).0
run-Within_example = run-Within small history

trace-leases_example : Upheld small new [] history
trace-leases_example = trace-leases small history
