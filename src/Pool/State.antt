-- ===== src/Pool/State.antt =====
-- The state of PiPool (src/apipi/worker/pi/pool.py). The dicts that _store_proc writes and _kill pops
-- together (_tenants, _mem, _env_types, _spawn_tools, _models and so on) are the fields of one
-- record; what metrics, logs and lifecycle events read is left out.
use apipi.Base.{ℕ, Bool, String, List, [], Option, ◌==◌, any}
use apipi.Base.Dict.{Dict}

-- What `_same` compares; texts are numbers.
pub record Spec : Type 0 where
  pub tools : Bool
  pub model : Option ℕ
  pub instructions : Option ℕ
  pub thinking : ℕ
  pub system_prompt : Option ℕ
  pub key_id : Option ℕ
  pub codemode : ℕ
  pub web_search : Bool

-- A process and its session's entries.
pub record Proc : Type 0 where
  pub ident : ℕ
  pub alive : Bool
  pub spec : Spec
  pub tenant : Option ℕ
  pub mem : ℕ
  pub env_type : Option String

-- The arguments of a call of `get`; `idle_ttl` is there if idle_ttl_set says so.
pub record Call : Type 0 where
  pub spec : Spec
  pub tenant : Option ℕ
  pub mem : ℕ
  pub env_type : Option String
  pub idle_ttl : Option (Option ℕ)

pub record Settings : Type 0 where
  pub max_sessions : ℕ
  pub max_sessions_per_tenant : ℕ
  pub node_memory_mb : ℕ
  pub pi_idle_ttl_for : Option String → Option ℕ

-- PiPool. `inflight` holds the arguments of the call that boots a process, in place of its future.
pub record PiPool : Type 0 where
  pub procs : Dict Proc
  pub last : Dict ℕ
  pub ttls : Dict (Option ℕ)
  pub held : Dict ℕ
  pub killing : Dict ℕ
  pub release_after : List ℕ
  pub booting : List ℕ
  pub reserved : Dict (Option ℕ × ℕ)
  pub inflight : Dict Call

unfoldable pub new : PiPool
new = record {
  procs = [];
  last = [];
  ttls = [];
  held = [];
  killing = [];
  release_after = [];
  booting = [];
  reserved = [];
  inflight = [];
}

abbrev pub mem : ℕ → List ℕ → Bool
mem s ss = any (λ t. t == s) ss
