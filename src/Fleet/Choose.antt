-- ===== src/Fleet/Choose.antt =====
-- Candidates and choose of src/apipi/workerhub/fleet.py. Memory is in MiB; kinds, images and
-- architectures are strings.
use apipi.Base.{
  ℕ, ◌+◌, ◌-◌, Bool, true, false, not, ◌&&◌, ◌||◌, String, str_eq, List, [], ◌∷◌, map, Option, none,
  some, any, keep, sum_by, ltb, leb, ◌==◌, if◌then◌else◌, length,
}
use apipi.Base.Dict
use apipi.Base.Dict.{Dict}

-- Candidate; `instance` is the replica of a worker that is not on this one, `conn` says that it is.
pub record Candidate : Type 0 where
  pub worker_id : ℕ
  pub accepts : List String
  pub images : List String
  pub arch : String
  pub draining : Bool
  pub capacity : ℕ
  pub memory_mb : ℕ
  pub leases : ℕ
  pub used_mem : ℕ
  pub instance_id : Option ℕ
  pub conn : Bool

-- The fields of WorkerConnection that a placement reads; `leases` is a set.
pub record Connection : Type 0 where
  pub worker_id : ℕ
  pub accepts : List String
  pub images : List String
  pub arch : String
  pub draining : Bool
  pub capacity : ℕ
  pub memory_mb : ℕ
  pub leases : List ℕ
  pub lease_mem : Dict ℕ

abbrev pub mem : String → List String → Bool
mem s ss = any (str_eq s) ss

-- The memory of a connection's leases; a lease of unknown size counts as the new session does.
unfoldable pub used_mem : Connection → ℕ → ℕ
used_mem conn session_mem = sum_by (λ l. Dict.get_or conn.lease_mem l session_mem) conn.leases

unfoldable pub local_candidate : ℕ → Connection → Candidate
local_candidate session_mem conn = record {
  worker_id = conn.worker_id;
  accepts = conn.accepts;
  images = conn.images;
  arch = conn.arch;
  draining = conn.draining;
  capacity = conn.capacity;
  memory_mb = conn.memory_mb;
  leases = length conn.leases;
  used_mem = used_mem conn session_mem;
  instance_id = none;
  conn = true;
}

unfoldable pub local_candidates : List Connection → ℕ → List Candidate
local_candidates conns session_mem = map (local_candidate session_mem) conns

-- The guards of the loop: a candidate that none of them skips.
unfoldable pub is_ready : String → ℕ → Option String → Candidate → Bool
is_ready kind session_mem image c =
    if not (mem kind c.accepts)
    then false
    else if elim image [ none ↦ false | some i ↦ str_eq kind "microvm" && not (mem i c.images) ]
    then false
    else if c.draining
    then false
    else if ltb c.capacity (c.leases + 1)
    then false
    else if ltb c.memory_mb (c.used_mem + session_mem)
    then false
    else true

-- The sort's key, `(-(memory_mb - used_mem), leases)`: the key of the first is not above the
-- second's. Candidates that are ready use no more memory than they have.
unfoldable pub key_le : Candidate → Candidate → Bool
key_le a b =
    let free_a = a.memory_mb - a.used_mem in
    let free_b = b.memory_mb - b.used_mem in
    ltb free_b free_a || (free_a == free_b && leb a.leases b.leases)

-- list.sort, which is stable
unfoldable pub insert : Candidate → List Candidate → List Candidate
insert c [] = c ∷ []
insert c (d ∷ ds) = if key_le c d then c ∷ d ∷ ds else d ∷ insert c ds

unfoldable pub sort : List Candidate → List Candidate
sort [] = []
sort (c ∷ cs) = insert c (sort cs)

abbrev pub head : List Candidate → Option Candidate
head [] = none
head (c ∷ cs) = some c

unfoldable pub choose : List Candidate → String → ℕ → Option String → Option Candidate
choose cs kind session_mem image = head (sort (keep (is_ready kind session_mem image) cs))

unfoldable pub has_image : List Candidate → String → Option String → Bool
has_image cs kind none = true
has_image cs kind (some i) =
    if not (str_eq kind "microvm")
    then true
    else any (λ (c : Candidate). mem kind c.accepts && mem i c.images) cs

-- image_arches: the architectures of the workers that would take the image, each once
unfoldable pub image_arches : List Candidate → String → List String
image_arches [] image = []
image_arches (c ∷ cs) image =
    let rest = image_arches cs image in
    if mem "microvm" c.accepts
      && (not (str_eq c.arch "") && (not (mem image c.images) && not (mem c.arch rest)))
    then c.arch ∷ rest
    else rest
