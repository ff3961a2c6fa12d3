-- ===== src/Leases/Rows.antt =====
-- The lease columns of a session row and the calls of src/apipi/store/repo.py that write them.
use apipi.Base.{List, ℕ, Bool, true, false, [], ◌∷◌, Option, none, some, ltb, ◌==◌, if◌then◌else◌}
use apipi.Base.Dict
use apipi.Base.Dict.{Dict}
use apipi.Ingest.Batch.{mem}

pub record LeaseRow : Type 0 where
  pub worker_id : Option ℕ
  pub lease_id : Option ℕ
  pub lease_until : Option ℕ

abbrev pub Rows : Type 0
Rows = Dict LeaseRow

-- `lease_id IS NULL OR lease_until < now`; a comparison with NULL does not hold.
abbrev pub is_past : ℕ → Option ℕ → Bool
is_past now none = false
is_past now (some t) = ltb t now

abbrev pub is_free : ℕ → LeaseRow → Bool
is_free now row = elim row.lease_id [ none ↦ true | some l ↦ is_past now row.lease_until ]

-- set_session_lease: `none` where no row was updated.
unfoldable pub set_session_lease : Rows → ℕ → ℕ → ℕ → ℕ → ℕ → Option Rows
set_session_lease rows s worker lease until now = elim (Dict.get rows s) [
  | none ↦ none
  | some row ↦
      if is_free now row
      then some (
          Dict.put rows s
            (record { worker_id = some worker; lease_id = some lease; lease_until = some until }))
      else none
]

abbrev pub cleared : LeaseRow
cleared = record { worker_id = none; lease_id = none; lease_until = none }

-- clear_session_lease
unfoldable pub clear_session_lease : Rows → ℕ → Rows
clear_session_lease rows s = elim (Dict.get rows s) [
  | none ↦ rows
  | some _ ↦ Dict.put rows s cleared
]

-- The lease of a row that is the worker's.
abbrev pub if_worker : ℕ → Option ℕ → Option ℕ → Option ℕ
if_worker worker none lease = none
if_worker worker (some w) lease = if w == worker then lease else none

abbrev pub lease_here : ℕ → LeaseRow → Option ℕ
lease_here worker row = if_worker worker row.worker_id row.lease_id

abbrev pub with_lease : ℕ → Option ℕ → Dict ℕ → Dict ℕ
with_lease s none d = d
with_lease s (some l) d = (s, l) ∷ d

-- list_worker_leases, the rows with a lease, and the lease of each.
unfoldable pub list_worker_leases : Rows → ℕ → Dict ℕ
list_worker_leases [] worker = []
list_worker_leases ((s, row) ∷ rows) worker =
    with_lease s (lease_here worker row) (list_worker_leases rows worker)

abbrev pub extended : ℕ → ℕ → Option ℕ → LeaseRow → LeaseRow
extended worker until none row = row
extended worker until (some l) row = record row { lease_until = some until }

-- extend_worker_leases: `current` is whether the generation is the worker's, or none is given.
unfoldable pub extend_worker_leases : Rows → ℕ → ℕ → Bool → Rows
extend_worker_leases rows worker until current =
    if current
    then Dict.map_values (λ row. extended worker until (lease_here worker row) row) rows
    else rows

abbrev pub renewed : List ℕ → ℕ → Option ℕ → LeaseRow → LeaseRow
renewed ids until none row = row
renewed ids until (some l) row = if mem l ids then record row { lease_until = some until } else row

-- renew_session_leases: the given leases of the worker.
unfoldable pub renew_session_leases : Rows → ℕ → List ℕ → ℕ → Rows
renew_session_leases rows worker ids until =
    Dict.map_values (λ row. renewed ids until (lease_here worker row) row) rows
