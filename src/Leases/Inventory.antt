-- ===== src/Leases/Inventory.antt =====
-- reconcile_inventory of src/apipi/workerhub/inventory.py: what a worker reports against the rows.
use apipi.Base.{ℕ, Bool, not, ◌||◌, List, [], ◌∷◌, ◌++◌, Option, none, some, ◌==◌, if◌then◌else◌}
use apipi.Base.Dict
use apipi.Base.Dict.{Dict}
use apipi.Ingest.Batch.{mem}
use apipi.Pool.Ops.{discard}
use apipi.Commands.Queue.{CommandQueue, has_lease, forget_turns}
use apipi.Deltas.Hub.{Hub, forget_delta}
use apipi.Leases.Rows.{LeaseRow, Rows, clear_session_lease, list_worker_leases}

-- The rows, what the hub keeps for them, the leases of the worker's connection, and the answer: the
-- sessions that were orphaned (their turn fails), the revoked leases, the sessions with an idle time.
pub record Reconciled : Type 0 where
  pub rows : Rows
  pub commands : CommandQueue
  pub deltas : Hub
  pub conn_leases : List ℕ
  pub orphaned : List ℕ
  pub revoke : List (ℕ × Option ℕ)
  pub ttl : List ℕ

unfoldable pub orphan : Reconciled → ℕ → ℕ → Reconciled
orphan r s l = record r {
  rows = clear_session_lease r.rows s;
  commands = forget_turns r.commands l;
  deltas = forget_delta r.deltas s;
  conn_leases = discard l r.conn_leases;
  orphaned = r.orphaned ++ s ∷ [];
}

unfoldable pub add_revoke : Reconciled → ℕ → Option ℕ → Reconciled
add_revoke r s l = record r { revoke = r.revoke ++ (s, l) ∷ [] }

unfoldable pub add_ttl : Reconciled → ℕ → Reconciled
add_ttl r s = record r { ttl = r.ttl ++ s ∷ [] }

-- One leased session and what the worker reports for it.
unfoldable pub compare_one : Bool → Reconciled → ℕ → ℕ → Option ℕ → Reconciled
compare_one orphan_missing r s l (some claimed) =
    if not (claimed == l) then add_revoke r s (some claimed) else add_ttl r s
compare_one orphan_missing r s l none =
    if not orphan_missing || has_lease r.commands l then r else orphan r s l

unfoldable pub compare_all : Bool → Dict ℕ → Reconciled → Dict ℕ → Reconciled
compare_all orphan_missing reported r [] = r
compare_all orphan_missing reported r ((s, l) ∷ leased) =
    compare_all orphan_missing reported (compare_one orphan_missing r s l (Dict.get reported s))
      leased

-- The reported sessions that have no lease of the worker.
unfoldable pub revoke_one : Reconciled → ℕ → ℕ → Option ℕ → Reconciled
revoke_one r s l none = add_revoke r s (some l)
revoke_one r s l (some _) = r

unfoldable pub revoke_unknown : Dict ℕ → Reconciled → Dict ℕ → Reconciled
revoke_unknown leased r [] = r
revoke_unknown leased r ((s, l) ∷ reported) =
    revoke_unknown leased (revoke_one r s l (Dict.get leased s)) reported

-- The workspaces on disk of sessions without a lease: kept while there is a row.
unfoldable pub answer_row : Reconciled → ℕ → Option LeaseRow → Reconciled
answer_row r s none = add_revoke r s none
answer_row r s (some _) = add_ttl r s

unfoldable pub answer_one : Reconciled → ℕ → Option ℕ → Reconciled
answer_one r s (some _) = r
answer_one r s none = if mem s r.ttl then r else answer_row r s (Dict.get r.rows s)

unfoldable pub answer_unleased : Dict ℕ → Reconciled → List ℕ → Reconciled
answer_unleased reported r [] = r
answer_unleased reported r (s ∷ ss) =
    answer_unleased reported (answer_one r s (Dict.get reported s)) ss

-- dict.fromkeys
unfoldable pub without_repeats : List ℕ → List ℕ
without_repeats [] = []
without_repeats (s ∷ ss) = s ∷ discard s (without_repeats ss)

unfoldable pub reconcile_inventory : Reconciled → ℕ → Dict ℕ → List ℕ → Bool → Reconciled
reconcile_inventory r worker reported unleased orphan_missing =
    let leased = list_worker_leases r.rows worker in
    let compared = compare_all orphan_missing reported r leased in
    answer_unleased reported (revoke_unknown leased compared reported) (without_repeats unleased)
