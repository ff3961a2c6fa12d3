-- ===== src/Leases/Tests.antt =====
-- The theorems about leases at a concrete inventory.
use apipi.Base.{ℕ, ◌≡◌, refl, true, arith, List, [], ◌∷◌, none, some}
use apipi.Base.Dict
use apipi.Base.Dict.{Dict}
use apipi.Commands.Queue.{has_lease, for_lease, forget_turns}
use apipi.Deltas.Hub.{forget_delta}
use apipi.Leases.Rows.{LeaseRow, Rows, list_worker_leases, clear_session_lease, set_session_lease}
use apipi.Leases.Inventory.{
  Reconciled, reconcile_inventory, compare_all, compare_one, orphan, add_revoke, add_ttl,
  revoke_unknown, revoke_one, answer_unleased, answer_one, answer_row, without_repeats,
}
use apipi.Leases.Exclusive.{LeaseStep, grants, clears, extends, renews, run, Holds, grant-Holds}
use apipi.Leases.Revokes.{revokes, is_wrong, reconcile_inventory-revokes}
use apipi.Leases.Orphans.{is_lost, row_lease, after, reconcile_inventory-after}

abbrev leased : ℕ → ℕ → LeaseRow
leased worker lease = record {
  worker_id = some worker;
  lease_id = some lease;
  lease_until = some 100;
}

-- Worker 9 has sessions 1, 2 and 3; worker 8 has session 4.
abbrev start : Reconciled
start = record {
  rows = (1, leased 9 11) ∷ (2, leased 9 12) ∷ (3, leased 9 13) ∷ (4, leased 8 14) ∷ [];
  commands = record { by_lease = []; turns = []; allocated = 0 };
  deltas = record { delta_hits = []; delta_leases = [] };
  conn_leases = 11 ∷ 12 ∷ 13 ∷ [];
  orphaned = [];
  revoke = [];
  ttl = [];
}

-- It reports session 1 as it is, session 2 with an old lease, session 4, and a directory of session 5.
abbrev report : Dict ℕ
report = (1, 11) ∷ (2, 7) ∷ (4, 14) ∷ []

inventory :
    let r = reconcile_inventory start 9 report (5 ∷ []) true in
    (r.orphaned ≡ 3 ∷ [])
    × (r.revoke ≡ (2, some 7) ∷ (4, some 14) ∷ (5, none) ∷ [])
    × (r.ttl ≡ 1 ∷ [])
    × (r.conn_leases ≡ 11 ∷ 12 ∷ [])
unfolding reconcile_inventory compare_all compare_one orphan add_revoke add_ttl revoke_unknown
    revoke_one answer_unleased answer_one answer_row without_repeats list_worker_leases
    clear_session_lease has_lease for_lease forget_turns forget_delta Dict.get Dict.put Dict.remove
inventory = (refl, refl, refl, refl)

reconcile_inventory-after_example :
    Dict.get (reconcile_inventory start 9 report (5 ∷ []) true).rows 3
    ≡ after
        (is_lost true start.commands (row_lease 9 (Dict.get start.rows 3)) (Dict.get report 3))
        (Dict.get start.rows 3)
unfolding Dict.get
reconcile_inventory-after_example =
    reconcile_inventory-after start 9 report (5 ∷ []) true 3 (refl, (refl, (refl, (refl, tt))))

reconcile_inventory-revokes_example :
    revokes 2 7 (reconcile_inventory start 9 report (5 ∷ []) true).revoke
    ≡ is_wrong (row_lease 9 (Dict.get start.rows 2)) (Dict.get report 2) 7
unfolding Dict.get
reconcile_inventory-revokes_example =
    reconcile_inventory-revokes start 9 report (5 ∷ []) true 2 7 (refl, (refl, (refl, (refl, tt))))
      (refl, (refl, (refl, tt))) refl

-- Session 1's lease has run out and worker 8 gets it; worker 9 asks in vain, and worker 8 extends.
abbrev granted : Rows
granted =
    (1, record { worker_id = some 8; lease_id = some 21; lease_until = some 200 })
    ∷ (2, leased 9 12)
    ∷ []

abbrev attempts : List LeaseStep
attempts = grants 1 9 22 300 150 ∷ clears 2 ∷ extends 8 260 true ∷ renews 8 (21 ∷ []) 280 ∷ []

grant-Holds_example : Holds 8 21 200 (Dict.get (run granted attempts) 1)
unfolding set_session_lease Dict.get Dict.put
grant-Holds_example =
    grant-Holds ((1, leased 9 11) ∷ (2, leased 9 12) ∷ []) granted 1 8 21 200 120 attempts refl
      (omega arith, (refl, (omega arith, (omega arith, tt))))
