-- ===== src/Leases/Orphans.antt =====
-- Which leases reconcile_inventory (src/apipi/workerhub/inventory.py) takes away.
use apipi.Base.{
  ℕ, ◌≡◌, refl, ◌∙◌, Bool, true, false, not, ◌&&◌, ◌||◌, List, [], ◌∷◌, Option, none, some, ◌==◌,
  ==_eq, if◌then◌else◌, is_empty, Bool-cases, Option-cases, inl, inr,
}
use apipi.Base.Dict
use apipi.Base.Dict.{Dict}
use apipi.Ingest.Batch.{mem}
use apipi.Commands.Queue.{CommandQueue, has_lease, forget_turns, for_lease}
use apipi.Leases.Rows.{
  LeaseRow, Rows, cleared, lease_here, with_lease, clear_session_lease, list_worker_leases,
}
use apipi.Leases.Inventory.{
  Reconciled, orphan, add_revoke, add_ttl, compare_one, compare_all, revoke_one, revoke_unknown,
  answer_row, answer_one, answer_unleased, without_repeats, reconcile_inventory,
}

-- The lease of a row, where the worker has it, is lost: the worker does not report the session, and
-- no command of the lease is on its way.
abbrev pub is_lost : Bool → CommandQueue → Option ℕ → Option ℕ → Bool
is_lost orphan_missing q none claimed = false
is_lost orphan_missing q (some l) (some claimed) = false
is_lost orphan_missing q (some l) none = orphan_missing && not (has_lease q l)

abbrev pub row_lease : ℕ → Option LeaseRow → Option ℕ
row_lease worker none = none
row_lease worker (some row) = lease_here worker row

abbrev pub clear_row : Option LeaseRow → Option LeaseRow
clear_row none = none
clear_row (some row) = some cleared

abbrev pub after : Bool → Option LeaseRow → Option LeaseRow
after lost row = if lost then clear_row row else row

get-with_lease :
    (t s : ℕ) (l : Option ℕ) (d : Dict ℕ)
    → Dict.get d t ≡ none
    → Dict.get (with_lease t l d) s ≡ (if t == s then l else Dict.get d s)
unfolding Dict.get
get-with_lease t s (some l) d h = refl
get-with_lease t s none d h = elim (Bool-cases (t == s)) [
  | inl e ↦ rw (e, ← (==_eq t s e)) h
  | inr e ↦ rw e refl
]

pub get-list_worker_leases :
    (rows : Rows) (worker s : ℕ)
    → Dict.Distinct rows
    → Dict.get (list_worker_leases rows worker) s ≡ row_lease worker (Dict.get rows s)
unfolding list_worker_leases Dict.get
get-list_worker_leases [] worker s h = refl
get-list_worker_leases ((t, row) ∷ rows) worker s h =
    let absent : Dict.get (list_worker_leases rows worker) t ≡ none =
      rw (get-list_worker_leases rows worker t h.1, h.0) refl in
    rw (get-with_lease t s (lease_here worker row) (list_worker_leases rows worker) absent)
      (elim (Bool-cases (t == s)) [
        | inl e ↦ rw e refl
        | inr e ↦ rw e (get-list_worker_leases rows worker s h.1)
      ])

has_lease-forget_turns :
    (q : CommandQueue) (l m : ℕ) → has_lease (forget_turns q l) m ≡ has_lease q m
unfolding forget_turns has_lease for_lease
has_lease-forget_turns q l m = elim (Bool-cases (is_empty (for_lease q l))) [
  | inl a ↦ rw a refl
  | inr a ↦ rw a refl
]

get-clear_session_lease :
    (rows : Rows) (s t : ℕ)
    → Dict.get (clear_session_lease rows s) t ≡ after (s == t) (Dict.get rows t)
unfolding clear_session_lease
get-clear_session_lease rows s t = elim (Option-cases (Dict.get rows s)) [
  | inr (row, g) ↦
      rw (g, clear_session_lease, Dict.get-put rows s t cleared)
        (elim (Bool-cases (s == t)) [ inl e ↦ rw (e, ← (==_eq s t e), g) refl | inr e ↦ rw e refl ])
  | inl g ↦
      rw (g, clear_session_lease)
        (elim (Bool-cases (s == t)) [ inl e ↦ rw (e, ← (==_eq s t e), g) refl | inr e ↦ rw e refl ])
]

compare_one-commands :
    (o : Bool) (r : Reconciled) (s l m : ℕ) (c : Option ℕ)
    → has_lease (compare_one o r s l c).commands m ≡ has_lease r.commands m
unfolding compare_one orphan add_revoke add_ttl
compare_one-commands o r s l m none = elim (Bool-cases (not o || has_lease r.commands l)) [
  | inl a ↦ rw a refl
  | inr a ↦ rw a (has_lease-forget_turns r.commands l m)
]
compare_one-commands o r s l m (some k) = elim (Bool-cases (k == l)) [
  | inl a ↦ rw a refl
  | inr a ↦ rw a refl
]

after-false : (b : Bool) (row : Option LeaseRow) → after (if b then false else false) row ≡ row
after-false true row = refl
after-false false row = refl

compare_one-rows :
    (o : Bool) (r : Reconciled) (s l t : ℕ) (c : Option ℕ)
    → Dict.get (compare_one o r s l c).rows t
      ≡ after (if s == t then is_lost o r.commands (some l) c else false) (Dict.get r.rows t)
unfolding compare_one orphan add_revoke add_ttl
compare_one-rows o r s l t none = elim (Bool-cases o) [
  | inr a ↦ rw (a, after-false (s == t) (Dict.get r.rows t)) refl
  | inl a ↦ elim (Bool-cases (has_lease r.commands l)) [
    | inl b ↦ rw (a, b, after-false (s == t) (Dict.get r.rows t)) refl
    | inr b ↦
        rw (a, b)
          (elim (Bool-cases (s == t)) [
            | inl e ↦ rw (get-clear_session_lease r.rows s t, e) refl
            | inr e ↦ rw (get-clear_session_lease r.rows s t, e) refl
          ])
  ]
]
compare_one-rows o r s l t (some k) = elim (Bool-cases (k == l)) [
  | inl a ↦ rw (a, after-false (s == t) (Dict.get r.rows t)) refl
  | inr a ↦ rw (a, after-false (s == t) (Dict.get r.rows t)) refl
]

is_lost-commands :
    (o : Bool) (p q : CommandQueue) (l c : Option ℕ)
    → ((m : ℕ) → has_lease p m ≡ has_lease q m)
    → is_lost o p l c ≡ is_lost o q l c
is_lost-commands o p q none c h = refl
is_lost-commands o p q (some l) (some k) h = refl
is_lost-commands o p q (some l) none h = rw (h l) refl

-- The leased sessions, each once: the rows of those that are lost are cleared, the others stay.
compare_all-rows :
    (o : Bool) (reported : Dict ℕ) (r : Reconciled) (leased : Dict ℕ) (t : ℕ)
    → Dict.Distinct leased
    → Dict.get (compare_all o reported r leased).rows t
      ≡ after (is_lost o r.commands (Dict.get leased t) (Dict.get reported t)) (Dict.get r.rows t)
unfolding compare_all Dict.get
compare_all-rows o reported r [] t h = refl
compare_all-rows o reported r ((s, l) ∷ leased) t h =
    let r' = compare_one o r s l (Dict.get reported s) in
    let rest = compare_all-rows o reported r' leased t h.1 in
    let lost =
      is_lost-commands o r'.commands r.commands (Dict.get leased t) (Dict.get reported t)
        (λ m. compare_one-commands o r s l m (Dict.get reported s)) in
    rw (rest, lost, compare_one-rows o r s l t (Dict.get reported s))
      (elim (Bool-cases (s == t)) [
        | inr e ↦ rw e refl
        | inl e ↦
            let absent : Dict.get leased t ≡ none = rw (← (==_eq s t e)) h.0 in
            rw (e, absent, ==_eq s t e) refl
      ])

revoke_one-rows : (r : Reconciled) (s l : ℕ) (o : Option ℕ) → (revoke_one r s l o).rows ≡ r.rows
unfolding revoke_one add_revoke
revoke_one-rows r s l none = refl
revoke_one-rows r s l (some _) = refl

answer_row-rows : (r : Reconciled) (s : ℕ) (o : Option LeaseRow) → (answer_row r s o).rows ≡ r.rows
unfolding answer_row add_revoke add_ttl
answer_row-rows r s none = refl
answer_row-rows r s (some _) = refl

answer_one-rows : (r : Reconciled) (s : ℕ) (o : Option ℕ) → (answer_one r s o).rows ≡ r.rows
unfolding answer_one
answer_one-rows r s (some _) = refl
answer_one-rows r s none = elim (Bool-cases (mem s r.ttl)) [
  | inl a ↦ rw a refl
  | inr a ↦ rw a (answer_row-rows r s (Dict.get r.rows s))
]

with_lease-Distinct :
    (s : ℕ) (l : Option ℕ) (d : Dict ℕ)
    → Dict.get d s ≡ none
    → Dict.Distinct d
    → Dict.Distinct (with_lease s l d)
with_lease-Distinct s none d h k = k
with_lease-Distinct s (some l) d h k = (h, k)

revoke_unknown-rows :
    (leased : Dict ℕ) (r : Reconciled) (reported : Dict ℕ)
    → (revoke_unknown leased r reported).rows ≡ r.rows
unfolding revoke_unknown revoke_one add_revoke
revoke_unknown-rows leased r [] = refl
revoke_unknown-rows leased r ((s, l) ∷ reported) =
    revoke_unknown-rows leased (revoke_one r s l (Dict.get leased s)) reported
    ∙ revoke_one-rows r s l (Dict.get leased s)

answer_unleased-rows :
    (reported : Dict ℕ) (r : Reconciled) (ss : List ℕ)
    → (answer_unleased reported r ss).rows ≡ r.rows
unfolding answer_unleased
answer_unleased-rows reported r [] = refl
answer_unleased-rows reported r (s ∷ ss) =
    answer_unleased-rows reported (answer_one r s (Dict.get reported s)) ss
    ∙ answer_one-rows r s (Dict.get reported s)

pub list_worker_leases-Distinct :
    (rows : Rows) (worker : ℕ) → Dict.Distinct rows → Dict.Distinct (list_worker_leases rows worker)
unfolding list_worker_leases
list_worker_leases-Distinct [] worker h = tt
list_worker_leases-Distinct ((s, row) ∷ rows) worker h =
    with_lease-Distinct s (lease_here worker row) (list_worker_leases rows worker)
      (rw (get-list_worker_leases rows worker s h.1, h.0) refl)
      (list_worker_leases-Distinct rows worker h.1)

-- The rows after a worker's inventory: a session's row is cleared exactly where the worker has its
-- lease and does not report the session, no command of the lease is on its way, and missing sessions
-- are to be orphaned; every other row is as it was, whoever has its lease.
pub reconcile_inventory-after :
    (r : Reconciled) (worker : ℕ) (reported : Dict ℕ) (unleased : List ℕ) (orphan_missing : Bool)
    (s : ℕ)
    → Dict.Distinct r.rows
    → let lost =
        is_lost orphan_missing r.commands
          (row_lease worker (Dict.get r.rows s))
          (Dict.get reported s) in
      Dict.get (reconcile_inventory r worker reported unleased orphan_missing).rows s
      ≡ after lost (Dict.get r.rows s)
unfolding reconcile_inventory
reconcile_inventory-after r worker reported unleased orphan_missing s h =
    let leased = list_worker_leases r.rows worker in
    let compared = compare_all orphan_missing reported r leased in
    rw
      (
        answer_unleased-rows reported (revoke_unknown leased compared reported)
            (without_repeats unleased),
        revoke_unknown-rows leased compared reported,
        compare_all-rows orphan_missing reported r leased s
            (list_worker_leases-Distinct r.rows worker h),
        get-list_worker_leases r.rows worker s h,
      )
      refl
