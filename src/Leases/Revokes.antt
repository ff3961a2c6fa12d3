-- ===== src/Leases/Revokes.antt =====
-- Which leases reconcile_inventory (src/apipi/workerhub/inventory.py) tells the worker to give up.
use apipi.Base.{
  ℕ, ◌≡◌, refl, sym, ◌∙◌, Bool, true, false, not, ◌||◌, List, [], ◌∷◌, ◌++◌, Option, none, some,
  ◌==◌, ==_eq, if◌then◌else◌, Bool-cases, inl, inr,
}
use apipi.Base.Dict
use apipi.Base.Dict.{Dict}
use apipi.Ingest.Batch.{mem}
use apipi.Commands.Queue.{has_lease}
use apipi.Leases.Rows.{LeaseRow, list_worker_leases}
use apipi.Leases.Inventory.{
  Reconciled, orphan, add_revoke, add_ttl, compare_one, compare_all, revoke_one, revoke_unknown,
  answer_row, answer_one, answer_unleased, without_repeats, reconcile_inventory,
}
use apipi.Leases.Orphans.{row_lease, get-list_worker_leases, list_worker_leases-Distinct}

-- The list has a lease of a session.
abbrev pub revokes : ℕ → ℕ → List (ℕ × Option ℕ) → Bool
revokes s c [] = false
revokes s c ((t, none) ∷ es) = revokes s c es
revokes s c ((t, some l) ∷ es) =
    if t == s then if l == c then true else revokes s c es else revokes s c es

-- The worker reports this lease for the session, and has another one or none.
abbrev pub is_wrong : Option ℕ → Option ℕ → ℕ → Bool
is_wrong lease none c = false
is_wrong none (some k) c = k == c
is_wrong (some l) (some k) c = if k == l then false else k == c

abbrev orb : Bool → Bool → Bool
orb a b = if a then true else b

revokes-snoc :
    (s c t : ℕ) (l : Option ℕ) (es : List (ℕ × Option ℕ))
    → revokes s c (es ++ (t, l) ∷ []) ≡ orb (revokes s c es) (revokes s c ((t, l) ∷ []))
revokes-snoc s c t l [] = refl
revokes-snoc s c t l ((u, none) ∷ es) = revokes-snoc s c t l es
revokes-snoc s c t l ((u, some k) ∷ es) = elim (Bool-cases (u == s)) [
  | inr a ↦ rw a (revokes-snoc s c t l es)
  | inl a ↦ elim (Bool-cases (k == c)) [
    | inl b ↦ rw (a, b) refl
    | inr b ↦ rw (a, b) (revokes-snoc s c t l es)
  ]
]

abbrev of_session : ℕ → ℕ → Bool → Bool
of_session t s b = if t == s then b else false

orb-false : (a : Bool) → orb a false ≡ a
orb-false true = refl
orb-false false = refl

of_session-false : (t s : ℕ) → of_session t s false ≡ false
of_session-false t s = elim (Bool-cases (t == s)) [ inl a ↦ rw a refl | inr a ↦ rw a refl ]

-- One entry more.
revokes-one : (s c t k : ℕ) → revokes s c ((t, some k) ∷ []) ≡ of_session t s (k == c)
revokes-one s c t k = elim (Bool-cases (k == c)) [ inl a ↦ rw a refl | inr a ↦ rw a refl ]

compare_one-revokes :
    (o : Bool) (r : Reconciled) (t l s c : ℕ) (k : Option ℕ)
    → revokes s c (compare_one o r t l k).revoke
      ≡ orb (revokes s c r.revoke) (of_session t s (is_wrong (some l) k c))
unfolding compare_one orphan add_revoke add_ttl
compare_one-revokes o r t l s c none =
    rw (of_session-false t s, orb-false (revokes s c r.revoke))
      (elim (Bool-cases (not o || has_lease r.commands l)) [
        | inl a ↦ rw a refl
        | inr a ↦ rw a refl
      ])
compare_one-revokes o r t l s c (some k) = elim (Bool-cases (k == l)) [
  | inl a ↦ rw (a, of_session-false t s, orb-false (revokes s c r.revoke)) refl
  | inr a ↦ rw (a, revokes-snoc s c t (some k) r.revoke, revokes-one s c t k) refl
]

-- What the two loops add.
abbrev by_lease : Option ℕ → Option ℕ → ℕ → Bool
by_lease none k c = false
by_lease (some l) k c = is_wrong (some l) k c

abbrev unknown : Option ℕ → Option ℕ → ℕ → Bool
unknown l none c = false
unknown none (some k) c = k == c
unknown (some l) (some k) c = false

orb_assoc : (a b c : Bool) → orb (orb a b) c ≡ orb a (orb b c)
orb_assoc true b c = refl
orb_assoc false b c = refl

compare_all-revokes :
    (o : Bool) (reported : Dict ℕ) (r : Reconciled) (leased : Dict ℕ) (s c : ℕ)
    → Dict.Distinct leased
    → revokes s c (compare_all o reported r leased).revoke
      ≡ orb (revokes s c r.revoke) (by_lease (Dict.get leased s) (Dict.get reported s) c)
unfolding compare_all Dict.get
compare_all-revokes o reported r [] s c h = sym (orb-false (revokes s c r.revoke))
compare_all-revokes o reported r ((t, l) ∷ leased) s c h =
    let k = Dict.get reported t in
    rw
      (
        compare_all-revokes o reported (compare_one o r t l k) leased s c h.1,
        compare_one-revokes o r t l s c k,
        orb_assoc (revokes s c r.revoke) (of_session t s (is_wrong (some l) k c))
            (by_lease (Dict.get leased s) (Dict.get reported s) c),
      )
      (elim (Bool-cases (t == s)) [
        | inr e ↦ rw e refl
        | inl e ↦
            let absent : Dict.get leased s ≡ none = rw (← (==_eq t s e)) h.0 in
            rw (e, absent, ==_eq t s e)
              (rw (orb-false (is_wrong (some l) (Dict.get reported s) c)) refl)
      ])

revoke_one-revokes :
    (r : Reconciled) (t k s c : ℕ) (l : Option ℕ)
    → revokes s c (revoke_one r t k l).revoke
      ≡ orb (revokes s c r.revoke) (of_session t s (unknown l (some k) c))
unfolding revoke_one add_revoke
revoke_one-revokes r t k s c none =
    rw (revokes-snoc s c t (some k) r.revoke, revokes-one s c t k) refl
revoke_one-revokes r t k s c (some l) =
    rw (of_session-false t s) (sym (orb-false (revokes s c r.revoke)))

revoke_unknown-revokes :
    (leased : Dict ℕ) (r : Reconciled) (reported : Dict ℕ) (s c : ℕ)
    → Dict.Distinct reported
    → revokes s c (revoke_unknown leased r reported).revoke
      ≡ orb (revokes s c r.revoke) (unknown (Dict.get leased s) (Dict.get reported s) c)
unfolding revoke_unknown Dict.get
revoke_unknown-revokes leased r [] s c h = sym (orb-false (revokes s c r.revoke))
revoke_unknown-revokes leased r ((t, k) ∷ reported) s c h =
    let l = Dict.get leased t in
    rw
      (
        revoke_unknown-revokes leased (revoke_one r t k l) reported s c h.1,
        revoke_one-revokes r t k s c l,
        orb_assoc (revokes s c r.revoke) (of_session t s (unknown l (some k) c))
            (unknown (Dict.get leased s) (Dict.get reported s) c),
      )
      (elim (Bool-cases (t == s)) [
        | inr e ↦ rw e refl
        | inl e ↦
            let absent : Dict.get reported s ≡ none = rw (← (==_eq t s e)) h.0 in
            rw (e, absent, ==_eq t s e)
              (rw (orb-false (unknown (Dict.get leased s) (some k) c)) refl)
      ])

answer_row-revokes :
    (r : Reconciled) (t s c : ℕ) (o : Option LeaseRow)
    → revokes s c (answer_row r t o).revoke ≡ revokes s c r.revoke
unfolding answer_row add_revoke add_ttl
answer_row-revokes r t s c none =
    revokes-snoc s c t none r.revoke ∙ orb-false (revokes s c r.revoke)
answer_row-revokes r t s c (some _) = refl

answer_one-revokes :
    (r : Reconciled) (t s c : ℕ) (o : Option ℕ)
    → revokes s c (answer_one r t o).revoke ≡ revokes s c r.revoke
unfolding answer_one
answer_one-revokes r t s c (some _) = refl
answer_one-revokes r t s c none = elim (Bool-cases (mem t r.ttl)) [
  | inl a ↦ rw a refl
  | inr a ↦ rw a (answer_row-revokes r t s c (Dict.get r.rows t))
]

answer_unleased-revokes :
    (reported : Dict ℕ) (r : Reconciled) (ts : List ℕ) (s c : ℕ)
    → revokes s c (answer_unleased reported r ts).revoke ≡ revokes s c r.revoke
unfolding answer_unleased
answer_unleased-revokes reported r [] s c = refl
answer_unleased-revokes reported r (t ∷ ts) s c =
    answer_unleased-revokes reported (answer_one r t (Dict.get reported t)) ts s c
    ∙ answer_one-revokes r t s c (Dict.get reported t)

by_lease-unknown : (l k : Option ℕ) (c : ℕ) → orb (by_lease l k c) (unknown l k c) ≡ is_wrong l k c
by_lease-unknown none none c = refl
by_lease-unknown none (some k) c = refl
by_lease-unknown (some l) none c = refl
by_lease-unknown (some l) (some k) c = orb-false (is_wrong (some l) (some k) c)

-- The answer to an inventory tells the worker to give up a lease of a session exactly where the
-- worker reports this lease and the session's row has another lease of the worker or none: a lease
-- that both sides have is never revoked.
pub reconcile_inventory-revokes :
    (r : Reconciled) (worker : ℕ) (reported : Dict ℕ) (unleased : List ℕ) (orphan_missing : Bool)
    (s c : ℕ)
    → Dict.Distinct r.rows
    → Dict.Distinct reported
    → r.revoke ≡ []
    → revokes s c (reconcile_inventory r worker reported unleased orphan_missing).revoke
      ≡ is_wrong (row_lease worker (Dict.get r.rows s)) (Dict.get reported s) c
unfolding reconcile_inventory
reconcile_inventory-revokes r worker reported unleased orphan_missing s c h d n =
    let leased = list_worker_leases r.rows worker in
    let compared = compare_all orphan_missing reported r leased in
    let first : revokes s c r.revoke ≡ false = rw n refl in
    rw
      (
        answer_unleased-revokes reported (revoke_unknown leased compared reported)
            (without_repeats unleased) s c,
        revoke_unknown-revokes leased compared reported s c d,
        compare_all-revokes orphan_missing reported r leased s c
            (list_worker_leases-Distinct r.rows worker h),
        first,
        get-list_worker_leases r.rows worker s h,
      )
      (by_lease-unknown (row_lease worker (Dict.get r.rows s)) (Dict.get reported s) c)
