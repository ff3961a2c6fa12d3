-- ===== src/Leases/Exclusive.antt =====
-- A lease that has not run out is given to nobody else (the calls of src/apipi/store/repo.py).
use apipi.Base.{
  ℕ, ◌≡◌, ◌≤◌, refl, Bool, true, false, List, [], ◌∷◌, Option, none, some, ltb, ◌==◌, ==_eq,
  ==_refl, some_eq, All, Bool-cases, Option-cases, inl, inr, arith,
}
use apipi.Base.Dict
use apipi.Leases.Rows.{
  LeaseRow, Rows, is_free, set_session_lease, cleared, clear_session_lease, lease_here, extended,
  extend_worker_leases, renewed, renew_session_leases,
}
use apipi.Ingest.Batch.{mem}

pub data LeaseStep : Type 0 where
  grants : ℕ → ℕ → ℕ → ℕ → ℕ → LeaseStep
  clears : ℕ → LeaseStep
  extends : ℕ → ℕ → Bool → LeaseStep
  renews : ℕ → List ℕ → ℕ → LeaseStep

abbrev pub or_rows : Rows → Option Rows → Rows
or_rows rows none = rows
or_rows rows (some new) = new

unfoldable pub step : Rows → LeaseStep → Rows
step rows (grants s worker lease until now) =
    or_rows rows (set_session_lease rows s worker lease until now)
step rows (clears s) = clear_session_lease rows s
step rows (extends worker until current) = extend_worker_leases rows worker until current
step rows (renews worker ids until) = renew_session_leases rows worker ids until

unfoldable pub run : Rows → List LeaseStep → Rows
run rows [] = rows
run rows (x ∷ xs) = run (step rows x) xs

-- What may happen until a time: others try to get the session, other rows are cleared, and leases
-- are extended or renewed to an end that is not before that time.
abbrev pub Before : ℕ → ℕ → LeaseStep → Type 0
Before end s (grants t worker lease until now) = now ≤ end
Before end s (clears t) = (t == s) ≡ false
Before end s (extends worker until current) = end ≤ until
Before end s (renews worker ids until) = end ≤ until

-- The session has the lease, for the time at least.
abbrev pub Holds : ℕ → ℕ → ℕ → Option LeaseRow → Type 0
Holds worker lease end row =
    (until : ℕ) × (row
      ≡ some (record { worker_id = some worker; lease_id = some lease; lease_until = some until }))
    × (end ≤ until)

module _ (worker lease end s : ℕ) where
  set_session_lease-Holds :
      (rows : Rows) (t w l until now : ℕ)
      → now ≤ end
      → Holds worker lease end (Dict.get rows s)
      → Holds worker lease end (Dict.get (or_rows rows (set_session_lease rows t w l until now)) s)
  unfolding set_session_lease
  set_session_lease-Holds rows t w l until now b (u, g, e) = elim (Option-cases (Dict.get rows t)) [
    | inl a ↦ rw (set_session_lease, a) (u, g, e)
    | inr (row, a) ↦ elim (Bool-cases (t == s)) [
      | inl same ↦
          let late : ltb u now ≡ false = ground arith in
          let entry : Dict.get rows t
              ≡ some (record {
                worker_id = some worker;
                lease_id = some lease;
                lease_until = some u;
              }) =
            rw (==_eq t s same) g in
          rw (set_session_lease, entry, late) (u, g, e)
      | inr other ↦ elim (Bool-cases (is_free now row)) [
        | inr f ↦ rw (set_session_lease, a, f) (u, g, e)
        | inl f ↦
            rw
              (
                set_session_lease,
                a,
                f,
                Dict.get-put rows t s
                    (record { worker_id = some w; lease_id = some l; lease_until = some until }),
                other,
              )
              (u, g, e)
      ]
    ]
  ]

  clear_session_lease-Holds :
      (rows : Rows) (t : ℕ)
      → (t == s) ≡ false
      → Holds worker lease end (Dict.get rows s)
      → Holds worker lease end (Dict.get (clear_session_lease rows t) s)
  unfolding clear_session_lease
  clear_session_lease-Holds rows t other (u, g, e) = elim (Option-cases (Dict.get rows t)) [
    | inl a ↦ rw (clear_session_lease, a) (u, g, e)
    | inr (row, a) ↦ rw (clear_session_lease, a, Dict.get-put rows t s cleared, other) (u, g, e)
  ]

  extend_worker_leases-Holds :
      (rows : Rows) (w until : ℕ) (current : Bool)
      → end ≤ until
      → Holds worker lease end (Dict.get rows s)
      → Holds worker lease end (Dict.get (extend_worker_leases rows w until current) s)
  unfolding extend_worker_leases
  extend_worker_leases-Holds rows w until false b h = h
  extend_worker_leases-Holds rows w until true b (u, g, e) =
      let change : LeaseRow → LeaseRow = λ row. extended w until (lease_here w row) row in
      rw (Dict.get-map_values change rows s, g)
        (elim (Bool-cases (worker == w)) [
          | inl a ↦ rw a (until, refl, b)
          | inr a ↦ rw a (u, refl, e)
        ])

  renew_session_leases-Holds :
      (rows : Rows) (w : ℕ) (ids : List ℕ) (until : ℕ)
      → end ≤ until
      → Holds worker lease end (Dict.get rows s)
      → Holds worker lease end (Dict.get (renew_session_leases rows w ids until) s)
  unfolding renew_session_leases
  renew_session_leases-Holds rows w ids until b (u, g, e) =
      let change : LeaseRow → LeaseRow = λ row. renewed ids until (lease_here w row) row in
      rw (Dict.get-map_values change rows s, g)
        (elim (Bool-cases (worker == w)) [
          | inr a ↦ rw a (u, refl, e)
          | inl a ↦ elim (Bool-cases (mem lease ids)) [
            | inl m ↦ rw (a, m) (until, refl, b)
            | inr m ↦ rw (a, m) (u, refl, e)
          ]
        ])

  step-Holds :
      (rows : Rows) (x : LeaseStep)
      → Before end s x
      → Holds worker lease end (Dict.get rows s)
      → Holds worker lease end (Dict.get (step rows x) s)
  unfolding step
  step-Holds rows (grants t w l until now) b h = set_session_lease-Holds rows t w l until now b h
  step-Holds rows (clears t) b h = clear_session_lease-Holds rows t b h
  step-Holds rows (extends w until current) b h =
      extend_worker_leases-Holds rows w until current b h
  step-Holds rows (renews w ids until) b h = renew_session_leases-Holds rows w ids until b h

  run-Holds :
      (rows : Rows) (xs : List LeaseStep)
      → All (Before end s) xs
      → Holds worker lease end (Dict.get rows s)
      → Holds worker lease end (Dict.get (run rows xs) s)
  unfolding run
  run-Holds rows [] b h = h
  run-Holds rows (x ∷ xs) b h = run-Holds (step rows x) xs b.1 (step-Holds rows x b.0 h)

-- A session's lease is granted to a worker until some time. Whoever asks for the session up to that
-- time, whatever other rows are cleared, and whatever leases are extended or renewed to an end that
-- is not before it: the session's row has that worker and that lease, with an end that is not before.
pub grant-Holds :
    (rows granted : Rows) (s worker lease until now : ℕ) (xs : List LeaseStep)
    → set_session_lease rows s worker lease until now ≡ some granted
    → All (Before until s) xs
    → Holds worker lease until (Dict.get (run granted xs) s)
unfolding set_session_lease
grant-Holds rows granted s worker lease until now xs h b = elim (Option-cases (Dict.get rows s)) [
  | inl a ↦ cc (rw (set_session_lease, a) at h)
  | inr (row, a) ↦ elim (Bool-cases (is_free now row)) [
    | inr f ↦ cc (rw (set_session_lease, a, f) at h)
    | inl f ↦
        let entry : LeaseRow = record {
          worker_id = some worker;
          lease_id = some lease;
          lease_until = some until;
        } in
        let e : Dict.put rows s entry ≡ granted = some_eq (rw (set_session_lease, a, f) at h) in
        let there : Dict.get granted s ≡ some entry =
          rw (← e, Dict.get-put rows s s entry, ==_refl s) refl in
        run-Holds worker lease until s granted xs b (until, there, omega arith)
  ]
]
