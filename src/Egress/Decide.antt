-- ===== src/Egress/Decide.antt =====
-- What the egress policy lets out, and the placeholders of private names
-- (src/apipi/worker/egress/policy.py).
use apipi.Base.{
  ℕ, zero, suc, ◌+◌, ◌-◌, ◌≤◌, ◌≡◌, ◌≢◌, refl, sym, ap, ◌∙◌, Bool, true, false, not, ◌&&◌, ◌||◌,
  List, [], ◌∷◌, Option, none, some, ltb, leb, ==_eq, if◌then◌else◌, length, is_empty, arith,
  Bool-cases, Option-cases, inl, inr, some_eq,
}
use apipi.Egress.Bytes.{Bytes, equal}
use apipi.Egress.Policy.{
  EgressMode, enabled, restricted, disabled, Reason, no_host, ip_literal, bad_host, not_allowed,
  splice, intercept, reject, norm_host, valid_hostname, has, EgressPolicy, is_restricted,
  is_disabled, decide_name, decide, placeholder_base, placeholder_size, is_placeholder, index_of,
  name_at, private_name, private_names, placeholder, placeholder_name,
}

equal_eq : (a b : Bytes) → equal a b ≡ true → a ≡ b
equal_eq [] [] h = refl
equal_eq [] (b ∷ bs) h = cc
equal_eq (a ∷ xs) [] h = cc
equal_eq (a ∷ xs) (b ∷ ys) h =
    let e : a ≡ b = ==_eq a b (ground arith) in rw (e, equal_eq xs ys (ground arith)) refl

later : (m : Bytes) (ns : List Bytes) (j : ℕ) → 1 ≤ j → name_at (m ∷ ns) (suc j) ≡ name_at ns j
unfolding name_at
later m ns zero h = absurd (omega arith)
later m ns (suc j) h = refl

index_of-name_at :
    (n : Bytes) (ns : List Bytes) (i : ℕ)
    → index_of n ns ≡ some i
    → (name_at ns i ≡ some n) × (1 ≤ i) × (i ≤ length ns)
unfolding index_of name_at
index_of-name_at n [] i h = cc
index_of-name_at n (m ∷ ns) i h = elim (Bool-cases (equal n m)) [
  | inl e ↦
      let i' : 1 ≡ i = some_eq (rw e at h) in
      rw (← i') (ap some (sym (equal_eq n m e)), omega arith, omega arith)
  | inr e ↦ elim (Option-cases (index_of n ns)) [
    | inl g ↦ cc (rw (e, g, index_of) at h)
    | inr (j, g) ↦
        let i' : suc j ≡ i = some_eq (rw (e, g, index_of) at h) in
        let (at', low, high) = index_of-name_at n ns j g in
        rw (← i') (later m ns j low ∙ at', omega arith, omega (arith, high))
  ]
]

module _ (is_ip_literal is_network : Bytes → Bool) where
  -- A name with a placeholder address gets itself back from that address.
  pub placeholder_name-placeholder :
      (p : EgressPolicy) (host : Bytes) (a : ℕ)
      → placeholder is_ip_literal is_network p host ≡ some a
      → placeholder_name is_ip_literal is_network p a ≡ some (norm_host host)
  unfolding placeholder placeholder_name is_placeholder
  placeholder_name-placeholder p host a h =
      let name = norm_host host in
      let names = private_names is_ip_literal is_network p in
      elim (Bool-cases (private_name is_ip_literal is_network p host)) [
        | inr e ↦ cc (rw e at h)
        | inl e ↦ elim (Option-cases (index_of name names)) [
          | inl g ↦ cc (rw (e, g, placeholder) at h)
          | inr (i, g) ↦ elim (Bool-cases (leb (placeholder_size - 1) i)) [
            | inl k ↦ cc (rw (e, g, k, placeholder) at h)
            | inr k ↦
                let a' : placeholder_base + i ≡ a = some_eq (rw (e, g, k, placeholder) at h) in
                let (found, low, high) = index_of-name_at name names i g in
                let i' : a - placeholder_base ≡ i = omega (arith, a') in
                let inside : (leb placeholder_base a && ltb a (placeholder_base + placeholder_size))
                    ≡ true =
                  ground (arith, a', k) in
                let bounded : (not (leb 1 i && leb i (length names))
                      || leb (placeholder_size - 1) i)
                    ≡ false =
                  ground (arith, low, high, k) in
                rw (inside, i', bounded) found
          ]
        ]
      ]

module _ (is_ip_literal : Bytes → Bool) where
  restricted-disabled : (m : EgressMode) → is_restricted m ≡ true → is_disabled m ≡ false
  restricted-disabled enabled h = refl
  restricted-disabled restricted h = refl
  restricted-disabled disabled h = cc

  decide_name-allowed :
      (p : EgressPolicy) (name : Bytes)
      → is_restricted p.mode ≡ true
      → ((d : Reason) → decide_name is_ip_literal p name ≢ reject d)
      → (is_ip_literal name ≡ false)
        × (valid_hostname name ≡ true)
        × (has name p.allowed_hosts ≡ true)
        × (decide_name is_ip_literal p name
            ≡ (if has name p.intercept_hosts then intercept else splice))
  unfolding decide_name
  decide_name-allowed p name r h = elim (Bool-cases (is_ip_literal name)) [
    | inl a ↦ absurd (h ip_literal (rw (a, r)))
    | inr a ↦ elim (Bool-cases (valid_hostname name)) [
      | inr b ↦ absurd (h bad_host (rw (a, b)))
      | inl b ↦ elim (Bool-cases (has name p.allowed_hosts)) [
        | inr c ↦ absurd (h not_allowed (rw (a, b, r, c)))
        | inl c ↦ (a, b, c, rw (a, b, r, c) refl)
      ]
    ]
  ]

  -- In the restricted mode a connection that is not refused names a host, which is no address but a
  -- well-formed name and one of the allowed hosts; it is intercepted where the name is one of the
  -- hosts to intercept, and spliced where it is not.
  pub decide-allowed :
      (p : EgressPolicy) (host : Option Bytes)
      → is_restricted p.mode ≡ true
      → ((d : Reason) → decide is_ip_literal p host ≢ reject d)
      → (h : Bytes) × (host ≡ some h)
        × (is_ip_literal (norm_host h) ≡ false)
        × (valid_hostname (norm_host h) ≡ true)
        × (has (norm_host h) p.allowed_hosts ≡ true)
        × (decide is_ip_literal p host
            ≡ (if has (norm_host h) p.intercept_hosts then intercept else splice))
  unfolding decide
  decide-allowed p none r h = absurd (h no_host (rw (restricted-disabled p.mode r, r)))
  decide-allowed p (some host) r h =
      let on = restricted-disabled p.mode r in
      elim (Bool-cases (is_empty host)) [
        | inl e ↦ absurd (h no_host (rw (on, e, r)))
        | inr e ↦
            let named : decide is_ip_literal p (some host)
                ≡ decide_name is_ip_literal p (norm_host host) =
              rw (on, e) refl in
            let (literal, valid, listed, action) =
              decide_name-allowed p (norm_host host) r (λ d q. h d (named ∙ q)) in
            (host, refl, literal, valid, listed, named ∙ action)
      ]
