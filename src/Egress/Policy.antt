-- ===== src/Egress/Policy.antt =====
-- src/apipi/worker/egress/policy.py. Hosts are the bytes of ASCII text, an IPv4 address is its number.
-- `is_ip_literal` and `is_network` ask Python's ipaddress and are arguments.
use apipi.Base.{
  ℕ, zero, suc, ◌+◌, ◌-◌, Bool, true, false, not, ◌&&◌, ◌||◌, List, [], ◌∷◌, map, Option, none,
  some, ltb, leb, ◌==◌, if◌then◌else◌, length, is_empty, any, keep,
}
use apipi.Egress.Bytes.{Bytes, equal, split}
use apipi.Egress.Dns.{lower, dot_byte}

pub data EgressMode : Type 0 where
  enabled restricted disabled : EgressMode

pub data Reason : Type 0 where
  disabled_mode no_host ip_literal bad_host not_allowed : Reason

pub data Decision : Type 0 where
  splice intercept : Decision
  reject : Reason → Decision

-- str.isspace on ASCII
abbrev pub is_space : ℕ → Bool
is_space b = b == 32 || (leb 9 b && leb b 13 || leb 28 b && leb b 31)

unfoldable pub lstrip : (ℕ → Bool) → Bytes → Bytes
lstrip p [] = []
lstrip p (b ∷ bs) = let rest = lstrip p bs in if p b then rest else b ∷ bs

unfoldable pub rstrip : (ℕ → Bool) → Bytes → Bytes
rstrip p [] = []
rstrip p (b ∷ bs) = let rest = rstrip p bs in if is_empty rest && p b then [] else b ∷ rest

unfoldable pub norm_host : Bytes → Bytes
norm_host host = map lower (rstrip (λ b. b == dot_byte) (rstrip is_space (lstrip is_space host)))

-- [a-z0-9_]
abbrev pub is_word : ℕ → Bool
is_word b = leb 97 b && leb b 122 || (leb 48 b && leb b 57 || b == 95)

abbrev pub ends_in_word : Bytes → Bool
ends_in_word [] = false
ends_in_word (b ∷ []) = is_word b
ends_in_word (b ∷ c ∷ bs) = ends_in_word (c ∷ bs)

abbrev pub starts_in_word : Bytes → Bool
starts_in_word [] = false
starts_in_word (b ∷ bs) = is_word b

-- `_LABEL.fullmatch`: at most 63 characters of [a-z0-9_-], the first and the last no dash
unfoldable pub is_label : Bytes → Bool
is_label l =
    leb (length l) 63
    && (not (any (λ b. not (is_word b || b == 45)) l) && (starts_in_word l && ends_in_word l))

unfoldable pub valid_hostname : Bytes → Bool
valid_hostname host =
    let name = norm_host host in
    if is_empty name || ltb 253 (length name)
    then false
    else not (any (λ l. not (is_label l)) (split dot_byte name))

abbrev pub has : Bytes → List Bytes → Bool
has name names = any (equal name) names

pub record EgressPolicy : Type 0 where
  pub mode : EgressMode
  pub allowed_hosts : List Bytes
  pub private_hosts : List Bytes
  pub intercept_hosts : List Bytes

unfoldable pub build : EgressMode → List Bytes → List Bytes → List Bytes → EgressPolicy
build mode allowed private intercepted = record {
  mode = mode;
  allowed_hosts = map norm_host allowed;
  private_hosts = private;
  intercept_hosts = map norm_host intercepted;
}

unfoldable pub with_intercept : EgressPolicy → List Bytes → EgressPolicy
with_intercept p hosts = record p { intercept_hosts = map norm_host hosts }

unfoldable pub allows_name : EgressPolicy → Bytes → Bool
allows_name p host = elim p.mode [
  | disabled ↦ false
  | enabled ↦ true
  | restricted ↦ has (norm_host host) p.allowed_hosts
]

abbrev pub is_restricted : EgressMode → Bool
is_restricted restricted = true
is_restricted _ = false

abbrev pub is_disabled : EgressMode → Bool
is_disabled disabled = true
is_disabled _ = false

-- The order of sorted() on text, and sorted() on a set: each name once.
abbrev pub text_lt : Bytes → Bytes → Bool
text_lt _ [] = false
text_lt [] (b ∷ bs) = true
text_lt (a ∷ xs) (b ∷ ys) = if a == b then text_lt xs ys else ltb a b

unfoldable pub insert_name : Bytes → List Bytes → List Bytes
insert_name n [] = n ∷ []
insert_name n (m ∷ ms) =
    let rest = insert_name n ms in
    if equal n m then m ∷ ms else if text_lt n m then n ∷ m ∷ ms else m ∷ rest

unfoldable pub sorted_names : List Bytes → List Bytes
sorted_names [] = []
sorted_names (n ∷ ns) = insert_name n (sorted_names ns)

-- PLACEHOLDER_NET, 198.18.0.0/15
abbrev pub placeholder_base : ℕ
placeholder_base = 3323068416

abbrev pub placeholder_size : ℕ
placeholder_size = 131072

unfoldable pub is_placeholder : ℕ → Bool
is_placeholder a = leb placeholder_base a && ltb a (placeholder_base + placeholder_size)

-- The place of a name, counted from 1.
unfoldable pub index_of : Bytes → List Bytes → Option ℕ
index_of n [] = none
index_of n (m ∷ ms) =
    if equal n m then some 1 else elim (index_of n ms) [ none ↦ none | some i ↦ some (suc i) ]

-- names[i - 1]
unfoldable pub name_at : List Bytes → ℕ → Option Bytes
name_at ns zero = none
name_at [] (suc i) = none
name_at (n ∷ ns) (suc zero) = some n
name_at (n ∷ ns) (suc (suc i)) = name_at ns (suc i)

-- allowed_names of src/apipi/common/netguard.py, a set: the entries that are no networks
unfoldable pub allowed_names : (Bytes → Bool) → List Bytes → List Bytes
allowed_names is_network entries = map norm_host (keep (λ e. not (is_network e)) entries)

module _ (is_ip_literal is_network : Bytes → Bool) where
  unfoldable pub private_allowed : EgressPolicy → Bytes → Bool
  private_allowed p host =
      let name = norm_host host in
      if is_empty host
      then false
      else if is_ip_literal name
      then false
      else if has name p.intercept_hosts
      then true
      else is_restricted p.mode && has name p.allowed_hosts

  unfoldable pub private_name : EgressPolicy → Bytes → Bool
  private_name p host =
      if not (allows_name p host) || not (private_allowed p host)
      then false
      else has (norm_host host) (allowed_names is_network p.private_hosts)

  unfoldable pub private_names : EgressPolicy → List Bytes
  private_names p = sorted_names (keep (private_name p) (allowed_names is_network p.private_hosts))

  unfoldable pub placeholder : EgressPolicy → Bytes → Option ℕ
  placeholder p host =
      if not (private_name p host)
      then none
      else elim (index_of (norm_host host) (private_names p)) [
        | none ↦ none
        | some i ↦ if leb (placeholder_size - 1) i then none else some (placeholder_base + i)
      ]

  unfoldable pub placeholder_name : EgressPolicy → ℕ → Option Bytes
  placeholder_name p address =
      let i = address - placeholder_base in
      if not (is_placeholder address)
      then none
      else if not (leb 1 i && leb i (length (private_names p))) || leb (placeholder_size - 1) i
      then none
      else name_at (private_names p) i

  unfoldable pub needs_dns : EgressPolicy → Bool
  needs_dns p = elim p.mode [
    | restricted ↦ true
    | enabled ↦ not (is_empty (private_names p))
    | disabled ↦ false
  ]

module _ (is_ip_literal : Bytes → Bool) where
  -- decide; the port is not looked at
  unfoldable pub decide_name : EgressPolicy → Bytes → Decision
  decide_name p name =
      if is_ip_literal name
      then if is_restricted p.mode then reject ip_literal else splice
      else if not (valid_hostname name)
      then reject bad_host
      else if is_restricted p.mode && not (has name p.allowed_hosts)
      then reject not_allowed
      else if has name p.intercept_hosts
      then intercept
      else splice

  unfoldable pub decide : EgressPolicy → Option Bytes → Decision
  decide p host = if is_disabled p.mode then reject disabled_mode else elim host [
    | none ↦ if is_restricted p.mode then reject no_host else splice
    | some h ↦
        if is_empty h
        then if is_restricted p.mode then reject no_host else splice
        else decide_name p (norm_host h)
  ]
