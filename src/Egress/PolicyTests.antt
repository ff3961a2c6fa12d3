-- ===== src/Egress/PolicyTests.antt =====
-- The policy theorems at concrete inputs.
use apipi.Base.{◌≡◌, refl, Bool, true, false, [], ◌∷◌, some, leb, if◌then◌else◌}
use apipi.Egress.Bytes.{Bytes, split}
use apipi.Egress.Dns.{lower}
use apipi.Egress.Policy.{
  EgressPolicy, restricted, splice, intercept, norm_host, valid_hostname, has, decide, decide_name,
  placeholder, placeholder_name, rstrip, lstrip, is_label, private_name, private_names, allows_name,
  private_allowed, allowed_names, sorted_names, insert_name, index_of,
}
use apipi.Egress.Decide.{decide-allowed, placeholder_name-placeholder}

-- A stand-in for the test of an address: it ends in a digit.
abbrev digits : Bytes → Bool
digits [] = false
digits (b ∷ []) = leb b 57
digits (b ∷ c ∷ bs) = digits (c ∷ bs)

-- " A.b." and "a.b"
abbrev asked : Bytes
asked = 32 ∷ 65 ∷ 46 ∷ 98 ∷ 46 ∷ []

abbrev ab : Bytes
ab = 97 ∷ 46 ∷ 98 ∷ []

abbrev policy : EgressPolicy
policy = record {
  mode = restricted;
  allowed_hosts = ab ∷ [];
  private_hosts = ab ∷ [];
  intercept_hosts = ab ∷ [];
}

is_intercepted : decide digits policy (some asked) ≡ intercept
unfolding decide decide_name norm_host rstrip lstrip lower valid_hostname is_label split
is_intercepted = refl

decide-allowed_example :
    (h : Bytes) × (some asked ≡ some h)
    × (digits (norm_host h) ≡ false)
    × (valid_hostname (norm_host h) ≡ true)
    × (has (norm_host h) policy.allowed_hosts ≡ true)
    × (decide digits policy (some asked)
        ≡ (if has (norm_host h) policy.intercept_hosts then intercept else splice))
decide-allowed_example =
    decide-allowed digits policy (some asked) refl (λ d e. cc (rw is_intercepted at e))

has_placeholder : placeholder digits digits policy asked ≡ some 3323068417
unfolding placeholder private_name private_names allows_name private_allowed allowed_names
    sorted_names insert_name index_of norm_host rstrip lstrip lower
has_placeholder = refl

placeholder_name-placeholder_example :
    placeholder_name digits digits policy 3323068417 ≡ some (norm_host asked)
placeholder_name-placeholder_example =
    placeholder_name-placeholder digits digits policy asked 3323068417 has_placeholder
