-- ===== src/Rate/Budget.antt =====
-- relay_rate_allowed of src/apipi/common/ratelimit.py, with times in milliseconds.
use apipi.Base.{
  ℕ, suc, ◌+◌, ◌≤◌, ◌≡◌, refl, sym, ap, Bool, false, not, List, [], ◌∷◌, ◌++◌, keep, leb,
  if◌then◌else◌, length, length-append, All, arith, Bool-cases, inl, inr,
}

-- `while hits and hits[0] <= now - 1.0: hits.pop(0)`
unfoldable pub drop_old : ℕ → List ℕ → List ℕ
drop_old now [] = []
drop_old now (t ∷ ts) = let rest = drop_old now ts in if leb (t + 1000) now then rest else t ∷ ts

unfoldable pub relay_rate_allowed : List ℕ → ℕ → ℕ → List ℕ × Bool
relay_rate_allowed hits now limit =
    let kept = drop_old now hits ++ now ∷ [] in (kept, leb (length kept) limit)

-- Times that do not run backwards.
abbrev pub Rising : List ℕ → Type 0
Rising [] = Unit
Rising (t ∷ ts) = All (λ u. t ≤ u) ts × Rising ts

-- A hit of the second before `now`.
abbrev pub is_recent : ℕ → ℕ → Bool
is_recent now t = not (leb (t + 1000) now)

keep-all :
    (now t : ℕ) (ts : List ℕ)
    → leb (t + 1000) now ≡ false
    → All (λ u. t ≤ u) ts
    → keep (is_recent now) ts ≡ ts
keep-all now t [] h k = refl
keep-all now t (u ∷ ts) h k =
    let later : leb (u + 1000) now ≡ false = ground (arith, k.0) in
    rw later (ap (◌∷◌ u) (keep-all now t ts h k.1))

drop_old-keep : (now : ℕ) (ts : List ℕ) → Rising ts → drop_old now ts ≡ keep (is_recent now) ts
unfolding drop_old
drop_old-keep now [] h = refl
drop_old-keep now (t ∷ ts) h = elim (Bool-cases (leb (t + 1000) now)) [
  | inl e ↦ rw e (drop_old-keep now ts h.1)
  | inr e ↦ rw e (ap (◌∷◌ t) (sym (keep-all now t ts e h.0)))
]

-- Hits in the order of their times: what is kept are the hits of the last second and the new one,
-- and the budget holds exactly where these are no more than the limit.
pub relay_rate_allowed-recent :
    (hits : List ℕ) (now limit : ℕ)
    → Rising hits
    → let r = relay_rate_allowed hits now limit in
      (r.0 ≡ keep (is_recent now) hits ++ now ∷ [])
      × (r.1 ≡ leb (suc (length (keep (is_recent now) hits))) limit)
unfolding relay_rate_allowed
relay_rate_allowed-recent hits now limit h =
    let kept = keep (is_recent now) hits in
    let n : length (kept ++ now ∷ []) ≡ suc (length kept) =
      omega (arith, length-append kept (now ∷ [])) in
    rw (drop_old-keep now hits h) (refl, ap (λ m. leb m limit) n)
