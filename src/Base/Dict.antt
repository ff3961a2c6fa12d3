-- ===== src/Base/Dict.antt =====
-- Python's `dict` with numbers for keys: entries in insertion order, each key once.
use Prim.Native.Nat.{ℕ, ◌+◌, ◌≤◌}
use mathlib.Core.Path.{◌≡◌, refl}
use mathlib.Core.Logic.{inl, inr}
use mathlib.Core.List.{List, [], ◌∷◌, ◌++◌}
use mathlib.Core.Option
use mathlib.Core.Option.{Option, none, some}
use native.Mathlib.Omega.{arith}
use apipi.Base.Tests.{◌==◌, if◌then◌else◌, Bool-cases, ==_eq}
use apipi.Base.Lists.{length}

abbrev pub Dict {ℓ} : Type ℓ → Type ℓ
Dict V = List (ℕ × V)

module _ {ℓ} {V : Type ℓ} where
  -- d.get(k)
  unfoldable pub get : Dict V → ℕ → Option V
  get [] k = none
  get ((j, v) ∷ d) k = if j == k then some v else get d k

  -- d[k] = v: a key that is there keeps its place.
  unfoldable pub put : Dict V → ℕ → V → Dict V
  put [] k v = (k, v) ∷ []
  put ((j, w) ∷ d) k v = if j == k then (k, v) ∷ d else (j, w) ∷ put d k v

  -- d.pop(k, None)
  unfoldable pub remove : Dict V → ℕ → Dict V
  remove [] k = []
  remove ((j, w) ∷ d) k = if j == k then remove d k else (j, w) ∷ remove d k

  unfoldable pub keys : Dict V → List ℕ
  keys [] = []
  keys ((j, w) ∷ d) = j ∷ keys d

  -- The sum of a measure over the values.
  unfoldable pub total : (V → ℕ) → Dict V → ℕ
  total f [] = 0
  total f ((j, w) ∷ d) = f w + total f d

  -- The measure of a value that may be absent.
  abbrev pub at : (V → ℕ) → Option V → ℕ
  at f none = 0
  at f (some v) = f v

  abbrev pub or_else : V → Option V → V
  or_else v none = v
  or_else v (some w) = w

  -- d.get(k, v)
  abbrev pub get_or : Dict V → ℕ → V → V
  get_or d k v = or_else v (get d k)

  -- No key stands twice.
  abbrev pub Distinct : Dict V → Type ℓ
  Distinct [] = Unit
  Distinct ((j, w) ∷ d) = (get d j ≡ none) × Distinct d

  pub get-put :
      (d : Dict V) (k j : ℕ) (v : V) → get (put d k v) j ≡ (if k == j then some v else get d j)
  unfolding get put
  get-put [] k j v = refl
  get-put ((i, w) ∷ d) k j v = ground (arith, get-put d k j v)

  pub get-remove : (d : Dict V) (k j : ℕ) → get (remove d k) j ≡ (if k == j then none else get d j)
  unfolding get remove
  get-remove [] k j = ground arith
  get-remove ((i, w) ∷ d) k j = ground (arith, get-remove d k j)

  pub get_or-put :
      (d : Dict V) (k j : ℕ) (v w : V)
      → get_or (put d k v) j w ≡ (if k == j then v else get_or d j w)
  get_or-put d k j v w = elim (Bool-cases (k == j)) [
    | inl e ↦ rw (get-put d k j v, e) refl
    | inr e ↦ rw (get-put d k j v, e) refl
  ]

  pub get_or-remove :
      (d : Dict V) (k j : ℕ) (w : V)
      → get_or (remove d k) j w ≡ (if k == j then w else get_or d j w)
  get_or-remove d k j w = elim (Bool-cases (k == j)) [
    | inl e ↦ rw (get-remove d k j, e) refl
    | inr e ↦ rw (get-remove d k j, e) refl
  ]

  pub put-Distinct : (d : Dict V) (k : ℕ) (v : V) → Distinct d → Distinct (put d k v)
  unfolding put get
  put-Distinct [] k v h = (refl, tt)
  put-Distinct ((i, w) ∷ d) k v h = elim (Bool-cases (i == k)) [
    | inl e ↦ rw e (rw (← (==_eq i k e)) h.0, h.1)
    | inr e ↦ rw e (rw (get-put d k i v) (ground (arith)), put-Distinct d k v h.1)
  ]

  pub remove-Distinct : (d : Dict V) (k : ℕ) → Distinct d → Distinct (remove d k)
  unfolding remove
  remove-Distinct [] k h = h
  remove-Distinct ((i, w) ∷ d) k h = elim (Bool-cases (i == k)) [
    | inl e ↦ rw e (remove-Distinct d k h.1)
    | inr e ↦ rw e (rw (get-remove d k i) (ground arith), remove-Distinct d k h.1)
  ]

  -- A write trades the measure of the old value for that of the new one.
  pub total-put :
      (f : V → ℕ) (d : Dict V) (k : ℕ) (v : V)
      → total f (put d k v) + at f (get d k) ≡ total f d + f v
  unfolding total put get
  total-put f [] k v = omega arith
  total-put f ((i, w) ∷ d) k v = ground (arith, total-put f d k v)

  -- A value counts towards the sum.
  pub at-le-total : (f : V → ℕ) (d : Dict V) (k : ℕ) (v : V) → get d k ≡ some v → f v ≤ total f d
  unfolding total get
  at-le-total f [] k v h = cc
  at-le-total f ((i, w) ∷ d) k v h = ground (arith, at-le-total f d k v)

  pub remove_absent : (d : Dict V) (k : ℕ) → get d k ≡ none → remove d k ≡ d
  unfolding remove get
  remove_absent [] k h = refl
  remove_absent ((i, w) ∷ d) k h = ground (arith, remove_absent d k)

  pub length-remove-le : (d : Dict V) (k : ℕ) → length (remove d k) ≤ length d
  unfolding remove
  length-remove-le [] k = omega arith
  length-remove-le ((i, w) ∷ d) k = ground (arith, length-remove-le d k)

  -- A new key goes to the end.
  pub get-snoc :
      (d : Dict V) (k j : ℕ) (v : V)
      → get d k ≡ none
      → get (d ++ (k, v) ∷ []) j ≡ (if k == j then some v else get d j)
  unfolding get
  get-snoc [] k j v h = refl
  get-snoc ((i, w) ∷ d) k j v h = ground (arith, get-snoc d k j v)

  pub total-remove :
      (f : V → ℕ) (d : Dict V) (k : ℕ)
      → Distinct d
      → total f (remove d k) + at f (get d k) ≡ total f d
  unfolding total remove get
  total-remove f [] k h = omega arith
  total-remove f ((i, w) ∷ d) k h = elim (Bool-cases (i == k)) [
    | inl e ↦ rw e (rw (remove_absent d k (rw (← (==_eq i k e)) h.0)) (omega arith))
    | inr e ↦ rw e (omega (arith, total-remove f d k h.1))
  ]

-- The values changed in place, for a loop that writes every value.
module _ {ℓ κ} {V : Type ℓ} {W : Type κ} where
  unfoldable pub map_values : (V → W) → Dict V → Dict W
  map_values g [] = []
  map_values g ((j, v) ∷ d) = (j, g v) ∷ map_values g d

  pub get-map_values :
      (g : V → W) (d : Dict V) (k : ℕ) → get (map_values g d) k ≡ Option.map g (get d k)
  unfolding get map_values
  get-map_values g [] k = refl
  get-map_values g ((i, v) ∷ d) k = ground (arith, get-map_values g d k)

  pub map_values-Distinct : (g : V → W) (d : Dict V) → Distinct d → Distinct (map_values g d)
  unfolding map_values
  map_values-Distinct g [] h = tt
  map_values-Distinct g ((i, v) ∷ d) h =
      (rw (get-map_values g d i, h.0) refl, map_values-Distinct g d h.1)

  pub total-map_values :
      (f : W → ℕ) (g : V → W) (d : Dict V) → total f (map_values g d) ≡ total (λ v. f (g v)) d
  unfolding total map_values
  total-map_values f g [] = refl
  total-map_values f g ((i, v) ∷ d) = omega (arith, total-map_values f g d)
