-- ===== src/Commands/Dedupe.antt =====
-- CommandDedupe of src/apipi/worker/commands.py: recent command ids of each session.
use apipi.Base.{
  ℕ, ◌+◌, ◌-◌, max, Bool, true, false, List, [], ◌∷◌, ◌++◌, none, some, any, drop, ◌==◌,
  if◌then◌else◌, length, ◌&&◌,
}
use apipi.Base.Dict
use apipi.Base.Dict.{Dict}

pub record CommandDedupe : Type 0 where
  pub limit : ℕ
  pub seen : Dict (List ℕ)

unfoldable pub init : ℕ → CommandDedupe
init limit = record { limit = max limit 1; seen = [] }

unfoldable pub known : CommandDedupe → ℕ → List ℕ
known d s = Dict.get_or d.seen s []

abbrev pub mem : ℕ → List ℕ → Bool
mem c ids = any (λ x. x == c) ids

-- `known.append(id); del known[: max(len(known) - limit, 0)]`
unfoldable pub remember : ℕ → List ℕ → ℕ → List ℕ
remember limit ids c = drop (length (ids ++ c ∷ []) - limit) (ids ++ c ∷ [])

unfoldable pub duplicate : CommandDedupe → ℕ → ℕ → CommandDedupe × Bool
unfolding known
duplicate d s c =
    if mem c (known d s)
    then (record d { seen = Dict.put d.seen s (known d s) }, true)
    else (record d { seen = Dict.put d.seen s (remember d.limit (known d s) c) }, false)

unfoldable pub without_first : ℕ → List ℕ → List ℕ
without_first c [] = []
without_first c (x ∷ xs) = if x == c then xs else x ∷ without_first c xs

unfoldable pub discard : CommandDedupe → ℕ → ℕ → CommandDedupe
discard d s c = elim (Dict.get d.seen s) [
  | none ↦ d
  | some ids ↦ record d { seen = Dict.put d.seen s (without_first c ids) }
]

unfoldable pub forget : CommandDedupe → ℕ → CommandDedupe
forget d s = record d { seen = Dict.remove d.seen s }

-- What the worker does with the ids: a command arrives, a dispatch of one fails and its id is
-- discarded, a session is forgotten.
pub data Step : Type 0 where
  arrives : ℕ → ℕ → Step
  fails : ℕ → ℕ → Step
  forgets : ℕ → Step

-- The sessions and ids that the step dispatches: an arrival that is no duplicate.
unfoldable pub step : CommandDedupe → Step → CommandDedupe × List (ℕ × ℕ)
step d (arrives s c) = let out = duplicate d s c in (out.0, if out.1 then [] else (s, c) ∷ [])
step d (fails s c) = (discard d s c, [])
step d (forgets s) = (forget d s, [])

unfoldable pub dispatched : CommandDedupe → List Step → List (ℕ × ℕ)
dispatched d [] = []
dispatched d (o ∷ os) = (step d o).1 ++ dispatched (step d o).0 os

-- The session and id stand in the list.
abbrev pub told : ℕ → ℕ → List (ℕ × ℕ) → Bool
told s c out = any (λ x. x.0 == s && x.1 == c) out

abbrev pub arrival : ℕ → Step → ℕ
arrival s (arrives t c) = if t == s then 1 else 0
arrival s (fails t c) = 0
arrival s (forgets t) = 0

-- The commands of a session that arrive.
abbrev pub arrivals : ℕ → List Step → ℕ
arrivals s [] = 0
arrivals s (o ∷ os) = arrival s o + arrivals s os

-- A step that takes the id back.
abbrev pub undoes : ℕ → ℕ → Step → Bool
undoes s c (arrives t x) = false
undoes s c (fails t x) = t == s && x == c
undoes s c (forgets t) = t == s
