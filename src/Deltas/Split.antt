-- ===== src/Deltas/Split.antt =====
-- _split of src/apipi/worker/deltas.py: a text in slices of at most a limit.
use apipi.Base.{
  ℕ, zero, suc, ◌≤◌, ◌≡◌, refl, List, [], ◌∷◌, ◌++◌, length, take, drop, take-append-drop,
  length-take-le, length-drop, ◌==◌, ◌||◌, leb, if◌then◌else◌, All, Bool-cases, inl, inr, arith,
  append-nil,
}

-- A text is the list of its code points.
abbrev pub Text : Type 0
Text = List ℕ

abbrev pub join : List Text → Text
join [] = []
join (t ∷ ts) = t ++ join ts

-- `[text[index : index + limit] for index in range(0, len(text), limit)]`: the fuel is the number of
-- rounds that are left, and the length of the text is enough for a positive limit.
unfoldable pub slices : ℕ → Text → ℕ → List Text
slices zero text limit = []
slices (suc n) [] limit = []
slices (suc n) (c ∷ text) limit = take limit (c ∷ text) ∷ slices n (drop limit (c ∷ text)) limit

unfoldable pub split : Text → ℕ → List Text
split text limit =
    if limit == 0 || leb (length text) limit then text ∷ [] else slices (length text) text limit

-- A slice that a message carries.
abbrev pub Sized : ℕ → Text → Type 0
Sized limit t = (1 ≤ length t) × (length t ≤ limit)

slices-join :
    (n : ℕ) (text : Text) (limit : ℕ)
    → length text ≤ n
    → 1 ≤ limit
    → join (slices n text limit) ≡ text
unfolding slices
slices-join zero [] limit h k = refl
slices-join zero (c ∷ text) limit h k = ground (arith)
slices-join (suc n) [] limit h k = refl
slices-join (suc n) (c ∷ text) limit h k =
    let rest = drop limit (c ∷ text) in
    rw (slices-join n rest limit (omega (arith, length-drop limit (c ∷ text))) k)
      (take-append-drop limit (c ∷ text))

slices-Sized :
    (n : ℕ) (text : Text) (limit : ℕ) → 1 ≤ limit → All (Sized limit) (slices n text limit)
unfolding slices
slices-Sized zero text limit k = tt
slices-Sized (suc n) [] limit k = tt
slices-Sized (suc n) (c ∷ text) zero k = ground arith
slices-Sized (suc n) (c ∷ text) (suc limit) k = (
  (omega arith, length-take-le (suc limit) (c ∷ text)),
  slices-Sized n (drop (suc limit) (c ∷ text)) (suc limit) k,
)

-- A text that is not empty, cut at a positive limit: put together again, the pieces are the text,
-- and no piece is empty or longer than the limit.
pub split-join :
    (text : Text) (limit : ℕ)
    → 1 ≤ length text
    → 1 ≤ limit
    → (join (split text limit) ≡ text) × All (Sized limit) (split text limit)
unfolding split
split-join text limit h k = elim (Bool-cases (limit == 0 || leb (length text) limit)) [
  | inl a ↦ rw a (append-nil text, ((h, ground (arith)), tt))
  | inr a ↦ rw a (
    slices-join (length text) text limit (omega arith) k,
    slices-Sized (length text) text limit k,
  )
]
