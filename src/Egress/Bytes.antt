-- ===== src/Egress/Bytes.antt =====
-- Python's `bytes` as lists of numbers below 256, and big-endian numbers in them.
use apipi.Base.{
  ◌-◌, ℕ, zero, suc, ◌+◌, ◌*◌, ◌/◌, ◌%◌, ◌≡◌, refl, ap, ◌∙◌, Bool, true, false, ◌&&◌, List, [], ◌∷◌,
  ◌++◌, ◌==◌, ==_refl, if◌then◌else◌, length, take, drop, All, arith, Bool-cases, inl, inr, any,
}

abbrev pub Bytes : Type 0
Bytes = List ℕ

-- data[i], or 0 past the end
abbrev pub byte_at : Bytes → ℕ → ℕ
byte_at [] i = 0
byte_at (b ∷ bs) zero = b
byte_at (b ∷ bs) (suc i) = byte_at bs i

-- data[a:b]
abbrev pub slice : ℕ → ℕ → Bytes → Bytes
slice a b bs = take (b - a) (drop a bs)

-- int.from_bytes(data, "big")
abbrev pub from_bytes : ℕ → Bytes → ℕ
from_bytes n [] = n
from_bytes n (b ∷ bs) = from_bytes (n * 256 + b) bs

abbrev pub int_of : Bytes → ℕ
int_of bs = from_bytes 0 bs

-- n.to_bytes(2, "big") of a number below 65536
abbrev pub to_bytes2 : ℕ → Bytes
to_bytes2 n = n / 256 ∷ n % 256 ∷ []

abbrev pub equal : Bytes → Bytes → Bool
equal [] [] = true
equal (a ∷ xs) (b ∷ ys) = a == b && equal xs ys
equal _ _ = false

pub int_of-to_bytes2 : (n : ℕ) → int_of (to_bytes2 n) ≡ n
int_of-to_bytes2 n = omega arith

pub take-length : (xs ys : Bytes) → take (length xs) (xs ++ ys) ≡ xs
take-length [] ys = refl
take-length (x ∷ xs) ys = rw (take-length xs ys)

pub drop-length : (xs ys : Bytes) → drop (length xs) (xs ++ ys) ≡ ys
drop-length [] ys = refl
drop-length (x ∷ xs) ys = drop-length xs ys

-- name.split(".")
abbrev cons_first : ℕ → List Bytes → List Bytes
cons_first b [] = (b ∷ []) ∷ []
cons_first b (l ∷ ls) = (b ∷ l) ∷ ls

unfoldable pub split : ℕ → Bytes → List Bytes
split d [] = [] ∷ []
split d (b ∷ bs) = if b == d then [] ∷ split d bs else cons_first b (split d bs)

-- ".".join(labels)
unfoldable pub join : ℕ → List Bytes → Bytes
join d [] = []
join d (l ∷ []) = l
join d (l ∷ m ∷ ls) = l ++ d ∷ join d (m ∷ ls)

split-label :
    (d : ℕ) (l rest : Bytes)
    → any (λ b. b == d) l ≡ false
    → split d (l ++ d ∷ rest) ≡ l ∷ split d rest
unfolding split
split-label d [] rest h = rw (==_refl d)
split-label d (b ∷ l) rest h = elim (Bool-cases (b == d)) [
  | inl e ↦ cc (rw e at h)
  | inr e ↦ rw (e, split-label d l rest (rw e at h))
]

split-last : (d : ℕ) (l : Bytes) → any (λ b. b == d) l ≡ false → split d l ≡ l ∷ []
unfolding split
split-last d [] h = refl
split-last d (b ∷ l) h = elim (Bool-cases (b == d)) [
  | inl e ↦ cc (rw e at h)
  | inr e ↦ rw (e, split-last d l (rw e at h))
]

-- Labels without the separator come back from their join.
pub split-join :
    (d : ℕ) (l : Bytes) (ls : List Bytes)
    → All (λ m. any (λ b. b == d) m ≡ false) (l ∷ ls)
    → split d (join d (l ∷ ls)) ≡ l ∷ ls
unfolding join
split-join d l [] h = split-last d l h.0
split-join d l (m ∷ ls) h =
    split-label d l (join d (m ∷ ls)) h.0 ∙ ap (◌∷◌ l) (split-join d m ls h.1)
