-- ===== src/Egress/Query.antt =====
-- Round trip of DNS questions (parse_question and build_query of src/apipi/worker/egress/dns.py).
use apipi.Base.{
  ℕ, zero, suc, ◌≤◌, ◌<◌, ◌≡◌, refl, sym, ap, ◌∙◌, false, List, [], ◌∷◌, ◌++◌, map, append_assoc,
  none, ltb, leb, ◌==◌, ==_refl, length, length-append, take, drop, any, All, Result, ok, err,
  arith, Bool-cases, Option-cases, inl, inr, subst, ok_eq, Result-cases, ltb→ge,
}
use apipi.Egress.Bytes.{Bytes, slice, int_of, join, take-length, drop-length}
use apipi.Egress.Dns.{
  Question, DnsFormatError, parse_labels, finish_question, parse_question, encode_labels, lower,
  dot_byte, label_error, cons_label,
}

-- A label as the parser gives it: 1 to 63 ASCII bytes, no dot, no capital.
pub record Label (l : Bytes) : Type 0 where
  short : length l < 64
  filled : 0 < length l
  ascii : any (leb 128) l ≡ false
  dotless : any (λ b. b == dot_byte) l ≡ false
  lowered : map lower l ≡ l

lower-lower : (b : ℕ) → lower (lower b) ≡ lower b
unfolding lower
lower-lower b = ground arith

map-lower-lower : (l : Bytes) → map lower (map lower l) ≡ map lower l
map-lower-lower [] = refl
map-lower-lower (b ∷ l) = rw (lower-lower b, map-lower-lower l)

length-map-lower : (l : Bytes) → length (map lower l) ≡ length l
length-map-lower [] = refl
length-map-lower (b ∷ l) = omega (arith, length-map-lower l)

lower-ascii : (b : ℕ) → leb 128 b ≡ false → leb 128 (lower b) ≡ false
unfolding lower
lower-ascii b h = ground arith

map-lower-ascii : (l : Bytes) → any (leb 128) l ≡ false → any (leb 128) (map lower l) ≡ false
map-lower-ascii [] h = refl
map-lower-ascii (b ∷ l) h = rw (lower-ascii b (ground arith)) (map-lower-ascii l (ground arith))

lower-dot : (b : ℕ) → (b == dot_byte) ≡ false → (lower b == dot_byte) ≡ false
unfolding lower
lower-dot b h = ground arith

map-lower-dot :
    (l : Bytes)
    → any (λ b. b == dot_byte) l ≡ false
    → any (λ b. b == dot_byte) (map lower l) ≡ false
map-lower-dot [] h = refl
map-lower-dot (b ∷ l) h = rw (lower-dot b (ground arith)) (map-lower-dot l (ground arith))

lower-Label :
    (l : Bytes)
    → length l < 64
    → 0 < length l
    → any (leb 128) l ≡ false
    → any (λ b. b == dot_byte) l ≡ false
    → Label (map lower l)
lower-Label l a b c d = record {
  short = omega (arith, length-map-lower l);
  filled = omega (arith, length-map-lower l);
  ascii = map-lower-ascii l c;
  dotless = map-lower-dot l d;
  lowered = map-lower-lower l;
}

label_error-Label :
    (size : ℕ) (bs : Bytes)
    → (size == 0) ≡ false
    → label_error size bs ≡ none
    → Label (map lower (take size bs))
unfolding label_error
label_error-Label size bs z h =
    let l = take size bs in
    elim (Bool-cases (leb 64 size)) [
      | inl a ↦ cc (rw a at h)
      | inr a ↦ elim (Bool-cases (length l == size)) [
        | inr b ↦ cc (rw (a, b) at h)
        | inl b ↦ elim (Bool-cases (any (leb 128) l)) [
          | inl c ↦ cc (rw (a, b, c) at h)
          | inr c ↦ elim (Bool-cases (any (λ b. b == dot_byte) l)) [
            | inl d ↦ cc (rw (a, b, c, d) at h)
            | inr d ↦ lower-Label l (ground arith) (ground arith) c d
          ]
        ]
      ]
    ]

label_error-none : (l bs : Bytes) → Label l → label_error (length l) (l ++ bs) ≡ none
unfolding label_error
label_error-none l bs k =
    rw (take-length l bs, k.ascii, k.dotless, ==_refl (length l)) (ground (arith, k.short))

cons_label-ok :
    (l : Bytes) (r : Result DnsFormatError (List Bytes × Bytes)) (ls : List Bytes) (tail : Bytes)
    → cons_label l r ≡ ok (ls, tail)
    → (ms : List Bytes) × (r ≡ ok (ms, tail)) × (ls ≡ l ∷ ms)
unfolding cons_label
cons_label-ok l (ok (ms, t)) ls tail h =
    let e = ok_eq h in (ms, ap (λ t. ok (ms, t)) (ap (λ p. p.1) e), sym (ap (λ p. p.0) e))
cons_label-ok l (err e) ls tail h = cc

-- What the parser accepts consists of labels.
parse_labels-Label :
    (n : ℕ) (bs : Bytes) (ls : List Bytes) (tail : Bytes)
    → parse_labels n bs ≡ ok (ls, tail)
    → All Label ls
unfolding parse_labels
parse_labels-Label zero bs ls tail h = cc
parse_labels-Label (suc n) [] ls tail h = cc
parse_labels-Label (suc n) (size ∷ bs) ls tail h = elim (Bool-cases (size == 0)) [
  | inl z ↦ subst (All Label) (ap (λ p. p.0) (ok_eq (rw (z, parse_labels) at h))) tt
  | inr z ↦ elim (Option-cases (label_error size bs)) [
    | inr (e, w) ↦ cc (rw (z, w, parse_labels) at h)
    | inl w ↦
        let (ms, r, e) =
          cons_label-ok (map lower (take size bs)) (parse_labels n (drop size bs)) ls tail
            (rw (z, w, parse_labels) at h) in
        rw e (label_error-Label size bs z w, parse_labels-Label n (drop size bs) ms tail r)
  ]
]

parse_labels-cons :
    (n : ℕ) (l bs : Bytes)
    → Label l
    → parse_labels (suc n) (length l ∷ l ++ bs) ≡ cons_label l (parse_labels n bs)
unfolding parse_labels
parse_labels-cons n l bs k =
    let filled : (length l == 0) ≡ false = ground (arith, k.filled) in
    rw
      (filled, label_error-none l bs k, drop-length l bs, take-length l bs, k.lowered, parse_labels)
      refl

-- The parser reads back what is encoded, whatever follows it.
pub parse_labels-encode :
    (n : ℕ) (ls : List Bytes) (tail : Bytes)
    → length ls < n
    → All Label ls
    → parse_labels n (encode_labels ls ++ 0 ∷ tail) ≡ ok (ls, tail)
unfolding encode_labels cons_label
parse_labels-encode zero ls tail room k = absurd (omega arith)
parse_labels-encode (suc n) [] tail room k = unfold parse_labels in refl
parse_labels-encode (suc n) (l ∷ ls) tail room (k, ks) =
    let rest = encode_labels ls ++ 0 ∷ tail in
    ap (λ bs. parse_labels (suc n) (length l ∷ bs)) (append_assoc l (encode_labels ls) (0 ∷ tail))
    ∙ parse_labels-cons n l rest k
    ∙ ap (cons_label l) (parse_labels-encode n ls tail (omega arith) ks)

-- The name of a query that is sent has labels.
pub dotless-all :
    (ls : List Bytes) → All Label ls → All (λ m. any (λ b. b == dot_byte) m ≡ false) ls
dotless-all [] k = tt
dotless-all (l ∷ ls) (k, ks) = (k.dotless, dotless-all ls ks)

pub length-encode : (ls : List Bytes) → length ls ≤ length (encode_labels ls)
unfolding encode_labels
length-encode [] = omega arith
length-encode (l ∷ ls) = omega (arith, length-append l (encode_labels ls), length-encode ls)

-- A question that some packet holds, with a name.
pub parse_question-Labels :
    (packet : Bytes) (q : Question)
    → parse_question packet ≡ ok q
    → (ls : List Bytes) × All Label ls × (q.name ≡ join dot_byte ls) × (length q.name < 254)
unfolding parse_question finish_question
parse_question-Labels packet q h = elim (Bool-cases (ltb (length packet) 12)) [
  | inl a ↦ cc (rw a at h)
  | inr a ↦ elim (Bool-cases (int_of (slice 4 6 packet) == 1)) [
    | inr b ↦ cc (rw (a, b) at h)
    | inl b ↦ elim (Result-cases (parse_labels (length packet) (drop 12 packet))) [
      | inr (e, c) ↦ cc (rw (a, b, c, parse_question) at h)
      | inl ((ls, rest), c) ↦ elim (Bool-cases (ltb (length rest) 4)) [
        | inl d ↦ cc (rw (a, b, c, d, parse_question) at h)
        | inr d ↦ elim (Bool-cases (ltb 253 (length (join dot_byte ls)))) [
          | inl f ↦ cc (rw (a, b, c, d, f, parse_question) at h)
          | inr f ↦
              let same = ok_eq (rw (a, b, c, d, f, parse_question) at h) in
              let name : join dot_byte ls ≡ q.name = ap (λ (q : Question). q.name) same in
              (
                ls,
                parse_labels-Label (length packet) (drop 12 packet) ls rest c,
                sym name,
                omega (arith, ltb→ge 253 (length (join dot_byte ls)) f, ap length name),
              )
        ]
      ]
    ]
  ]
]
