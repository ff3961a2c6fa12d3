-- ===== src/Egress/Filter.antt =====
-- What the DNS filter sends upstream and what it answers (src/apipi/worker/egress/dns.py).
use apipi.Base.{
  ℕ, ◌+◌, ◌-◌, ◌≤◌, ◌<◌, ◌≡◌, refl, sym, ap, ◌∙◌, true, false, not, ◌||◌, List, [], ◌∷◌, ◌++◌, none,
  ltb, leb, ◌==◌, ==_eq, ◌/◌, ◌%◌, length, length-append, take, is_empty, All, ok, arith,
  Bool-cases, Option-cases, inl, inr, subst, Result-cases,
}
use apipi.Egress.Bytes.{Bytes, byte_at, to_bytes2, int_of-to_bytes2, split, join, split-join}
use apipi.Egress.Dns.{
  Question, finish_question, parse_question, encode_labels, build_query, query_header, dot_byte,
  DnsFilter, placeholder_of, is_nodata, forwarded, answer_question, answer,
}
use apipi.Egress.Query.{
  Label, parse_labels-encode, dotless-all, length-encode, parse_question-Labels,
}

parse-tail :
    (packet : Bytes) (q : Question) (ls : List Bytes)
    → q.name ≡ join dot_byte ls
    → length q.name < 254
    → 4 ≤ length packet
    → finish_question packet ls (to_bytes2 q.qtype ++ to_bytes2 q.qclass)
      ≡ ok (record q { end = length packet })
unfolding finish_question
parse-tail packet q ls name short room =
    let fits : ltb 253 (length q.name) ≡ false = ground arith in
    let ends : length packet - 4 + 4 ≡ length packet = omega arith in
    rw (← name, fits, int_of-to_bytes2 q.qtype, int_of-to_bytes2 q.qclass, ends) refl

parse-packet :
    (a b : ℕ) (ls : List Bytes) (rest : Bytes)
    → All Label ls
    → let packet = a ∷ b ∷ query_header ++ (encode_labels ls ++ 0 ∷ rest) in
      parse_question packet ≡ finish_question packet ls rest
unfolding parse_question
parse-packet a b ls rest k =
    let body = encode_labels ls ++ 0 ∷ rest in
    let packet = a ∷ b ∷ query_header ++ body in
    let long : ltb (length packet) 12 ≡ false = ground arith in
    let room : length ls < length packet =
      omega (arith, length-append (encode_labels ls) (0 ∷ rest), length-encode ls) in
    rw (long, parse_labels-encode (length packet) ls rest room k, parse_question) refl

-- A name that has labels goes into a query and comes out of it again.
parse-build :
    (q : Question) (a b : ℕ) (l : Bytes) (ls : List Bytes)
    → All Label (l ∷ ls)
    → q.name ≡ join dot_byte (l ∷ ls)
    → length q.name < 254
    → let out = build_query q (a ∷ b ∷ []) in
      parse_question out ≡ ok (record q { end = length out })
unfolding build_query
parse-build q a b l ls k name short =
    let rest = to_bytes2 q.qtype ++ to_bytes2 q.qclass in
    let labels : split dot_byte q.name ≡ l ∷ ls =
      ap (split dot_byte) name ∙ split-join dot_byte l ls (dotless-all (l ∷ ls) k) in
    let packet = a ∷ b ∷ query_header ++ (encode_labels (l ∷ ls) ++ 0 ∷ rest) in
    let same : build_query q (a ∷ b ∷ []) ≡ packet = rw labels refl in
    subst (λ o. parse_question o ≡ ok (record q { end = length o })) (sym same)
      (parse-packet a b (l ∷ ls) rest k ∙ parse-tail packet q (l ∷ ls) name short (omega arith))

named :
    (q : Question) (ls : List Bytes)
    → q.name ≡ join dot_byte ls
    → is_empty q.name ≡ false
    → (l : Bytes) × (ms : List Bytes) × (ls ≡ l ∷ ms)
unfolding join
named q [] e h = cc (rw e at h)
named q (l ∷ ms) e h = (l, ms, refl)

-- A question that came in a packet, with a name, is sent as it was.
sent_as_asked :
    (query : Bytes) (q : Question) (a b : ℕ)
    → parse_question query ≡ ok q
    → is_empty q.name ≡ false
    → let out = build_query q (a ∷ b ∷ []) in
      parse_question out ≡ ok (record q { end = length out })
sent_as_asked query q a b h filled =
    let (ls, k, name, short) = parse_question-Labels query q h in
    let (l, ms, e) = named q ls name filled in
    parse-build q a b l ms (subst (All Label) e k) (name ∙ ap (join dot_byte) e) short

forwarded-eq :
    (o o' : Bytes) (q q' : Question) → forwarded o q ≡ forwarded o' q' → (o ≡ o') × (q ≡ q')
forwarded-eq o o' q q' h = (cc, cc)

-- The tests that a forwarded question has passed.
Passed : DnsFilter → Question → Type 0
Passed f q =
    (f.allow q.name ≡ true)
    × (placeholder_of f q ≡ none)
    × (is_nodata q.qtype ≡ false)
    × (q.qclass ≡ 1)
    × (is_empty q.name ≡ false)

answer_question-forwarded :
    (f : DnsFilter) (query ident out : Bytes) (q q' : Question)
    → f.passthrough ≡ false
    → answer_question f query ident q ≡ forwarded out q'
    → Passed f q × (build_query q ident ≡ out) × (q ≡ q')
unfolding answer_question Passed placeholder_of
answer_question-forwarded f query ident out q q' off h = elim (Bool-cases (q.qclass == 1)) [
  | inr a ↦ cc (rw (off, a) at h)
  | inl a ↦ elim (Bool-cases (is_empty q.name || not (f.allow q.name))) [
    | inl b ↦ cc (rw (off, a, b) at h)
    | inr b ↦ elim (Option-cases (placeholder_of f q)) [
      | inr (p, c) ↦ cc (rw (off, a, b, c, answer_question) at h)
      | inl c ↦ elim (Bool-cases (is_nodata q.qtype)) [
        | inl d ↦ cc (rw (off, a, b, c, d, answer_question) at h)
        | inr d ↦
            let (e, e') =
              forwarded-eq (build_query q ident) out q q'
                (rw (off, a, b, c, d, answer_question) at h) in
            ((ground arith, c, d, ==_eq q.qclass 1 a, ground arith), e, e')
      ]
    ]
  ]
]

answer-parsed :
    (f : DnsFilter) (query ident out : Bytes) (q : Question)
    → answer f query ident ≡ forwarded out q
    → (q' : Question) × (parse_question query ≡ ok q')
      × (answer_question f query ident q' ≡ forwarded out q)
unfolding answer
answer-parsed f query ident out q h =
    elim (Bool-cases (ltb (length query) 12 || leb 128 (byte_at query 2))) [
      | inl a ↦ cc (rw a at h)
      | inr a ↦ elim (Bool-cases (byte_at query 2 / 8 % 16 == 0)) [
        | inr b ↦ cc (rw (a, b) at h)
        | inl b ↦ elim (Result-cases (parse_question query)) [
          | inr (e, c) ↦ cc (rw (a, b, c, answer) at h)
          | inl (q', c) ↦ (q', c, rw (a, b, c, answer) at h)
        ]
      ]
    ]

-- The filter in front of the upstreams, which does not pass queries through: a query that it sends
-- is one that a question was asked for, whose name is allowed and has no placeholder and whose
-- class and type may be asked; and it asks for that name, type and class and nothing else, under
-- the fresh identifier.
pub answer-forwarded :
    (f : DnsFilter) (query : Bytes) (a b : ℕ) (out : Bytes) (q : Question)
    → f.passthrough ≡ false
    → answer f query (a ∷ b ∷ []) ≡ forwarded out q
    → (parse_question query ≡ ok q)
      × (f.allow q.name ≡ true)
      × (placeholder_of f q ≡ none)
      × (is_nodata q.qtype ≡ false)
      × (q.qclass ≡ 1)
      × (parse_question out ≡ ok (record q { end = length out }))
      × (take 2 out ≡ a ∷ b ∷ [])
unfolding Passed build_query
answer-forwarded f query a b out q off h =
    let ident = a ∷ b ∷ [] in
    let (q', p, h') = answer-parsed f query ident out q h in
    let (passed, e, e') = answer_question-forwarded f query ident out q' q off h' in
    let p' : parse_question query ≡ ok q = p ∙ ap ok e' in
    let (permit, free, asked, class, filled) : Passed f q = subst (Passed f) e' passed in
    let e'' : build_query q ident ≡ out = ap (λ q. build_query q ident) (sym e') ∙ e in
    (
      p',
      permit,
      free,
      asked,
      class,
      subst (λ o. parse_question o ≡ ok (record q { end = length o })) e''
          (sent_as_asked query q a b p' filled),
      ap (take 2) (sym e''),
    )
