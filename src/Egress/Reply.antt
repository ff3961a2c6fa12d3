-- ===== src/Egress/Reply.antt =====
-- Every reply of the DNS filter answers the query that it got (src/apipi/worker/egress/dns.py).
use apipi.Base.{
  ℕ, ◌/◌, ◌%◌, ◌≤◌, ◌≡◌, refl, ap, ◌∙◌, Bool, true, false, not, ◌||◌, List, [], ◌∷◌, ◌++◌, Option,
  none, some, ltb, leb, ◌==◌, if◌then◌else◌, length, take, drop, is_empty, arith, Bool-cases,
  Option-cases, inl, inr, Result-cases, ◌⊎◌,
}
use apipi.Egress.Bytes.{Bytes, byte_at, slice, int_of, equal}
use apipi.Egress.Dns.{
  Question, parse_question, build_query, DnsFilter, placeholder_of, is_nodata, Answer, ignored,
  replied, forwarded, answer_question, answer, error_reply, placeholder_reply, reply_flags,
  reply_matches, forward, resolve, ident_of,
}

-- The identifier of the query, and the bit of a response.
abbrev pub Answers : Bytes → Bytes → Type 0
Answers query r = (take 2 r ≡ take 2 query) × (128 ≤ byte_at r 2)

two_bytes : (query : Bytes) → 12 ≤ length query → ident_of query ≡ take 2 query
two_bytes [] h = absurd (omega arith)
two_bytes (a ∷ []) h = absurd (omega arith)
two_bytes (a ∷ b ∷ rest) h = refl

reply_flags-high : (f rcode : ℕ) → 128 ≤ reply_flags f rcode / 256
unfolding reply_flags
reply_flags-high f rcode = omega arith

-- What comes of an answer, with what the upstreams give.
after : Bytes → List (Option Bytes) → Answer → Option Bytes
after query rs ignored = none
after query rs (replied r) = some r
after query rs (forwarded out q) = some (forward query out q rs)

-- An answer that is a reply.
Good : Bytes → List (Option Bytes) → Answer → Type 0
Good query rs a = (r : Bytes) × (after query rs a ≡ some r) × Answers query r

module _ (query : Bytes) (long : 12 ≤ length query) where
  error_reply-Answers : (rcode : ℕ) (e : Option ℕ) → Answers query (error_reply query rcode e)
  unfolding error_reply
  error_reply-Answers rcode e = (
    two_bytes query long,
    reply_flags-high (if leb 4 (length query) then int_of (slice 2 4 query) else 0) rcode,
  )

  placeholder_reply-Answers :
      (q : Question) (a : Bytes) → Answers query (placeholder_reply query q a)
  unfolding placeholder_reply error_reply
  placeholder_reply-Answers q a = elim (Bool-cases (q.qtype == 1)) [
    | inr e ↦ rw e (error_reply-Answers 0 (some q.end))
    | inl e ↦ rw e (
      two_bytes query long,
      reply_flags-high (if leb 4 (length query) then int_of (slice 2 4 query) else 0) 0,
    )
  ]

  reply_matches-high :
      (r out : Bytes) → reply_matches r out ≡ true → (12 ≤ length r) × (128 ≤ byte_at r 2)
  unfolding reply_matches
  reply_matches-high r out h =
      elim (Bool-cases
        (ltb (length r) 12 || (not (equal (take 2 r) (take 2 out)) || ltb (byte_at r 2) 128))) [
          | inl a ↦ cc (rw a at h)
          | inr a ↦ (ground arith, ground arith)
        ]

  relabelled :
      (q r : Bytes)
      → 12 ≤ length q
      → 12 ≤ length r
      → 128 ≤ byte_at r 2
      → Answers q (take 2 q ++ drop 2 r)
  relabelled [] r h k s = absurd (omega arith)
  relabelled (a ∷ []) r h k s = absurd (omega arith)
  relabelled (a ∷ b ∷ q) [] h k s = absurd (omega arith)
  relabelled (a ∷ b ∷ q) (c ∷ []) h k s = absurd (omega arith)
  relabelled (a ∷ b ∷ q) (c ∷ d ∷ r) h k s = (refl, s)

  forward-Answers :
      (out : Bytes) (q : Question) (rs : List (Option Bytes))
      → Answers query (forward query out q rs)
  unfolding forward
  forward-Answers out q [] = error_reply-Answers 2 (some q.end)
  forward-Answers out q (none ∷ rs) = forward-Answers out q rs
  forward-Answers out q (some r ∷ rs) = elim (Bool-cases (reply_matches r out)) [
    | inr e ↦ rw e (forward-Answers out q rs)
    | inl e ↦ let (k, s) = reply_matches-high r out e in rw e (relabelled query r long k s)
  ]

  replied-Good :
      (rs : List (Option Bytes)) (r : Bytes) → Answers query r → Good query rs (replied r)
  unfolding Good after
  replied-Good rs r h = (r, refl, h)

  error-Good :
      (rs : List (Option Bytes)) (rcode : ℕ) (e : Option ℕ)
      → Good query rs (replied (error_reply query rcode e))
  error-Good rs rcode e = replied-Good rs (error_reply query rcode e) (error_reply-Answers rcode e)

  forwarded-Good :
      (rs : List (Option Bytes)) (out : Bytes) (q : Question) → Good query rs (forwarded out q)
  unfolding Good after
  forwarded-Good rs out q = (forward query out q rs, refl, forward-Answers out q rs)

  answer_question-Good :
      (f : DnsFilter) (ident : Bytes) (q : Question) (rs : List (Option Bytes))
      → Good query rs (answer_question f query ident q)
  unfolding answer_question Good after placeholder_of
  answer_question-Good f ident q rs =
      let placed = λ (a : Bytes).
        replied-Good rs (placeholder_reply query q a) (placeholder_reply-Answers q a) in
      elim (Bool-cases f.passthrough) [
        | inl p ↦ elim (Option-cases (placeholder_of f q)) [
          | inl c ↦ rw (p, c, answer_question) (forwarded-Good rs (ident ++ drop 2 query) q)
          | inr (a, c) ↦ rw (p, c, answer_question) (placed a)
        ]
        | inr p ↦ elim (Bool-cases (q.qclass == 1)) [
          | inr a ↦ rw (p, a) (error-Good rs 4 (some q.end))
          | inl a ↦ elim (Bool-cases (is_empty q.name || not (f.allow q.name))) [
            | inl b ↦ rw (p, a, b) (error-Good rs 3 (some q.end))
            | inr b ↦ elim (Option-cases (placeholder_of f q)) [
              | inr (d, c) ↦ rw (p, a, b, c, answer_question) (placed d)
              | inl c ↦ elim (Bool-cases (is_nodata q.qtype)) [
                | inl d ↦ rw (p, a, b, c, d, answer_question) (error-Good rs 0 (some q.end))
                | inr d ↦
                    rw (p, a, b, c, d, answer_question) (forwarded-Good rs (build_query q ident) q)
              ]
            ]
          ]
        ]
      ]

abbrev pub ignores : Bytes → Bool
ignores query = ltb (length query) 12 || leb 128 (byte_at query 2)

resolve-after :
    (f : DnsFilter) (query ident : Bytes) (rs : List (Option Bytes))
    → resolve f query ident rs ≡ after query rs (answer f query ident)
unfolding resolve after
resolve-after f query ident rs = elim (answer f query ident) [
  | ignored ↦ refl
  | replied r ↦ refl
  | forwarded out q ↦ refl
]

answer-ignored :
    (f : DnsFilter) (query ident : Bytes) → ignores query ≡ true → answer f query ident ≡ ignored
unfolding answer
answer-ignored f query ident h = rw h refl

answer-Good :
    (f : DnsFilter) (query ident : Bytes) (rs : List (Option Bytes))
    → ignores query ≡ false
    → Good query rs (answer f query ident)
unfolding answer
answer-Good f query ident rs h =
    let long : 12 ≤ length query = ground arith in
    elim (Bool-cases (byte_at query 2 / 8 % 16 == 0)) [
      | inr b ↦ rw (h, b) (error-Good query long rs 4 none)
      | inl b ↦ elim (Result-cases (parse_question query)) [
        | inr (e, c) ↦ rw (h, b, c, answer) (error-Good query long rs 1 none)
        | inl (q, c) ↦ rw (h, b, c, answer) (answer_question-Good query long f ident q rs)
      ]
    ]

-- Any query, any settings and whatever the upstreams give, down to nothing at all: a packet that is
-- shorter than a header or is itself a response gets no reply, and any other one gets a reply that
-- carries its identifier and the bit of a response.
pub resolve-Answers :
    (f : DnsFilter) (query ident : Bytes) (rs : List (Option Bytes))
    → ((ignores query ≡ true) × (resolve f query ident rs ≡ none))
      ⊎ ((ignores query ≡ false)
          × ((r : Bytes) × (resolve f query ident rs ≡ some r) × Answers query r))
unfolding Good after
resolve-Answers f query ident rs = elim (Bool-cases (ignores query)) [
  | inl h ↦
      inl (h, resolve-after f query ident rs ∙ ap (after query rs) (answer-ignored f query ident h))
  | inr h ↦
      let (r, e, k) = answer-Good f query ident rs h in
      inr (h, (r, resolve-after f query ident rs ∙ e, k))
]
