-- ===== src/Egress/Dns.antt =====
-- src/apipi/worker/egress/dns.py: questions, replies and the filter. Names are the bytes of their
-- ASCII text. The sockets, tasks and timeouts around the filter are left out.
use apipi.Base.{
  ℕ, zero, suc, ◌+◌, ◌-◌, ◌*◌, ◌/◌, ◌%◌, Bool, false, not, ◌&&◌, ◌||◌, List, [], ◌∷◌, ◌++◌, map,
  Option, none, some, ltb, leb, ◌==◌, if◌then◌else◌, length, take, drop, any, is_empty, Result, ok,
  err,
}
use apipi.Egress.Bytes.{Bytes, byte_at, slice, int_of, to_bytes2, equal, split, join}

pub data DnsFormatError : Type 0 where
  short_header one_question truncated_name compressed not_ascii dot truncated_question too_long :
      DnsFormatError

pub record Question : Type 0 where
  pub name : Bytes
  pub qtype : ℕ
  pub qclass : ℕ
  pub end : ℕ

abbrev pub dot_byte : ℕ
dot_byte = 46

-- str.lower on ASCII
unfoldable pub lower : ℕ → ℕ
lower b = if leb 65 b && leb b 90 then b + 32 else b

-- What is wrong with a label of a size other than 0, the bytes being those after the size. A
-- compressed name has one of the two top bits of the size's byte.
unfoldable pub label_error : ℕ → Bytes → Option DnsFormatError
label_error size bs =
    let label = take size bs in
    if leb 64 size
    then some compressed
    else if not (length label == size)
    then some truncated_name
    else if any (leb 128) label
    then some not_ascii
    else if any (λ b. b == dot_byte) label
    then some dot
    else none

unfoldable pub cons_label :
    Bytes → Result DnsFormatError (List Bytes × Bytes) → Result DnsFormatError (List Bytes × Bytes)
cons_label l (ok (labels, tail)) = ok (l ∷ labels, tail)
cons_label l (err e) = err e

-- The loop over the labels; the bytes stand for packet[pos:]. A round takes at least one byte, so
-- the length is enough fuel.
unfoldable pub parse_labels : ℕ → Bytes → Result DnsFormatError (List Bytes × Bytes)
parse_labels zero bs = err truncated_name
parse_labels (suc n) [] = err truncated_name
parse_labels (suc n) (size ∷ bs) =
    let rest = parse_labels n (drop size bs) in
    if size == 0 then ok ([], bs) else elim (label_error size bs) [
      | some e ↦ err e
      | none ↦ cons_label (map lower (take size bs)) rest
    ]

-- What follows the name.
unfoldable pub finish_question : Bytes → List Bytes → Bytes → Result DnsFormatError Question
finish_question packet labels rest =
    if ltb (length rest) 4
    then err truncated_question
    else if ltb 253 (length (join dot_byte labels))
    then err too_long
    else ok (record {
      name = join dot_byte labels;
      qtype = int_of (slice 0 2 rest);
      qclass = int_of (slice 2 4 rest);
      end = length packet - length rest + 4;
    })

unfoldable pub parse_question : Bytes → Result DnsFormatError Question
parse_question packet =
    if ltb (length packet) 12
    then err short_header
    else if not (int_of (slice 4 6 packet) == 1)
    then err one_question
    else elim (parse_labels (length packet) (drop 12 packet)) [
      | ok (labels, rest) ↦ finish_question packet labels rest
      | err e ↦ err e
    ]

unfoldable pub encode_labels : List Bytes → Bytes
encode_labels [] = []
encode_labels (l ∷ ls) = length l ∷ l ++ encode_labels ls

-- The header of a query after its identifier: recursion desired, one question.
abbrev pub query_header : Bytes
query_header = 1 ∷ 0 ∷ 0 ∷ 1 ∷ 0 ∷ 0 ∷ 0 ∷ 0 ∷ 0 ∷ 0 ∷ []

unfoldable pub build_query : Question → Bytes → Bytes
build_query q ident =
    ident
    ++ (query_header
        ++ (encode_labels (split dot_byte q.name) ++ 0 ∷ (to_bytes2 q.qtype ++ to_bytes2 q.qclass)))

-- The flags of a reply: `0x8000 | (f & 0x7800) | (f & 0x0100) | 0x0080 | rcode`, whose bits are
-- apart while rcode is below 16.
unfoldable pub reply_flags : ℕ → ℕ → ℕ
reply_flags f rcode = 32768 + f / 2048 % 16 * 2048 + f / 256 % 2 * 256 + 128 + rcode

-- query[:2].ljust(2, b"\0")
abbrev pub ident_of : Bytes → Bytes
ident_of query = byte_at query 0 ∷ byte_at query 1 ∷ []

unfoldable pub error_reply : Bytes → ℕ → Option ℕ → Bytes
error_reply query rcode question_end =
    let flags_in = if leb 4 (length query) then int_of (slice 2 4 query) else 0 in
    let question : Bytes = elim question_end [ some e ↦ slice 12 e query | none ↦ [] ] in
    let count = if is_empty question then 0 else 1 in
    ident_of query
    ++ (to_bytes2 (reply_flags flags_in rcode)
        ++ (to_bytes2 count ++ (0 ∷ 0 ∷ 0 ∷ 0 ∷ 0 ∷ 0 ∷ question)))

-- An address is the four bytes of inet_aton.
unfoldable pub placeholder_reply : Bytes → Question → Bytes → Bytes
placeholder_reply query q address =
    let reply = error_reply query 0 (some q.end) in
    if not (q.qtype == 1)
    then reply
    else take 6 reply
      ++ (to_bytes2 1
          ++ (drop 8 reply
              ++ (192 ∷ 12 ∷ to_bytes2 1
                  ++ (to_bytes2 1 ++ (0 ∷ 0 ∷ 0 ∷ 60 ∷ to_bytes2 4 ++ address)))))

unfoldable pub same_question : Question → Question → Bool
same_question a b = equal a.name b.name && (a.qtype == b.qtype && a.qclass == b.qclass)

unfoldable pub reply_matches : Bytes → Bytes → Bool
reply_matches reply query =
    if ltb (length reply) 12
      || (not (equal (take 2 reply) (take 2 query)) || ltb (byte_at reply 2) 128)
    then false
    else elim (parse_question reply) [
      | err _ ↦ false
      | ok got ↦ elim (parse_question query) [ err _ ↦ false | ok sent ↦ same_question got sent ]
    ]

-- The filter's settings.
pub record DnsFilter : Type 0 where
  pub allow : Bytes → Bool
  pub placeholder : Option (Bytes → Option Bytes)
  pub passthrough : Bool

unfoldable pub placeholder_of : DnsFilter → Question → Option Bytes
placeholder_of f q = elim f.placeholder [
  | none ↦ none
  | some p ↦ if not (q.qclass == 1) || is_empty q.name then none else p q.name
]

-- NODATA_TYPES
unfoldable pub is_nodata : ℕ → Bool
is_nodata t = t == 64 || t == 65

-- What `answer` does: nothing, a reply of its own, or a query sent upstream.
pub data Answer : Type 0 where
  ignored : Answer
  replied : Bytes → Answer
  forwarded : Bytes → Question → Answer

unfoldable pub answer_question : DnsFilter → Bytes → Bytes → Question → Answer
answer_question f query ident q =
    if f.passthrough
    then elim (placeholder_of f q) [
      | some a ↦ replied (placeholder_reply query q a)
      | none ↦ forwarded (ident ++ drop 2 query) q
    ]
    else if not (q.qclass == 1)
    then replied (error_reply query 4 (some q.end))
    else if is_empty q.name || not (f.allow q.name)
    then replied (error_reply query 3 (some q.end))
    else elim (placeholder_of f q) [
      | some a ↦ replied (placeholder_reply query q a)
      | none ↦
          if is_nodata q.qtype
          then replied (error_reply query 0 (some q.end))
          else forwarded (build_query q ident) q
    ]

-- `answer`, with the fresh identifier
unfoldable pub answer : DnsFilter → Bytes → Bytes → Answer
answer f query ident =
    if ltb (length query) 12 || leb 128 (byte_at query 2)
    then ignored
    else if not (byte_at query 2 / 8 % 16 == 0)
    then replied (error_reply query 4 none)
    else elim (parse_question query) [
      | err _ ↦ replied (error_reply query 1 none)
      | ok q ↦ answer_question f query ident q
    ]

-- _forward: what each upstream gave, `none` being a failure.
unfoldable pub forward : Bytes → Bytes → Question → List (Option Bytes) → Bytes
forward query outgoing q [] = error_reply query 2 (some q.end)
forward query outgoing q (none ∷ rs) = forward query outgoing q rs
forward query outgoing q (some r ∷ rs) =
    let rest = forward query outgoing q rs in
    if reply_matches r outgoing then take 2 query ++ drop 2 r else rest

-- `answer` with what the upstreams give.
unfoldable pub resolve : DnsFilter → Bytes → Bytes → List (Option Bytes) → Option Bytes
resolve f query ident rs = elim (answer f query ident) [
  | ignored ↦ none
  | replied r ↦ some r
  | forwarded out q ↦ some (forward query out q rs)
]
