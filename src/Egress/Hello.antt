-- ===== src/Egress/Hello.antt =====
-- src/apipi/worker/egress/sni.py: the server name of a TLS ClientHello. A reader is the bytes that it
-- has left; names are the bytes of their ASCII text.
use apipi.Base.{
  ℕ, zero, suc, ◌+◌, Bool, true, false, not, ◌||◌, List, [], ◌∷◌, ◌++◌, map, Option, none, some,
  ltb, leb, ◌==◌, if◌then◌else◌, length, take, drop, any, is_empty, Result, ok, err, bind,
}
use apipi.Egress.Bytes.{Bytes, byte_at, slice, int_of}
use apipi.Egress.Dns.{lower, dot_byte}
use apipi.Egress.Policy.{rstrip}

-- Incomplete, and the causes of NotTls.
pub data HelloError : Type 0 where
  incomplete truncated not_handshake empty_record not_hello too_large : HelloError
  many_names name_not_ascii duplicate_name : HelloError

pub record ClientHello : Type 0 where
  pub server_name : Option Bytes
  pub alpn : List Bytes

abbrev pub max_hello_bytes : ℕ
max_hello_bytes = 65536

-- _Reader.take
unfoldable pub read : ℕ → Bytes → Result HelloError (Bytes × Bytes)
read size bs = if ltb (length bs) size then err truncated else ok (take size bs, drop size bs)

-- _Reader.vector
unfoldable pub vector : ℕ → Bytes → Result HelloError (Bytes × Bytes)
vector length_bytes bs = bind (read length_bytes bs) (λ r. read (int_of r.0) r.1)

-- `need is not None and len(body) >= need`
abbrev pub is_whole : Option ℕ → Bytes → Bool
is_whole none body = false
is_whole (some n) body = leb n (length body)

abbrev pub whole : Option ℕ → Bytes → Bytes
whole none body = body
whole (some n) body = take n body

-- How much of the handshake is needed, once its first four bytes are there.
unfoldable pub needed : Option ℕ → Bytes → Result HelloError (Option ℕ)
needed (some n) body = ok (some n)
needed none body =
    let n = 4 + int_of (slice 1 4 body) in
    if ltb (length body) 4
    then ok none
    else if not (byte_at body 0 == 1)
    then err not_hello
    else if ltb max_hello_bytes n
    then err too_large
    else ok (some n)

-- The size in a record's header, its content, and what is behind it.
abbrev pub record_size : Bytes → ℕ
record_size rest = int_of (slice 3 5 rest)

unfoldable pub content : Bytes → Bytes
content rest = take (record_size rest) (drop 5 rest)

unfoldable pub behind : Bytes → Bytes
behind rest = drop (record_size rest) (drop 5 rest)

-- What is wrong with the record in front.
unfoldable pub record_error : Bytes → Option HelloError
record_error rest =
    if ltb (length rest) 5
    then some incomplete
    else if not (byte_at rest 0 == 22) || not (byte_at rest 1 == 3)
    then some not_handshake
    else if record_size rest == 0
    then some empty_record
    else if ltb (length rest) (5 + record_size rest)
    then some incomplete
    else none

-- The loop of _handshake_bytes; `rest` is data[pos:]. A round takes more than five bytes of it, so
-- one more than its length is enough fuel.
unfoldable pub gather : ℕ → Bytes → Bytes → Option ℕ → Result HelloError Bytes
gather zero rest body need = err incomplete
gather (suc n) rest body need =
    let body' = body ++ content rest in
    let again = bind (needed need body') (λ need'. gather n (behind rest) body' need') in
    if is_whole need body
    then ok (whole need body)
    else elim (record_error rest) [ some e ↦ err e | none ↦ again ]

unfoldable pub handshake_bytes : Bytes → Result HelloError Bytes
handshake_bytes data' =
    if is_empty data'
    then err incomplete
    else if not (byte_at data' 0 == 22)
    then err not_handshake
    else gather (suc (length data')) data' [] none

-- `text.rstrip(".").lower()`, or None if nothing is left
unfoldable pub host_name : Bytes → Option Bytes
host_name value =
    let host = map lower (rstrip (λ b. b == dot_byte) value) in
    if is_empty host then none else some host

-- _server_name behind the list's length: at most one name, of the kind of a host.
unfoldable pub one_name : Bytes → Result HelloError (Option Bytes)
one_name names =
    if is_empty names
    then ok none
    else bind (read 1 names) (λ kind. bind (vector 2 kind.1) (λ value.
      if not (is_empty value.1)
      then err many_names
      else if not (int_of kind.0 == 0)
      then ok none
      else if any (leb 128) value.0
      then err name_not_ascii
      else ok (host_name value.0)))

unfoldable pub parse_server_name : Bytes → Result HelloError (Option Bytes)
parse_server_name raw = bind (vector 2 raw) (λ names. one_name names.0)

-- The loop of _alpn: decoded as ASCII with replacements.
unfoldable pub protocols : ℕ → Bytes → Result HelloError (List Bytes)
protocols zero bs = ok []
protocols (suc n) [] = ok []
protocols (suc n) (b ∷ bs) =
    bind (vector 1 (b ∷ bs))
      (λ p. bind (protocols n p.1) (λ ps. ok (map (λ c. if leb 128 c then 65533 else c) p.0 ∷ ps)))

unfoldable pub parse_alpn : Bytes → Result HelloError (List Bytes)
parse_alpn raw = bind (vector 2 raw) (λ list. protocols (length list.0) list.0)

-- The loop over the extensions; `named` says that a server_name was there.
unfoldable pub extensions : ℕ → Bytes → Bool → ClientHello → Result HelloError ClientHello
extensions zero bs named hello = ok hello
extensions (suc n) [] named hello = ok hello
extensions (suc n) (b ∷ bs) named hello = bind (read 2 (b ∷ bs)) (λ kind.
    bind (vector 2 kind.1) (λ value.
      if int_of kind.0 == 0
      then if named
        then err duplicate_name
        else bind (parse_server_name value.0)
            (λ name. extensions n value.1 true (record hello { server_name = name }))
      else if int_of kind.0 == 16
      then bind (parse_alpn value.0) (λ ps. extensions n value.1 named (record hello { alpn = ps }))
      else extensions n value.1 named hello))

-- The fields in front of the extensions: type, length, version, random, session, ciphers,
-- compression.
unfoldable pub skip_fields : Bytes → Result HelloError Bytes
skip_fields hello = bind (read 38 hello) (λ fixed. bind (vector 1 fixed.1) (λ session.
    bind (vector 2 session.1) (λ ciphers. bind (vector 1 ciphers.1) (λ methods. ok methods.1))))

unfoldable pub parse_hello : Bytes → Result HelloError ClientHello
parse_hello hello = bind (skip_fields hello) (λ rest.
    if is_empty rest
    then ok (record { server_name = none; alpn = [] })
    else bind (vector 2 rest) (λ found.
      extensions (length found.0) found.0 false (record { server_name = none; alpn = [] })))

unfoldable pub parse_client_hello : Bytes → Result HelloError ClientHello
parse_client_hello data' = bind (handshake_bytes data') parse_hello
