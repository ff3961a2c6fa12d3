-- ===== src/Egress/HelloTests.antt =====
-- The record theorem at a concrete ClientHello.
use apipi.Base.{◌≡◌, refl, List, [], ◌∷◌, ◌++◌, some, ok, arith}
use apipi.Egress.Bytes.{Bytes}
use apipi.Egress.Dns.{lower}
use apipi.Egress.Policy.{rstrip}
use apipi.Egress.Hello.{
  handshake_bytes, parse_hello, skip_fields, read, vector, extensions, parse_server_name, one_name,
  host_name,
}
use apipi.Egress.Records.{records, handshake_bytes-records}

-- Version, random, no session, one cipher, no compression, and the server name "aB.".
abbrev fields : Bytes
fields =
    3 ∷ 3 ∷ 0 ∷ 0 ∷ 0 ∷ 0 ∷ 0 ∷ 0 ∷ 0 ∷ 0 ∷ 0 ∷ 0 ∷ 0 ∷ 0 ∷ 0 ∷ 0 ∷ 0 ∷ 0 ∷ 0 ∷ 0 ∷ 0 ∷ 0 ∷ 0 ∷ 0
    ∷ 0 ∷ 0 ∷ 0 ∷ 0 ∷ 0 ∷ 0 ∷ 0 ∷ 0 ∷ 0 ∷ 0 ∷ 0 ∷ 0 ∷ 2 ∷ 19 ∷ 1 ∷ 1 ∷ 0 ∷ []

abbrev named : Bytes
named = 0 ∷ 12 ∷ 0 ∷ 0 ∷ 0 ∷ 8 ∷ 0 ∷ 6 ∷ 0 ∷ 0 ∷ 3 ∷ 97 ∷ 66 ∷ 46 ∷ []

abbrev message : Bytes
message = 1 ∷ 0 ∷ 0 ∷ 55 ∷ fields ++ named

abbrev cut : List Bytes
cut = (1 ∷ 0 ∷ []) ∷ (0 ∷ 55 ∷ fields) ∷ named ∷ []

handshake_bytes-records_example : handshake_bytes (records cut ++ 99 ∷ []) ≡ ok message
handshake_bytes-records_example =
    handshake_bytes-records cut (99 ∷ []) message
      (record { hello = refl; header = omega arith; size = refl; small = omega arith })
      (omega arith, (omega arith, (omega arith, tt))) refl

reads_name : parse_hello message ≡ ok (record { server_name = some (97 ∷ 98 ∷ []); alpn = [] })
unfolding parse_hello skip_fields read vector extensions parse_server_name one_name host_name lower
    rstrip
reads_name = refl
