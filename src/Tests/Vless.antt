-- ===== src/Tests/Vless.antt =====
-- Headers of VLESS, users and UUIDs (src/proxy/vless, src/common/config.cpp).
use cppvless.Common.{
  ◌≡◌, refl, arith, inl, List, [], ◌∷◌, ◌++◌, Bytes, replicate, true, equal, ok, codes,
}
use cppvless.Coro.Parsing.{read_exact}
use cppvless.Coro.ByteReader.{flat}
use cppvless.Coro.Agreement.{SameOutcome}
use cppvless.Coro.BufferedStream.{received, UringBufferedStream, opened}
use cppvless.Coro.BufferedStream.Laws.{uring}
use cppvless.Vless.Protocol.{Request, default_request, tcp, udp, ipv4, domain}
use cppvless.Vless.Validator.{Validator, contains}
use cppvless.Vless.Decoder.{decode, parse_addons, read_target, read_address}
use cppvless.Vless.Decoder.Fields.{Field, text, number}
use cppvless.Vless.Decoder.Sound.{Accepted, decode-Accepted}
use cppvless.Vless.Decoder.Segments.{decode-SameOutcome}
use cppvless.Vless.Encoder.{encode_request, write_address}
use cppvless.Vless.Encoder.RoundTrip.{header, decoded, decode-header}

abbrev user : Bytes
user = replicate 16 7

abbrev users : Validator
users = user ∷ []

abbrev flow : Bytes
flow = codes "xtls-rprx-vision"

abbrev fields : List Field
fields = text 1 flow ∷ number 9 300 ∷ []

abbrev host : Bytes
host = 2 ∷ 3 ∷ codes "a.b"

abbrev head : Bytes
head = header user fields tcp 443 host

known : contains users user ≡ true
unfolding contains equal
known = refl

written : write_address (domain (codes "a.b")) ≡ ok host
unfolding write_address
written = refl

decode-header_example :
    (s : Bytes) × (decode flat users (head ++ (9 ∷ []))
      ≡ ok (decoded flat user fields tcp 443 (domain (codes "a.b")), s))
    × (s ≡ 9 ∷ [])
decode-header_example =
    decode-header flat users user fields tcp 443 (domain (codes "a.b")) (9 ∷ []) known refl
      ((omega arith, omega arith), ((omega arith, omega arith), tt)) (inl refl) (omega arith) tt
      written (head ++ (9 ∷ [])) refl

abbrev request : Request
request = record default_request {
  uuid = user;
  command = udp;
  port = 53;
  address = ipv4 (8 ∷ 8 ∷ 4 ∷ 4 ∷ []);
}

abbrev encoded : Bytes
encoded = 0 ∷ (user ++ (0 ∷ 2 ∷ 0 ∷ 53 ∷ 1 ∷ 8 ∷ 8 ∷ 4 ∷ 4 ∷ []))

encodes : encode_request request ≡ ok encoded
unfolding encode_request write_address
encodes = refl

abbrev pieces : UringBufferedStream
pieces =
    opened (
      received (0 ∷ user) ∷ received (0 ∷ 2 ∷ 0 ∷ 53 ∷ 1 ∷ 8 ∷ []) ∷ received (8 ∷ 4 ∷ 4 ∷ []) ∷ [])

decode-SameOutcome_example :
    SameOutcome uring flat (decode uring users pieces) (decode flat users encoded)
decode-SameOutcome_example =
    decode-SameOutcome uring flat users pieces encoded encoded (omega arith, refl) refl

decodes :
    decode flat users encoded ≡ ok (decoded flat user [] udp 53 (ipv4 (8 ∷ 8 ∷ 4 ∷ 4 ∷ [])), [])
unfolding decode read_exact parse_addons read_target read_address contains equal
decodes = refl

decode-Accepted_example : Accepted users (decoded flat user [] udp 53 (ipv4 (8 ∷ 8 ∷ 4 ∷ 4 ∷ [])))
decode-Accepted_example = decode-Accepted flat users encoded decodes
