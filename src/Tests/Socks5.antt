-- ===== src/Tests/Socks5.antt =====
-- SOCKS5 (src/proxy/socks5/socks5.cpp).
use cppvless.Common.{◌≡◌, refl, arith, [], ◌∷◌, ◌++◌, Bytes, some, ok, codes, leb→le}
use cppvless.Coro.ByteReader.{flat}
use cppvless.Socks5.Protocol.{Address, domain, connect, write_addr_port}
use cppvless.Socks5.Parser.{read_request}
use cppvless.Socks5.Parser.RoundTrip.{read_request-write_addr_port}
use cppvless.Socks5.Datagram.{parse_udp_datagram, encode_udp_datagram}
use cppvless.Socks5.Datagram.RoundTrip.{parse_udp_datagram-encode_udp_datagram}

abbrev name : Address
name = domain (codes "a.b")

abbrev name_bytes : Bytes
name_bytes = 3 ∷ 3 ∷ (codes "a.b" ++ (1 ∷ 187 ∷ []))

writes : write_addr_port name 443 ≡ ok name_bytes
unfolding write_addr_port
writes = refl

read_request-write_addr_port_example :
    (s : Bytes) × (read_request flat (5 ∷ 1 ∷ 0 ∷ (name_bytes ++ (9 ∷ [])))
      ≡ ok (record { cmd = connect; address = name; port = 443 }, s))
    × (s ≡ 9 ∷ [])
read_request-write_addr_port_example =
    read_request-write_addr_port flat 1 0 443 name name_bytes (9 ∷ []) (leb→le _ _ refl)
      (omega arith) writes (5 ∷ 1 ∷ 0 ∷ (name_bytes ++ (9 ∷ []))) refl

encodes : encode_udp_datagram name 443 (7 ∷ 8 ∷ []) ≡ ok (0 ∷ 0 ∷ 0 ∷ (name_bytes ++ (7 ∷ 8 ∷ [])))
unfolding encode_udp_datagram write_addr_port
encodes = refl

parse_udp_datagram-encode_udp_datagram_example :
    parse_udp_datagram (0 ∷ 0 ∷ 0 ∷ (name_bytes ++ (7 ∷ 8 ∷ [])))
    ≡ some (record { addr = name; port = 443; payload = 7 ∷ 8 ∷ [] })
parse_udp_datagram-encode_udp_datagram_example =
    parse_udp_datagram-encode_udp_datagram name 443 (7 ∷ 8 ∷ [])
      (0 ∷ 0 ∷ 0 ∷ (name_bytes ++ (7 ∷ 8 ∷ []))) (leb→le _ _ refl) (omega arith) encodes
