-- ===== src/Socks5/Datagram.antt =====
-- `Parser::parseUdpDatagram` and `Parser::encodeUdpDatagram` of src/proxy/socks5/socks5.cpp.
pub mod RoundTrip
use cppvless.Common.{
  ℕ, ◌+◌, Bool, true, false, not, [], ◌∷◌, ◌++◌, Bytes, length, take, drop, get_or, ltb, ◌==◌,
  if◌then◌else◌, Option, none, some, Result, ok, err,
}
use cppvless.Socks5.Protocol.{Address, ipv4, ipv6, domain, Socks5Error, write_addr_port}
use cppvless.Vless.Decoder.{be16}

pub record Datagram : Type 0 where
  pub addr : Address
  pub port : ℕ
  pub payload : Bytes

abbrev domain_at : ℕ → Bytes → Option (Address × Bytes)
domain_at len left =
    if ltb (length left) (len + 2) then none else some (domain (take len left), drop len left)

-- The switch over the address type, on the bytes behind it; with what is left behind the address.
abbrev pub address_at : ℕ → Bytes → Option (Address × Bytes)
address_at atyp left =
    if atyp == 1
    then (if ltb (length left) 6 then none else some (ipv4 (take 4 left), drop 4 left))
    else if atyp == 3
    then (if ltb (length left) 1 then none else domain_at (get_or left 0 0) (drop 1 left))
    else if atyp == 4
    then (if ltb (length left) 18 then none else some (ipv6 (take 16 left), drop 16 left))
    else none

abbrev pub port_at : Option (Address × Bytes) → Option Datagram
port_at none = none
port_at (some (a, left)) =
    if ltb (length left) 2
    then none
    else some (record { addr = a; port = be16 left; payload = drop 2 left })

unfoldable pub parse_udp_datagram : Bytes → Option Datagram
parse_udp_datagram d =
    if ltb (length d) 4
    then none
    else if not (get_or d 2 0 == 0)
    then none
    else port_at (address_at (get_or d 3 0) (drop 4 d))

abbrev pub with_payload : Bytes → Result Socks5Error Bytes → Result Socks5Error Bytes
with_payload payload (ok head) = ok (0x00 ∷ 0x00 ∷ 0x00 ∷ (head ++ payload))
with_payload payload (err e) = err e

unfoldable pub encode_udp_datagram : Address → ℕ → Bytes → Result Socks5Error Bytes
unfolding write_addr_port
encode_udp_datagram a port payload = with_payload payload (write_addr_port a port)
