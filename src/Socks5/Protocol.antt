-- ===== src/Socks5/Protocol.antt =====
-- include/proxy/socks5/socks5.h and the address part of src/proxy/socks5/socks5.cpp. `inet_pton` is
-- an argument for each family: it gives the bytes of an address, or nothing.
use cppvless.Common.{
  ℕ, ◌%◌, ◌≡◌, ◌≤◌, [], ◌∷◌, ◌++◌, Bytes, length, ltb, ◌==◌, if◌then◌else◌, Option, none, some,
  Result, ok, err, codes,
}
use cppvless.Vless.Encoder.{port_bytes}

pub data Address : Type 0 where
  ipv4 : Bytes → Address
  ipv6 : Bytes → Address
  domain : Bytes → Address

-- A cast from a byte may give a value that no enumerator names.
pub data Command : Type 0 where
  connect bind udp_associate : Command
  other : ℕ → Command

abbrev pub command_of_byte : ℕ → Command
command_of_byte b =
    if b == 1 then connect else if b == 2 then bind else if b == 3 then udp_associate else other b

-- `AddressType`, whose numbers are not those of VLESS.
abbrev pub type_of : Address → ℕ
type_of (ipv4 ip) = 1
type_of (ipv6 ip) = 4
type_of (domain name) = 3

pub record Request : Type 0 where
  pub cmd : Command
  pub address : Address
  pub port : ℕ

pub data Socks5Error : Type 0 where
  failed_version failed_nmethods failed_methods : Socks5Error
  failed_request_version invalid_request_version failed_command failed_rsv : Socks5Error
  failed_address_type failed_ipv4 failed_domain_length failed_domain failed_ipv6 : Socks5Error
  unsupported_address_type failed_port domain_too_long : Socks5Error

-- The bytes of the address, in the variant's own alternative.
abbrev pub write_host : Address → Result Socks5Error Bytes
write_host (ipv4 ip) = ok ip
write_host (ipv6 ip) = ok ip
write_host (domain name) =
    if ltb 255 (length name) then err domain_too_long else ok (length name % 256 ∷ name)

-- What `writeAddrPort` appends.
abbrev pub with_port : ℕ → ℕ → Result Socks5Error Bytes → Result Socks5Error Bytes
with_port kind port (ok host) = ok (kind ∷ (host ++ port_bytes port))
with_port kind port (err e) = err e

unfoldable pub write_addr_port : Address → ℕ → Result Socks5Error Bytes
write_addr_port addr port = with_port (type_of addr) port (write_host addr)

-- The sizes that the array types of the alternatives fix, and names that have a length byte.
abbrev pub IsWritable : Address → Type 0
IsWritable (ipv4 ip) = length ip ≡ 4
IsWritable (ipv6 ip) = length ip ≡ 16
IsWritable (domain name) = length name ≤ 255

module _ (inet_pton4 inet_pton6 : Bytes → Option Bytes) where
  abbrev from_host6 : Bytes → Option Bytes → Address
  from_host6 host none = domain host
  from_host6 host (some ip) = ipv6 ip

  abbrev from_host4 : Bytes → Option Bytes → Address
  from_host4 host none = from_host6 host (inet_pton6 host)
  from_host4 host (some ip) = ipv4 ip

  -- `Address::fromHost`
  unfoldable pub from_host : Bytes → Address
  from_host host = from_host4 host (inet_pton4 host)

  abbrev pub reply_head : ℕ → Result Socks5Error Bytes → Result Socks5Error Bytes
  reply_head reply (ok bound) = ok (0x05 ∷ reply ∷ 0x00 ∷ bound)
  reply_head reply (err e) = err e

  abbrev bind_host : Bytes → Bytes
  bind_host [] = codes "0.0.0.0"
  bind_host (c ∷ cs) = c ∷ cs

  -- `Parser::encodeReply`
  unfoldable pub encode_reply : ℕ → Bytes → ℕ → Result Socks5Error Bytes
  unfolding write_addr_port from_host
  encode_reply reply bind_ip bind_port =
      reply_head reply (write_addr_port (from_host (bind_host bind_ip)) bind_port)
