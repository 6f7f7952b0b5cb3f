-- ===== src/Socks5/Parser.antt =====
-- `Parser::readGreeting` and `Parser::readRequest` of src/proxy/socks5/socks5.cpp.
pub mod RoundTrip
use cppvless.Common.{
  ℕ, ◌+◌, ◌/◌, ◌%◌, ◌*◌, ◌≤◌, ◌<◌, ◌≡◌, refl, sym, ap, ◌∙◌, subst, Bool, true, false, not, inl, inr,
  [], ◌∷◌, ◌++◌, append_assoc, arith, Bytes, length, get_or, bit_or, ltb, le→ltb_false, ◌==◌,
  if◌then◌else◌, Bool-cases, Result, ok, err,
}
use cppvless.Common.Bits.{or_byte}
use cppvless.Coro.ByteReader.{ByteReader}
use cppvless.Coro.Parsing.{
  Parser, ◌>>=◌, ◌>>◌, return, throw, guard, read_exact, Yields, Yields-byte, Yields-read,
  Yields-guarded, Yields-return,
}
use cppvless.Vless.Decoder.{byte, be16}
use cppvless.Socks5.Protocol.{
  Address, ipv4, ipv6, domain, Command, command_of_byte, Request, Socks5Error, write_addr_port,
  write_host, type_of, IsWritable, failed_version, failed_nmethods, failed_methods,
  failed_request_version, invalid_request_version, failed_command, failed_rsv, failed_address_type,
  failed_ipv4, failed_domain_length, failed_domain, failed_ipv6, unsupported_address_type,
  failed_port, domain_too_long,
}

-- The loop over the methods: is "no authentication" among them?
unfoldable pub offers_none : Bytes → Bool
offers_none [] = false
offers_none (m ∷ ms) = if m == 0x00 then true else offers_none ms

module _ {S : Type 0} (r : ByteReader S) where
  abbrev methods_of : ℕ → Parser S Socks5Error Bool
  methods_of n = do methods ← read_exact r n failed_methods; return (offers_none methods)

  abbrev greeting_methods : Parser S Socks5Error Bool
  greeting_methods = do
    nmethods ← read_exact r 1 failed_nmethods
    if byte nmethods == 0 then return false else methods_of (byte nmethods)

  unfoldable pub read_greeting : Parser S Socks5Error Bool
  unfolding read_exact offers_none
  read_greeting = do
    version ← read_exact r 1 failed_version
    if byte version == 0x05 then greeting_methods else return false

  -- The cases of the switch over the address type.
  abbrev read_domain : Parser S Socks5Error Address
  read_domain = do
    len ← read_exact r 1 failed_domain_length
    name ← read_exact r (byte len) failed_domain
    return (domain name)

  abbrev read_ipv4 : Parser S Socks5Error Address
  read_ipv4 = do ip ← read_exact r 4 failed_ipv4; return (ipv4 ip)

  abbrev read_ipv6 : Parser S Socks5Error Address
  read_ipv6 = do ip ← read_exact r 16 failed_ipv6; return (ipv6 ip)

  unfoldable pub read_host : ℕ → Parser S Socks5Error Address
  unfolding read_exact
  read_host atyp =
      if atyp == 1
      then read_ipv4
      else if atyp == 3
      then read_domain
      else if atyp == 4
      then read_ipv6
      else throw unsupported_address_type

  abbrev pub read_port : Command → Address → Parser S Socks5Error Request
  read_port cmd address = do
    port ← read_exact r 2 failed_port
    return (record { cmd = cmd; address = address; port = be16 port })

  unfoldable pub read_request : Parser S Socks5Error Request
  unfolding read_host read_exact
  read_request = do
    version ← read_exact r 1 failed_request_version
    guard (byte version == 0x05) invalid_request_version
    cmd ← read_exact r 1 failed_command
    rsv ← read_exact r 1 failed_rsv
    atyp ← read_exact r 1 failed_address_type
    address ← read_host (byte atyp)
    read_port (command_of_byte (byte cmd)) address
