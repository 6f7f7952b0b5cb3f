-- ===== src/Vless/Encoder.antt =====
-- src/proxy/vless/encoder.cpp: the client's side of the header.
pub mod RoundTrip
pub mod Response
use cppvless.Common.{
  ℕ, ◌+◌, ◌/◌, ◌%◌, Bool, true, false, not, [], ◌∷◌, ◌++◌, Bytes, length, get_or, ltb, ◌==◌,
  if◌then◌else◌, Result, ok, err, ◌>>=◌,
}
use cppvless.Coro.ByteReader.{ByteReader}
use cppvless.Vless.Protocol.{
  Address, ipv4, ipv6, domain, byte_of_command, type_ipv4, type_domain, type_ipv6, Request,
}

pub data EncodeError : Type 0 where
  domain_too_long : EncodeError

-- What `writeAddress` appends. The variant holds one of its alternatives, so the last `else` of the
-- source is not reached.
unfoldable pub write_address : Address → Result EncodeError Bytes
write_address (ipv4 ip) = ok (type_ipv4 ∷ ip)
write_address (ipv6 ip) = ok (type_ipv6 ∷ ip)
write_address (domain name) =
    if ltb 255 (length name)
    then err domain_too_long
    else ok (type_domain ∷ length name % 256 ∷ name)

-- `(port >> 8) & 0xFF` and `port & 0xFF`
abbrev pub port_bytes : ℕ → Bytes
port_bytes port = port / 256 % 256 ∷ port % 256 ∷ []

unfoldable pub encode_request : Request → Result EncodeError Bytes
unfolding write_address
encode_request req = do
  address ← write_address req.address
  ok (0 ∷ (req.uuid ++ (0 ∷ byte_of_command req.command ∷ (port_bytes req.port ++ address))))

-- `Encoder::encodeResponse`
unfoldable pub encode_response : ℕ → Bytes
encode_response version = version ∷ 0 ∷ []

module _ {S : Type 0} (r : ByteReader S) where
  abbrev response_addons : ℕ → S → Bool × S
  response_addons len s = let (addons, s') = r.read len s in (length addons == len, s')

  abbrev response_head : Bytes → S → Bool × S
  response_head d s =
      if not (length d == 2)
      then (false, s)
      else if not (get_or d 0 0 == 0)
      then (false, s)
      else if ltb 0 (get_or d 1 0)
      then response_addons (get_or d 1 0) s
      else (true, s)

  -- `decodeResponse` takes a short read for an answer of false, and throws nothing.
  unfoldable pub decode_response : S → Bool × S
  decode_response s = let (d, s') = r.read 2 s in response_head d s'
