-- ===== src/Vless/Decoder.antt =====
-- src/proxy/vless/decoder.cpp: `Decoder::decode` and its helpers, over any buffered stream.
-- The messages of the exceptions are the constructors of `DecodeError`.
pub mod Varint
pub mod Termination
pub mod Fields
pub mod Sound
pub mod Segments
use cppvless.Common.{
  ℕ, zero, suc, ◌+◌, ◌*◌, ◌/◌, Bool, true, false, List, [], ◌∷◌, bit_and, bit_or, Bytes, length,
  take, drop, get_or, ltb, ◌==◌, if◌then◌else◌, Option, none, some, Result, ok, err,
}
use cppvless.Common
use cppvless.Coro.ByteReader.{ByteReader}
use cppvless.Coro.Parsing.{Parser, ◌>>=◌, ◌>>◌, return, throw, guard, read_exact}
use cppvless.Vless.Protocol.{
  Address, ipv4, ipv6, domain, Command, tcp, udp, mux, rvs, other, command_of_byte, type_ipv4,
  type_domain, type_ipv6, Request, default_request, mux_host, rvs_host,
}
use cppvless.Vless.Validator.{Validator, contains}
use Varint.{decode_varint}

-- `stuck` is no C++ exception: the loop over the addons ran out of fuel.
pub data DecodeError : Type 0 where
  failed_version invalid_version failed_uuid invalid_uuid : DecodeError
  failed_addons_length failed_addons_payload invalid_addons_varint : DecodeError
  invalid_addons_length unsupported_wire_type : DecodeError
  failed_command invalid_command failed_port : DecodeError
  failed_address_type failed_ipv4 failed_domain_length failed_domain failed_ipv6 : DecodeError
  invalid_address_type stuck : DecodeError

-- A length-delimited field: 1 is the flow, 2 is the seed, and any other is skipped.
abbrev pub set_field : ℕ → Bytes → Request → Request
set_field num payload req =
    if num == 1
    then record req { flow = payload }
    else if num == 2
    then record req { seed = payload }
    else req

-- The branch of the loop for each wire type, after the tag; the result is what is left to read.
abbrev delimited : ℕ → Request → Option (ℕ × Bytes) → Result DecodeError (Bytes × Request)
delimited num req none = err invalid_addons_varint
delimited num req (some (len, rest)) =
    if ltb (length rest) len
    then err invalid_addons_length
    else ok (drop len rest, set_field num (take len rest) req)

abbrev skipped : Request → Option (ℕ × Bytes) → Result DecodeError (Bytes × Request)
skipped req none = err invalid_addons_varint
skipped req (some (_, rest)) = ok (rest, req)

abbrev after_tag : Request → Option (ℕ × Bytes) → Result DecodeError (Bytes × Request)
after_tag req none = err invalid_addons_varint
after_tag req (some (tag, rest)) =
    let wire_type = bit_and tag 0x07 in
    if wire_type == 2
    then delimited (tag / 8) req (decode_varint rest)
    else if wire_type == 0
    then skipped req (decode_varint rest)
    else err unsupported_wire_type

-- One round of `while (pos < addonsData.size())`.
unfoldable pub next_field : Bytes → Request → Result DecodeError (Bytes × Request)
unfolding decode_varint
next_field bytes req = after_tag req (decode_varint bytes)

unfoldable pub parse_fields : ℕ → Bytes → Request → Result DecodeError Request
unfolding next_field
parse_fields fuel [] req = ok req
parse_fields zero (b ∷ bs) req = err stuck
parse_fields (suc fuel) (b ∷ bs) req =
    Common.◌>>=◌ (next_field (b ∷ bs) req) (λ p. parse_fields fuel p.0 p.1)

abbrev lift : {S A : Type 0} → Result DecodeError A → Parser S DecodeError A
lift (ok a) s = ok (a, s)
lift (err e) s = err e

-- The first byte of a read that returned one.
abbrev pub byte : Bytes → ℕ
byte d = get_or d 0 0

-- `(uint16_t(d[0]) << 8) | uint16_t(d[1])`
abbrev pub be16 : Bytes → ℕ
be16 d = bit_or (get_or d 0 0 * 256) (get_or d 1 0)

module _ {S : Type 0} (r : ByteReader S) where
  -- Every round takes a byte at least, so the length of the addons is fuel enough.
  abbrev pub addons_payload : Request → ℕ → Parser S DecodeError Request
  addons_payload req len = do
    payload ← read_exact r len failed_addons_payload
    lift (parse_fields (length payload) payload req)

  unfoldable pub parse_addons : Request → Parser S DecodeError Request
  unfolding read_exact parse_fields
  parse_addons req = do
    len ← read_exact r 1 failed_addons_length
    if byte len == 0 then return req else addons_payload req (byte len)

  -- The cases of the switch in `readAddress`.
  abbrev read_ipv4 : Request → Parser S DecodeError Request
  read_ipv4 req = do ip ← read_exact r 4 failed_ipv4; return (record req { address = ipv4 ip })

  abbrev read_domain : Request → Parser S DecodeError Request
  read_domain req = do
    len ← read_exact r 1 failed_domain_length
    name ← read_exact r (byte len) failed_domain
    return (record req { address = domain name })

  abbrev read_ipv6 : Request → Parser S DecodeError Request
  read_ipv6 req = do ip ← read_exact r 16 failed_ipv6; return (record req { address = ipv6 ip })

  abbrev read_kind : Request → ℕ → Parser S DecodeError Request
  read_kind req kind =
      if kind == type_ipv4
      then read_ipv4 req
      else if kind == type_domain
      then read_domain req
      else if kind == type_ipv6
      then read_ipv6 req
      else throw invalid_address_type

  unfoldable pub read_address : Request → Parser S DecodeError Request
  unfolding read_exact
  read_address req = do kind ← read_exact r 1 failed_address_type; read_kind req (byte kind)

  -- `switch (req.command)`. The names are the fixed addresses of Mux and Reverse.
  unfoldable pub read_target : Request → Command → Parser S DecodeError Request
  unfolding read_address
  read_target req mux = return (record req { address = domain mux_host; port = 0 })
  read_target req rvs = return (record req { address = domain rvs_host; port = 0 })
  read_target req (other b) = throw invalid_command
  read_target req _ = do
    port ← read_exact r 2 failed_port
    read_address (record req { port = be16 port })

  unfoldable pub decode : Validator → Parser S DecodeError Request
  unfolding parse_addons read_target contains
  decode validator = do
    version ← read_exact r 1 failed_version
    guard (byte version == 0) invalid_version
    uuid ← read_exact r 16 failed_uuid
    guard (contains validator uuid) invalid_uuid
    req ← parse_addons (record default_request { version = byte version; uuid = uuid })
    command ← read_exact r 1 failed_command
    read_target (record req { command = command_of_byte (byte command) })
        (command_of_byte (byte command))

-- `Decoder::encodeResponse`: no addons.
unfoldable pub encode_response : ℕ → Bytes
encode_response version = version ∷ 0 ∷ []
