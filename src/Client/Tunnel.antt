-- ===== src/Client/Tunnel.antt =====
-- The server decodes what the client asks for on behalf of an application.
use cppvless.Common.{
  ◌<◌, ◌≡◌, refl, ap, ◌∙◌, ◌⊎◌, true, [], ◌∷◌, ◌++◌, Bytes, length, le→ltb_false, ok,
}
use cppvless.Coro.ByteReader.{flat}
use cppvless.Vless.Protocol.{tcp, udp, IsAddress, Command}
use cppvless.Vless.Validator.{Validator, contains}
use cppvless.Vless.Decoder.{decode}
use cppvless.Vless.Encoder.{write_address, encode_request}
use cppvless.Vless.Encoder.RoundTrip.{decoded, decode-encode_request}
use cppvless.Socks5.Protocol.{Address, ipv4, ipv6, domain, Request, IsWritable}
use cppvless.Client.{to_vless_address, to_vless_request, request_header}

pub to_vless_address-IsAddress : (a : Address) → IsWritable a → IsAddress (to_vless_address a)
to_vless_address-IsAddress (ipv4 ip) h = h
to_vless_address-IsAddress (ipv6 ip) h = h
to_vless_address-IsAddress (domain name) h = tt

-- An address that SOCKS5 can carry can be encoded for VLESS; the header begins with the version.
pub encodes :
    (uuid : Bytes) (req : Request) (cmd : Command)
    → IsWritable req.address
    → (out : Bytes) × (request_header uuid (to_vless_request req cmd) ≡ ok (0 ∷ out))
unfolding request_header
encodes uuid req cmd h = encoded req.address h
  where
    encoded :
        (a : Address)
        → IsWritable a
        → (out : Bytes) × (encode_request
              (record (to_vless_request (record req { address = a }) cmd) { uuid = uuid })
            ≡ ok (0 ∷ out))
    encoded (ipv4 ip) h = unfold encode_request write_address in (_, refl)
    encoded (ipv6 ip) h = unfold encode_request write_address in (_, refl)
    encoded (domain name) h =
        unfold encode_request write_address in rw (le→ltb_false 255 (length name) h) (_, refl)

-- For a request of SOCKS5 with a writable address and a port below 65536, by a known user and over
-- TCP or UDP, the client has a header to send, and the server decodes from it the user, the command,
-- and the address and port that the application asked for, leaving what follows the header.
pub decode-request_header :
    (validator : Validator) (uuid : Bytes) (req : Request) (cmd : Command) (rest : Bytes)
    → contains validator uuid ≡ true
    → length uuid ≡ 16
    → (cmd ≡ tcp) ⊎ (cmd ≡ udp)
    → req.port < 65536
    → IsWritable req.address
    → (out : Bytes) × (request_header uuid (to_vless_request req cmd) ≡ ok out)
      × (decode flat validator (out ++ rest)
          ≡ ok (decoded flat uuid [] cmd req.port (to_vless_address req.address), rest))
unfolding request_header
decode-request_header validator uuid req cmd rest known size c p h =
    let (out, e) = encodes uuid req cmd h in
    let (left, found, same) =
      decode-encode_request flat validator (record (to_vless_request req cmd) { uuid = uuid }) rest
        known size c p (to_vless_address-IsAddress req.address h) e ((0 ∷ out) ++ rest) refl in
    (
      0 ∷ out,
      e,
      found
          ∙ ap (λ l. ok (decoded flat uuid [] cmd req.port (to_vless_address req.address), l)) same,
    )
