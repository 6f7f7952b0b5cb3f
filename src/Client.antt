-- ===== src/Client.antt =====
-- The client (src/client): its program, its connections and tunnels. Here is the header that it
-- sends for the SOCKS5 request of an application (src/client/vless_client.cpp).
pub mod Tunnel
pub mod UdpRelay
pub mod RemoteAddress
pub mod Handshake
pub mod Connection
pub mod Lifecycle
pub mod Program
use cppvless.Common.{ℕ, Bytes, Result}
use cppvless.Vless.Protocol.{default_request}
use cppvless.Vless.Protocol
use cppvless.Vless.Encoder.{EncodeError, encode_request}
use cppvless.Socks5.Protocol.{Address, ipv4, ipv6, domain, Request}

abbrev pub to_vless_address : Address → Protocol.Address
to_vless_address (ipv4 ip) = Protocol.ipv4 ip
to_vless_address (ipv6 ip) = Protocol.ipv6 ip
to_vless_address (domain name) = Protocol.domain name

-- `toVlessRequest`
abbrev pub to_vless_request : Request → Protocol.Command → Protocol.Request
to_vless_request req cmd = record default_request {
  command = cmd;
  port = req.port;
  address = to_vless_address req.address;
}

-- The header that `vlessConnectAndHandshake` sends, with the user's UUID.
unfoldable pub request_header : Bytes → Protocol.Request → Result EncodeError Bytes
unfolding encode_request
request_header uuid req = encode_request (record req { uuid = uuid })
