-- ===== src/Server/Handshake/Opened.antt =====
-- The server's handshake after the client's (src/server/vless_connection_handshake.cpp,
-- src/client/vless_client.cpp).
use cppvless.Common.{◌<◌, ◌≡◌, ◌⊎◌, refl, true, [], ◌++◌, arith, List, Bytes, length, ok}
use cppvless.Coro.BufferedStream.{RecvResult, UringBufferedStream, opened, drain_remaining}
use cppvless.Coro.BufferedStream.Laws.{arriving, uring}
use cppvless.Vless.Protocol.{tcp, udp, Command}
use cppvless.Vless.Validator.{Validator, contains}
use cppvless.Vless.Encoder.RoundTrip.{decoded, decode-encode_request}
use cppvless.Socks5.Protocol.{IsWritable}
use cppvless.Socks5.Protocol
use cppvless.Client.{to_vless_address, to_vless_request, request_header}
use cppvless.Client.Tunnel.{to_vless_address-IsAddress}
use cppvless.Server.Handshake.{process_handshake}

-- A request of SOCKS5 with a writable address and a port below 65536, by a known user and over TCP
-- or UDP: from reads that bring its header and more, in whatever pieces, the server has the user,
-- the command, and the address and port that the application asked for, and what it kept with what
-- it will still read is exactly what follows the header.
pub process_handshake-request_header :
    (validator : Validator) (uuid : Bytes) (req : Protocol.Request) (cmd : Command)
    (reads : List RecvResult) (out later : Bytes)
    → contains validator uuid ≡ true
    → length uuid ≡ 16
    → (cmd ≡ tcp) ⊎ (cmd ≡ udp)
    → req.port < 65536
    → IsWritable req.address
    → request_header uuid (to_vless_request req cmd) ≡ ok out
    → arriving reads ≡ out ++ later
    → (remaining : Bytes) × (s : UringBufferedStream) × (process_handshake validator (opened reads)
        ≡ ok (decoded uring uuid [] cmd req.port (to_vless_address req.address), remaining, s))
      × (remaining ++ arriving s.incoming ≡ later)
unfolding process_handshake request_header drain_remaining
process_handshake-request_header validator uuid req cmd reads out later known size c p w e stream =
    let (s, found, left) =
      decode-encode_request uring validator (record (to_vless_request req cmd) { uuid = uuid })
        later known size c p (to_vless_address-IsAddress req.address w) e (opened reads)
        (omega arith, stream) in
    ((drain_remaining s).0, (drain_remaining s).1, rw found refl, left.1)
