-- ===== src/Lib.antt =====
-- cppvless is a VLESS proxy: a server and a client over io_uring coroutines. This library models
-- the logic that does not depend on the operating system, in these parts.
--
-- - Coro: the buffered stream that the protocol parsers read (src/coro/buffered_stream.cpp).
--   `ByteReader` is the interface, with the laws that a client may use; `uring` is the
--   implementation `UringBufferedStream` over a list of what the reads of the socket return, and
--   `flat` a plain byte string. PendingOps is the table of the operations that wait, with
--   cancellation and completion (include/coro/uring_awaitable.h). AsyncStream has `writeFull` and
--   `copyStream` (src/coro/async_stream.cpp, include/coro/async_stream.h). Parsing has the
--   coroutines as a monad of state and exceptions.
-- - Vless: the protocol. Protocol (include/proxy/vless/protocol.h), Validator
--   (src/proxy/vless/validator.cpp), Decoder (src/proxy/vless/decoder.cpp: `decode` is
--   `Decoder::decode`), Encoder (src/proxy/vless/encoder.cpp) and Encryption
--   (src/proxy/vless/encryption.cpp, with OpenSSL as a record of functions).
-- - Vision: src/proxy/vless/vision.cpp. Reader is `VisionReader::process` with its state as a
--   record and its main loop by rounds; Reader/Feed is the same machine one byte at a time. Writer
--   is `VisionWriter::process` and `padding`, TlsFilter is `filterTls`, Records is
--   `isCompleteRecord`. RoundTrip puts writer and reader together.
-- - Socks5: src/proxy/socks5/socks5.cpp, with `inet_pton` as an argument.
-- - Client: `toVlessRequest` and the header that the client sends; RemoteAddress is
--   `VlessClientConfig::fromString`, and Handshake is `vlessConnectAndHandshake` on what the
--   system and the TLS library answer (src/client/vless_client.cpp). Connection is `clientTask`
--   with `runTcpSession` and `runUdpAssociate` as a function of what the awaited operations give,
--   and Lifecycle has the flags, the ends of the two coroutines and the destructor with `doClose`
--   as a step relation (src/client/socks5_connection.cpp). UdpRelay is
--   src/client/socks5_udp_relay.cpp: the loops over the datagrams of the application, the answers
--   of the tunnels, and the queue between them. Program has the command line and the start of
--   src/client/client_main.cpp.
-- - Server: Lifecycle has the flags of a `VlessConnection`, the ends of its two coroutines and
--   the destructor with `doClose` as a step relation (src/server/vless_connection.cpp). Session
--   has the phases of `runTcpSession` and `runUdpSession` and their set-up
--   (src/server/vless_connection_handshake.cpp), Handshake is `processHandshake` of that file,
--   Connect `connectTarget` and `sendResponseAndKey` (src/server/vless_connection_connect.cpp).
--   TcpRelay is the Vision mode and EncryptedRelay the encryption mode of
--   src/server/vless_connection_relay_tcp.cpp (the plain mode is `copyStream`), UdpRelay is
--   src/server/vless_connection_relay_udp.cpp, and TargetTask `targetTask`
--   (src/server/vless_connection_target_task.cpp). EventLoop has the rounds of
--   src/server/event_loop.cpp, on the completions that the kernel gives.
-- - Log: the queue of src/common/log.cpp; each section under its lock is a step.
-- - Link: src/common/link.cpp.
-- - Config: src/common/config.cpp. Uuid is `generateUuid`, Json the class `Json` with
--   `JsonParser`, Settings the structures of include/common/config.h, Render `writeServerConfig`,
--   Load `loadServerConfig` and `loadClientConfig`, and ParentDir `ensureParentDir`. Numbers that
--   are no integers up to 2 ^ 53 are read by an argument, since the source has them as `double`.
-- - Common: tests on numbers, lists, results and bits that the parts share. Tests: every theorem
--   of the list below at a concrete input.
--
-- The decoder, the Vision reader and the decoder of SOCKS5 meet the rest of the program through
-- bytes: what a connection reads goes through the buffered stream into `decode`, what is left of
-- the handshake and all later reads go into the Vision reader, the encryption session, or the UDP
-- relay.
--
-- Bytes are numbers below 256 in a list. Fields of 16 bits, the 64-bit varint and the 64-bit nonce
-- wrap as in the source. Loops that are not structural run on fuel: the length of the addons for
-- their fields, the length of the data for records and packets, the length of the queue for the
-- log, the length of a read for the frames of a tunnel, twice the length of the text and one for
-- the JSON parser, and twice the length of the data and two for the Vision reader. Theorems show
-- that each is enough; for the reader this is part of its equality with the machine of single
-- bytes.
--
-- Not modelled: sockets, io_uring, TLS, threads, files and the clock; the frames of coroutines, so
-- that an operation stays in memory; the query for the public address and the drawing of QR codes
-- in src/common/link.cpp, which are calls of the system and of a library; the command line of the
-- server in main.cpp; and the QR code library, which is a copy of another project. The relays
-- leave out that the two directions of a session share the context of Vision.
pub mod Common
pub mod Coro
pub mod Vless
pub mod Config
pub mod Vision
pub mod Socks5
pub mod Client
pub mod Server
pub mod Log
pub mod Link
pub mod Tests
