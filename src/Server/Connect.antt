-- ===== src/Server/Connect.antt =====
-- src/server/vless_connection_connect.cpp: the socket to the target, and the response to the client.
-- `getaddrinfo` is an argument; it is given the name, the port, and whether datagrams are wanted.
pub mod Chosen
pub mod Responded
use cppvless.Common.{
  ℕ, Bool, true, false, not, List, [], ◌∷◌, ◌++◌, Bytes, if◌then◌else◌, Option, none, some,
}
use cppvless.Common.Int.{ℤ, pos, negsuc, is_positive}
use cppvless.Coro.AsyncStream.{SendResult, Written, write_full}
use cppvless.Vless.Protocol.{
  Address, ipv4, ipv6, domain, Command, tcp, udp, mux, rvs, other, Request,
}
use cppvless.Vless.Decoder.{encode_response}
use cppvless.Vless.Encryption.{Openssl, EncryptionSession, compute_shared_secret}

-- A `sockaddr` with its family.
pub data SockAddr : Type 0 where
  inet inet6 : Bytes → ℕ → SockAddr
  unsupported : SockAddr

abbrev pub is_udp : Command → Bool
is_udp udp = true
is_udp _ = false

-- The loop over the answers of `getaddrinfo`.
unfoldable pub first_supported : List SockAddr → Option SockAddr
first_supported [] = none
first_supported (unsupported ∷ answers) = first_supported answers
first_supported (inet ip port ∷ answers) = some (inet ip port)
first_supported (inet6 ip port ∷ answers) = some (inet6 ip port)

abbrev pub answered : Option (List SockAddr) → Option SockAddr
answered none = none
answered (some answers) = first_supported answers

-- `targetFd_` and the address that it is connected to, with the descriptors that were closed.
pub record Connected : Type 0 where
  pub success : Bool
  pub target : Option (ℕ × SockAddr)
  pub closed : List ℕ

abbrev pub no_target : List ℕ → Connected
no_target closed = record { success = false; target = none; closed = closed }

-- What `socket` gives, and whether the connection is made.
unfoldable pub connect_to : Option ℕ → Bool → Option SockAddr → Connected
connect_to fd connects none = no_target []
connect_to none connects (some a) = no_target []
connect_to (some fd) connects (some a) =
    if connects
    then record { success = true; target = some (fd, a); closed = [] }
    else no_target (fd ∷ [])

module _ (getaddrinfo : Bytes → ℕ → Bool → Option (List SockAddr)) where
  -- The address in `createTargetSocket`. The variant holds one of its alternatives, so the last
  -- `else` of the source is not reached.
  unfoldable pub target_addr : Request → Address → Option SockAddr
  unfolding first_supported
  target_addr req (ipv4 ip) = some (inet ip req.port)
  target_addr req (ipv6 ip) = some (inet6 ip req.port)
  target_addr req (domain name) = answered (getaddrinfo name req.port (is_udp req.command))

  unfoldable pub connect_target : Request → Option ℕ → Bool → Connected
  unfolding target_addr connect_to
  connect_target req fd connects = connect_to fd connects (target_addr req req.address)

-- Whether `sendResponseAndKey` succeeds, what the client's stream took, and the session.
pub record Response : Type 0 where
  pub success : Bool
  pub taken : Bytes
  pub session : Option EncryptionSession

abbrev pub is_negative : ℤ → Bool
is_negative (pos n) = false
is_negative (negsuc n) = true

module _ (ssl : Openssl) where
  abbrev pub agreed : Bytes → Option EncryptionSession → Response
  agreed taken none = record { success = false; taken = taken; session = none }
  agreed taken (some s) = record { success = true; taken = taken; session = some s }

  unfoldable pub sends_key : List SendResult → Bytes → EncryptionSession → Bytes → Response
  unfolding compute_shared_secret
  sends_key sends taken s client_key =
      let w = write_full sends s.public_key in
      if is_positive w.result
      then agreed (taken ++ w.taken) (compute_shared_secret ssl s client_key)
      else record { success = false; taken = taken ++ w.taken; session = none }

  -- The session is there in the encryption mode, with the public key of the client.
  unfoldable pub send_response_and_key :
      List SendResult → ℕ → Option (EncryptionSession × Bytes) → Response
  unfolding sends_key encode_response
  send_response_and_key sends version mode =
      let w = write_full sends (encode_response version) in
      if is_negative w.result
      then record { success = false; taken = w.taken; session = none }
      else elim mode [
        | none ↦ record { success = true; taken = w.taken; session = none }
        | some m ↦ sends_key w.sends w.taken m.0 m.1
      ]
