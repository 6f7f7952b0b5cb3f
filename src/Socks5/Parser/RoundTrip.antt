-- ===== src/Socks5/Parser/RoundTrip.antt =====
-- What the server reads of a request that a client wrote, and which greetings it accepts
-- (src/proxy/socks5/socks5.cpp).
use cppvless.Common.{
  ℕ, ◌%◌, ◌<◌, ◌≡◌, refl, sym, ap, ◌∙◌, subst, false, [], ◌∷◌, ◌++◌, append_assoc, arith, Bytes,
  length, le→ltb_false, ◌==◌, Result, ok,
}
use cppvless.Coro.ByteReader.{ByteReader}
use cppvless.Coro.Parsing.{
  Yields, Yields-bind, Yields-byte, Yields-read, Yields-guarded, Yields-return,
}
use cppvless.Vless.Encoder.{port_bytes}
use cppvless.Vless.Encoder.RoundTrip.{be16-port_bytes}
use cppvless.Socks5.Protocol.{
  Address, ipv4, ipv6, domain, command_of_byte, Socks5Error, invalid_request_version,
  write_addr_port, write_host, with_port, type_of, IsWritable,
}
use cppvless.Socks5.Parser.{read_host, read_port, read_request, read_greeting, offers_none}

-- A host that can be written is written, with its length first if it is a name.
abbrev pub host_bytes : Address → Bytes
host_bytes (ipv4 ip) = ip
host_bytes (ipv6 ip) = ip
host_bytes (domain name) = length name ∷ name

pub write_host-IsWritable : (a : Address) → IsWritable a → write_host a ≡ ok (host_bytes a)
write_host-IsWritable (ipv4 ip) h = refl
write_host-IsWritable (ipv6 ip) h = refl
write_host-IsWritable (domain name) h =
    let small : length name % 256 ≡ length name = omega arith in
    rw (le→ltb_false 255 (length name) h, small) refl

pub inside : (w : Result Socks5Error Bytes) {x y : Bytes} → w ≡ ok x → w ≡ ok y → x ≡ y
inside w p q = cc

pub write_addr_port-host_bytes :
    (a : Address) (port : ℕ)
    → IsWritable a
    → write_addr_port a port ≡ ok (type_of a ∷ (host_bytes a ++ port_bytes port))
unfolding write_addr_port
write_addr_port-host_bytes a port h = ap (with_port (type_of a) port) (write_host-IsWritable a h)

pub written_bytes :
    (a : Address) (port : ℕ) (written : Bytes)
    → IsWritable a
    → write_addr_port a port ≡ ok written
    → type_of a ∷ (host_bytes a ++ port_bytes port) ≡ written
written_bytes a port written h e = inside _ (write_addr_port-host_bytes a port h) e

module _ {S : Type 0} (r : ByteReader S) where
  Yields-read_host :
      (a : Address) (xs : Bytes)
      → IsWritable a
      → Yields r (read_host r (type_of a)) (host_bytes a ++ xs) a xs
  unfolding read_host
  Yields-read_host (ipv4 ip) xs h = Yields-read r 4 _ ip _ h (Yields-return r _ xs)
  Yields-read_host (ipv6 ip) xs h = Yields-read r 16 _ ip _ h (Yields-return r _ xs)
  Yields-read_host (domain name) xs h =
      Yields-byte r _ (length name) _
        (Yields-read r (length name) _ name _ refl (Yields-return r _ xs))

  Yields-read_port :
      (cmd port : ℕ) (a : Address) (rest : Bytes)
      → port < 65536
      → Yields r
          (read_port r (command_of_byte cmd) a)
          (port_bytes port ++ rest)
          (record { cmd = command_of_byte cmd; address = a; port = port })
          rest
  Yields-read_port cmd port a rest h =
      subst
        (λ n.
          Yields r (read_port r (command_of_byte cmd) a) (port_bytes port ++ rest)
            (record { cmd = command_of_byte cmd; address = a; port = n }) rest)
        (be16-port_bytes port h)
        (Yields-read r 2 _ (port_bytes port) _ refl (Yields-return r _ rest))

  read_request_bytes :
      (cmd rsv port : ℕ) (a : Address) (rest : Bytes)
      → IsWritable a
      → port < 65536
      → Yields r
          (read_request r)
          (0x05 ∷ cmd ∷ rsv ∷ type_of a ∷ (host_bytes a ++ (port_bytes port ++ rest)))
          (record { cmd = command_of_byte cmd; address = a; port = port })
          rest
  unfolding read_request
  read_request_bytes cmd rsv port a rest h hp = Yields-byte r _ 0x05 _ (
      Yields-guarded r _ invalid_request_version _ refl (
        Yields-byte r _ cmd _ (
          Yields-byte r _ rsv _ (
            Yields-byte r _ (type_of a) _ (
              Yields-bind r (read_host r (type_of a)) (read_port r (command_of_byte cmd))
                (Yields-read_host a (port_bytes port ++ rest) h)
                (Yields-read_port cmd port a rest hp))))))

  -- The server reads what a client wrote: any command, any reserved byte, and an address and a
  -- port written by `writeAddrPort`. It leaves the bytes behind the request in the stream.
  pub read_request-write_addr_port :
      (cmd rsv port : ℕ) (a : Address) (written rest : Bytes)
      → IsWritable a
      → port < 65536
      → write_addr_port a port ≡ ok written
      → (s : S) → r.Holds s (0x05 ∷ cmd ∷ rsv ∷ (written ++ rest))
      → (s' : S) × (read_request r s
          ≡ ok ((record { cmd = command_of_byte cmd; address = a; port = port }), s'))
        × r.Holds s' rest
  read_request-write_addr_port cmd rsv port a written rest h hp e =
      subst
        (λ bs.
          Yields r (read_request r) (0x05 ∷ cmd ∷ rsv ∷ bs)
            (record { cmd = command_of_byte cmd; address = a; port = port }) rest)
        (ap (λ bs. type_of a ∷ bs) (sym (append_assoc (host_bytes a) (port_bytes port) rest))
          ∙ ap (λ w. w ++ rest) (written_bytes a port written h e))
        (read_request_bytes cmd rsv port a rest h hp)

  -- Of a greeting of version 5 with one method at least, `readGreeting` returns whether it offers to
  -- do without authentication, and takes the whole greeting from the stream.
  pub read_greeting-methods :
      (methods rest : Bytes)
      → 0 < length methods
      → (s : S) → r.Holds s (0x05 ∷ length methods ∷ (methods ++ rest))
      → (s' : S) × (read_greeting r s ≡ ok ((offers_none methods), s')) × r.Holds s' rest
  unfolding read_greeting
  read_greeting-methods [] rest h = absurd (omega arith)
  read_greeting-methods (m ∷ ms) rest h = Yields-byte r _ 0x05 _ (
      Yields-byte r _ (length (m ∷ ms)) _
        (rw nonzero (Yields-read r (length (m ∷ ms)) _ (m ∷ ms) _ refl (Yields-return r _ rest))))
    where
      nonzero : (length (m ∷ ms) == 0) ≡ false
      nonzero = ground arith
