-- ===== src/Socks5/Datagram/RoundTrip.antt =====
-- The two directions of SOCKS5 datagrams (src/proxy/socks5/socks5.cpp).
use cppvless.Common.{
  ℕ, suc, ◌+◌, ◌<◌, ◌≡◌, ◌↔◌, refl, sym, ap, ◌∙◌, false, inl, inr, ◌∷◌, ◌++◌, append_assoc, arith,
  Bytes, length, length-append, take-append, drop-append, ltb, ltb→lt, ltb-false, le→ltb_false,
  Bool-cases, some, ok, err,
}
use cppvless.Vless.Encoder.{port_bytes}
use cppvless.Socks5.Protocol.{
  Address, ipv4, ipv6, domain, write_addr_port, type_of, IsWritable, domain_too_long,
}
use cppvless.Vless.Encoder.RoundTrip.{be16-port_bytes}
use cppvless.Socks5.Parser.RoundTrip.{host_bytes, inside, write_addr_port-host_bytes}
use cppvless.Socks5.Datagram.{
  address_at, port_at, with_payload, parse_udp_datagram, encode_udp_datagram,
}

address_at-host_bytes :
    (a : Address) (port : ℕ) (payload : Bytes)
    → IsWritable a
    → address_at (type_of a) (host_bytes a ++ (port_bytes port ++ payload))
      ≡ some (a, port_bytes port ++ payload)
address_at-host_bytes (ipv4 ip) port payload h =
    let left = port_bytes port ++ payload in
    rw
      (
        le→ltb_false (length (ip ++ left)) 6 (omega (arith, length-append ip left, h)),
        take-append 4 ip left h,
        drop-append 4 ip left h,
      )
      refl
address_at-host_bytes (ipv6 ip) port payload h =
    let left = port_bytes port ++ payload in
    rw
      (
        le→ltb_false (length (ip ++ left)) 18 (omega (arith, length-append ip left, h)),
        take-append 16 ip left h,
        drop-append 16 ip left h,
      )
      refl
address_at-host_bytes (domain name) port payload h =
    let left = port_bytes port ++ payload in
    let n = length name in
    rw (le→ltb_false (suc (length (name ++ left))) 1 (omega arith)) (
      rw
        (
          le→ltb_false (length (name ++ left)) (n + 2) (omega (arith, length-append name left)),
          take-append n name left refl,
          drop-append n name left refl,
        )
        refl)

port_at-port_bytes :
    (a : Address) (port : ℕ) (payload : Bytes)
    → port < 65536
    → port_at (some (a, port_bytes port ++ payload))
      ≡ some (record { addr = a; port = port; payload = payload })
port_at-port_bytes a port payload hp =
    rw (le→ltb_false (length (port_bytes port ++ payload)) 2 (omega arith))
      (ap (λ n. some (record { addr = a; port = n; payload = payload })) (be16-port_bytes port hp))

parse_bytes :
    (a : Address) (port : ℕ) (payload : Bytes)
    → IsWritable a
    → port < 65536
    → parse_udp_datagram (0 ∷ 0 ∷ 0 ∷ type_of a ∷ (host_bytes a ++ (port_bytes port ++ payload)))
      ≡ some (record { addr = a; port = port; payload = payload })
unfolding parse_udp_datagram
parse_bytes a port payload h hp =
    let left = host_bytes a ++ (port_bytes port ++ payload) in
    rw (le→ltb_false (suc (suc (suc (suc (length left))))) 4 (omega arith))
      (rw (address_at-host_bytes a port payload h) (port_at-port_bytes a port payload hp))

-- A datagram that `encodeUdpDatagram` makes of a writable address, a port below 65536 and a payload
-- is parsed to the same three.
pub parse_udp_datagram-encode_udp_datagram :
    (a : Address) (port : ℕ) (payload d : Bytes)
    → IsWritable a
    → port < 65536
    → encode_udp_datagram a port payload ≡ ok d
    → parse_udp_datagram d ≡ some (record { addr = a; port = port; payload = payload })
unfolding encode_udp_datagram
parse_udp_datagram-encode_udp_datagram a port payload d h hp e =
    ap parse_udp_datagram (
      sym (inside _ (ap (with_payload payload) (write_addr_port-host_bytes a port h)) e)
      ∙ ap (λ bs. 0 ∷ 0 ∷ 0 ∷ type_of a ∷ bs)
          (append_assoc (host_bytes a) (port_bytes port) payload))
    ∙ parse_bytes a port payload h hp

-- An address is refused as too long exactly if it is a name of more than 255 bytes.
pub encode_udp_datagram-too_long :
    (a : Address) (port : ℕ) (payload : Bytes)
    → (encode_udp_datagram a port payload ≡ err domain_too_long)
      ↔ ((name : Bytes) × (a ≡ domain name) × (255 < length name))
unfolding encode_udp_datagram write_addr_port
encode_udp_datagram-too_long (ipv4 ip) port payload = (λ e. cc, λ p. let e = p.1 in cc)
encode_udp_datagram-too_long (ipv6 ip) port payload = (λ e. cc, λ p. let e = p.1 in cc)
encode_udp_datagram-too_long (domain name) port payload =
    elim (Bool-cases (ltb 255 (length name))) [
      | inl long ↦ rw long ((λ e. (name, refl, ltb→lt _ _ long)), (λ p. refl))
      | inr fits ↦ rw fits ((λ e. absurd cc), (λ p. absurd (short fits p)))
    ]
  where
    name_of : Address → Bytes
    name_of (ipv4 ip) = ip
    name_of (ipv6 ip) = ip
    name_of (domain name) = name

    short :
        {n : Bytes}
        → ltb 255 (length n) ≡ false
        → ((m : Bytes) × (domain n ≡ domain m) × (255 < length m))
        → ⊥
    short f (m, e, l) = omega (arith, ltb-false _ _ f, l, ap (λ a. length (name_of a)) e)
