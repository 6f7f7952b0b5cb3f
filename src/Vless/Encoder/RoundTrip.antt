-- ===== src/Vless/Encoder/RoundTrip.antt =====
-- `Decoder::decode` reads what `Encoder::encodeRequest` wrote.
use cppvless.Common.{
  ℕ, ◌+◌, ◌*◌, ◌/◌, ◌%◌, ◌≤◌, ◌<◌, ◌≡◌, refl, sym, ap, ◌∙◌, subst, ◌⊎◌, inl, inr, Bool, true, false,
  [], ◌∷◌, ◌++◌, append_assoc, arith, Bytes, length, get_or, ltb, ltb-false, All, List, suc, ◌==◌,
  if◌then◌else◌, Bool-cases, Result, ok, err,
}
use cppvless.Common
use cppvless.Common.Bits.{or_high_low}
use cppvless.Coro.ByteReader.{ByteReader}
use cppvless.Coro.Parsing.{
  return, Yields, Yields-bind, Yields-return, Yields-guarded, Yields-read, Yields-byte,
}
use cppvless.Vless.Protocol.{
  Address, ipv4, ipv6, domain, Command, tcp, udp, mux, rvs, other, byte_of_command, command_of_byte,
  Request, IsAddress, default_request,
}
use cppvless.Vless.Validator.{Validator, contains}
use cppvless.Vless.Decoder.{
  be16, decode, read_address, read_target, parse_addons, DecodeError, addons_payload, parse_fields,
}
use cppvless.Vless.Decoder.Fields.{
  Field, encode_fields, IsField, apply_fields, parse_fields-encode_fields,
}
use cppvless.Vless.Encoder.{EncodeError, write_address, port_bytes, encode_request}

pub be16-port_bytes : (port : ℕ) → port < 65536 → be16 (port_bytes port) ≡ port
be16-port_bytes port h = or_high_low port h

inside : {E A : Type 0} {a b : A} → ◌≡◌ {A = Result E A} (ok a) (ok b) → a ≡ b
inside e = cc

known_command : (c : Command) → (c ≡ tcp) ⊎ (c ≡ udp) → command_of_byte (byte_of_command c) ≡ c
known_command tcp h = refl
known_command udp h = refl
known_command mux h = refl
known_command rvs h = refl
known_command (other b) h = ground (arith, h)

suc-eq_zero : (n : ℕ) → (suc n == 0) ≡ false
suc-eq_zero n = ground arith

-- A request header, with the fields of the addons.
abbrev pub header : Bytes → List Field → Command → ℕ → Bytes → Bytes
header uuid fields command port address =
    0
    ∷ (uuid
        ++ (length (encode_fields fields)
            ∷ (encode_fields fields ++ (byte_of_command command ∷ (port_bytes port ++ address)))))

-- `encodeRequest` writes a header with no fields.
encode_request_inv :
    (req : Request) {out : Bytes}
    → encode_request req ≡ ok out
    → (a : Bytes) × (write_address req.address ≡ ok a)
      × (out ≡ header req.uuid [] req.command req.port a)
unfolding encode_request
encode_request_inv req {out} = written (write_address req.address)
  where
    written :
        (w : Result EncodeError Bytes)
        → Common.◌>>=◌ w (λ a. ok (header req.uuid [] req.command req.port a)) ≡ ok out
        → (a : Bytes) × (w ≡ ok a) × (out ≡ header req.uuid [] req.command req.port a)
    written (ok a) h = (a, refl, sym (inside h))
    written (err e) h = cc

module _ {S : Type 0} (r : ByteReader S) where
  read_address-write_address :
      (req : Request) (address : Address) (rest : Bytes) {out : Bytes}
      → IsAddress address
      → write_address address ≡ ok out
      → Yields r (read_address r req) (out ++ rest) (record req { address = address }) rest
  unfolding write_address read_address
  read_address-write_address req (ipv4 ip) rest {out} size e =
      rw (← inside e) (Yields-byte r _ 1 _ (Yields-read r 4 _ ip _ size (Yields-return r _ rest)))
  read_address-write_address req (ipv6 ip) rest size e =
      rw (← inside e) (Yields-byte r _ 3 _ (Yields-read r 16 _ ip _ size (Yields-return r _ rest)))
  read_address-write_address req (domain name) rest size e =
      elim (Bool-cases (ltb 255 (length name))) [
        | inl long ↦ cc (long, e)
        | inr fits ↦ rw (← inside (rw fits at e)) (
            Yields-byte r _ 2 _ (
              Yields-byte r _ (length name % 256) _ (
                Yields-read r (length name % 256) _ name _
                  (omega (arith, ltb-false 255 (length name) fits)) (Yields-return r _ rest))))
      ]

  -- The decoder and the encoder meet on TCP and UDP requests.
  read_target-address :
      (req : Request) (command : Command) (port : ℕ) (address : Address) (rest : Bytes)
      {out : Bytes}
      → (command ≡ tcp) ⊎ (command ≡ udp)
      → port < 65536
      → IsAddress address
      → write_address address ≡ ok out
      → Yields r
          (read_target r req command)
          ((port_bytes port ++ out) ++ rest)
          (record req { port = port; address = address })
          rest
  unfolding read_target
  read_target-address req tcp port address rest c p size e =
      Yields-read r 2 _ (port_bytes port) _ refl (
        rw (be16-port_bytes port p)
          (read_address-write_address (record req { port = port }) address rest size e))
  read_target-address req udp port address rest c p size e =
      Yields-read r 2 _ (port_bytes port) _ refl (
        rw (be16-port_bytes port p)
          (read_address-write_address (record req { port = port }) address rest size e))
  read_target-address req mux port address rest c p size e = ground (arith, c)
  read_target-address req rvs port address rest c p size e = ground (arith, c)
  read_target-address req (other b) port address rest c p size e = ground (arith, c)

  parse_addons_fields :
      (req : Request) (fields : List Field) (rest : Bytes)
      → All IsField fields
      → Yields r
          (parse_addons r req)
          (length (encode_fields fields) ∷ (encode_fields fields ++ rest))
          (apply_fields req fields)
          rest
  unfolding parse_addons
  parse_addons_fields req fields rest h =
      Yields-byte r _ (length (encode_fields fields)) _
        (nonempty (encode_fields fields) (parse_fields-encode_fields fields req h))
    where
      nonempty :
          (bytes : Bytes)
          → parse_fields (length bytes) bytes req ≡ ok (apply_fields req fields)
          → Yields r
              (if length bytes == 0 then return req else addons_payload r req (length bytes))
              (bytes ++ rest)
              (apply_fields req fields)
              rest
      nonempty [] e = rw (← inside (unfold parse_fields in e)) (Yields-return r req rest)
      nonempty (b ∷ bs) e =
          rw (suc-eq_zero (length bs))
            (Yields-read r (suc (length bs)) _ (b ∷ bs) _ refl (rw e (Yields-return r _ rest)))

  -- What the decoder makes of a header.
  abbrev pub decoded : Bytes → List Field → Command → ℕ → Address → Request
  decoded uuid fields command port address =
      record (apply_fields (record default_request { uuid = uuid }) fields) {
        command = command;
        port = port;
        address = address;
      }

  -- Over any stream that will deliver a TCP or UDP header of a known user and more, `decode` returns
  -- the request, with flow and seed from the addons, and the stream will deliver exactly what follows
  -- the header.
  pub decode-header :
      (validator : Validator) (uuid : Bytes) (fields : List Field) (command : Command) (port : ℕ)
      (address : Address) (rest : Bytes) {a : Bytes}
      → contains validator uuid ≡ true
      → length uuid ≡ 16
      → All IsField fields
      → (command ≡ tcp) ⊎ (command ≡ udp)
      → port < 65536
      → IsAddress address
      → write_address address ≡ ok a
      → (s : S) → r.Holds s (header uuid fields command port a ++ rest)
      → (s' : S) × (decode r validator s ≡ ok ((decoded uuid fields command port address), s'))
        × r.Holds s' rest
  unfolding decode
  decode-header validator uuid fields command port address rest {a} known size fs c p fits w =
      Yields-byte r _ 0 _ (
        Yields-guarded r _ DecodeError.invalid_version _ refl (
          rw (append_assoc uuid _ rest) (
            Yields-read r 16 _ uuid _ size (
              Yields-guarded r _ _ _ known (
                rw (append_assoc (encode_fields fields) _ rest) (
                  Yields-bind r _ _
                    (parse_addons_fields (record default_request { uuid = uuid }) fields _ fs)
                    (Yields-byte r _ (byte_of_command command) _ (
                      rw (known_command command c) (
                        read_target-address
                          (record (apply_fields (record default_request { uuid = uuid }) fields) {
                            command = command;
                          })
                          command port address rest c p fits w)))))))))

  -- What the decoder reads from the output of `encodeRequest`, on any stream: the user, the
  -- command, the port and the address of the request, for TCP and UDP. Flow, encryption and seed
  -- are not carried.
  pub decode-encode_request :
      (validator : Validator) (req : Request) (rest : Bytes) {out : Bytes}
      → contains validator req.uuid ≡ true
      → length req.uuid ≡ 16
      → (req.command ≡ tcp) ⊎ (req.command ≡ udp)
      → req.port < 65536
      → IsAddress req.address
      → encode_request req ≡ ok out
      → (s : S) → r.Holds s (out ++ rest)
      → (s' : S) × (decode r validator s
          ≡ ok ((decoded req.uuid [] req.command req.port req.address), s'))
        × r.Holds s' rest
  decode-encode_request validator req rest known size c p fits e =
      let (a, w, o) = encode_request_inv req e in
      rw o (
        decode-header validator req.uuid [] req.command req.port req.address rest known size tt c p
          fits w)
