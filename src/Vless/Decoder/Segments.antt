-- ===== src/Vless/Decoder/Segments.antt =====
-- The decoder's answer depends on the bytes that the peer sent, not on how they were cut into
-- reads nor on what kind of stream carried them.
use cppvless.Common.{Bytes, length, ◌==◌, Result, ok, err}
use cppvless.Coro.ByteReader.{ByteReader}
use cppvless.Coro.Agreement.{
  Agrees, Agrees-bind, Agrees-return, Agrees-throw, Agrees-guard, Agrees-read_exact, Agrees-if,
  SameOutcome, run_agreed,
}
use cppvless.Vless.Protocol.{
  Command, tcp, udp, mux, rvs, other, command_of_byte, type_ipv4, type_domain, type_ipv6, Request,
  default_request,
}
use cppvless.Vless.Validator.{Validator, contains}
use cppvless.Vless.Decoder.{
  DecodeError, parse_fields, parse_addons, read_address, read_target, decode, lift, byte, be16,
}

module _ {S T : Type 0} (r : ByteReader S) (q : ByteReader T) where
  Agrees-lift : {A : Type 0} (x : Result DecodeError A) → Agrees r q (lift x) (lift x)
  Agrees-lift (ok a) = Agrees-return r q a
  Agrees-lift (err e) = Agrees-throw r q e

  parse_addons-Agrees : (req : Request) → Agrees r q (parse_addons r req) (parse_addons q req)
  unfolding parse_addons
  parse_addons-Agrees req = Agrees-bind r q (Agrees-read_exact r q 1 _) (λ len.
      Agrees-if r q (byte len == 0) (Agrees-return r q req) (
        Agrees-bind r q (Agrees-read_exact r q (byte len) _)
          (λ payload. Agrees-lift (parse_fields (length payload) payload req))))

  read_address-Agrees : (req : Request) → Agrees r q (read_address r req) (read_address q req)
  unfolding read_address
  read_address-Agrees req = Agrees-bind r q (Agrees-read_exact r q 1 _) (λ kind.
      Agrees-if r q (byte kind == type_ipv4)
        (Agrees-bind r q (Agrees-read_exact r q 4 _) (λ ip. Agrees-return r q _))
        (Agrees-if r q (byte kind == type_domain)
          (Agrees-bind r q (Agrees-read_exact r q 1 _) (λ len.
            Agrees-bind r q (Agrees-read_exact r q (byte len) _) (λ name. Agrees-return r q _)))
          (Agrees-if r q (byte kind == type_ipv6)
            (Agrees-bind r q (Agrees-read_exact r q 16 _) (λ ip. Agrees-return r q _))
            (Agrees-throw r q _))))

  read_target-Agrees :
      (req : Request) (c : Command) → Agrees r q (read_target r req c) (read_target q req c)
  unfolding read_target
  read_target-Agrees req mux = Agrees-return r q _
  read_target-Agrees req rvs = Agrees-return r q _
  read_target-Agrees req (other b) = Agrees-throw r q _
  read_target-Agrees req tcp =
      Agrees-bind r q (Agrees-read_exact r q 2 _)
        (λ port. read_address-Agrees (record req { port = be16 port }))
  read_target-Agrees req udp =
      Agrees-bind r q (Agrees-read_exact r q 2 _)
        (λ port. read_address-Agrees (record req { port = be16 port }))

  decode-Agrees : (validator : Validator) → Agrees r q (decode r validator) (decode q validator)
  unfolding decode
  decode-Agrees validator = Agrees-bind r q (Agrees-read_exact r q 1 _) (λ version.
      Agrees-bind r q (Agrees-guard r q (byte version == 0) _) (λ _.
        Agrees-bind r q (Agrees-read_exact r q 16 _) (λ uuid.
          Agrees-bind r q (Agrees-guard r q (contains validator uuid) _) (λ _.
            Agrees-bind r q
              (parse_addons-Agrees (record default_request { version = byte version; uuid = uuid }))
              (λ req. Agrees-bind r q (Agrees-read_exact r q 1 _) (λ c.
                read_target-Agrees (record req { command = command_of_byte (byte c) })
                  (command_of_byte (byte c))))))))

  -- On two streams that hold the same bytes `decode` returns the same request and leaves the same
  -- bytes, or throws the same exception.
  pub decode-SameOutcome :
      (validator : Validator) (s : S) (t : T) (xs : Bytes)
      → r.Holds s xs
      → q.Holds t xs
      → SameOutcome r q (decode r validator s) (decode q validator t)
  decode-SameOutcome validator = run_agreed r q (decode-Agrees validator)
