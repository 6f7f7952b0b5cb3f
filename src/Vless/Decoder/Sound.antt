-- ===== src/Vless/Decoder/Sound.antt =====
-- What the decoder guarantees of the requests that it lets through.
use cppvless.Common.{
  ℕ, zero, suc, ◌≡◌, refl, ◌∙◌, true, [], ◌∷◌, arith, Bytes, length, ◌==◌, ==_iff, bind-eq-ok,
  Result, ok, err,
}
use cppvless.Coro.ByteReader.{ByteReader}
use cppvless.Coro.Ensures.{
  Ensures, ensured, run_ensured, Ensures-bind, Ensures-return, Ensures-throw, Ensures-weaken,
  Ensures-guarded, Ensures-if, Ensures-read_exact,
}
use cppvless.Vless.Protocol.{
  Command, tcp, udp, mux, rvs, other, command_of_byte, Request, IsAddress, type_ipv4, type_domain,
  type_ipv6, default_request,
}
use cppvless.Vless.Validator.{Validator, contains}
use cppvless.Vless.Decoder.{
  DecodeError, next_field, parse_fields, parse_addons, read_address, read_target, decode, lift,
  byte, be16,
}

abbrev pub IsKnown : Command → Type 0
IsKnown (other b) = ⊥
IsKnown _ = Unit

-- A user of the validator's list, the only version, a command of the protocol, and an address of
-- the size that its type wants.
pub record Accepted (validator : Validator) (req : Request) : Type 0 where
  pub known : contains validator req.uuid ≡ true
  pub version_zero : req.version ≡ 0
  pub command_known : IsKnown req.command
  pub address_sized : IsAddress req.address

-- The addons touch neither the user nor the version.
abbrev SameUser : Request → Request → Type 0
SameUser a b = (a.uuid ≡ b.uuid) × (a.version ≡ b.version)

next_field-SameUser :
    (bytes : Bytes) (req : Request) {rest : Bytes} {req' : Request}
    → next_field bytes req ≡ ok (rest, req')
    → SameUser req' req
unfolding next_field
next_field-SameUser bytes req e = ground arith

parse_fields-SameUser :
    (fuel : ℕ) (bytes : Bytes) (req : Request) {req' : Request}
    → parse_fields fuel bytes req ≡ ok req'
    → SameUser req' req
unfolding parse_fields
parse_fields-SameUser fuel [] req e = ground arith
parse_fields-SameUser zero (b ∷ bs) req e = cc
parse_fields-SameUser (suc fuel) (b ∷ bs) req e =
    let (p, n, later) = bind-eq-ok (next_field (b ∷ bs) req) (λ p. parse_fields fuel p.0 p.1) e in
    let (u, v) = next_field-SameUser (b ∷ bs) req n in
    let (u', v') = parse_fields-SameUser fuel p.0 p.1 later in (u' ∙ u, v' ∙ v)

module _ {S : Type 0} (r : ByteReader S) where
  lift-SameUser :
      (fuel : ℕ) (bytes : Bytes) (req : Request)
      → Ensures {S = S} (λ q. SameUser q req) (lift (parse_fields fuel bytes req))
  lift-SameUser fuel bytes req = ensured (λ s q s' h.
      lifted (parse_fields fuel bytes req) s s' h (λ e. parse_fields-SameUser fuel bytes req e))
    where
      lifted :
          (x : Result DecodeError Request) (s s' : S) {q : Request}
          → lift x s ≡ ok (q, s')
          → (x ≡ ok q → SameUser q req)
          → SameUser q req
      lifted (ok a) s s' h k = k (cc)
      lifted (err e) s s' h k = cc

  parse_addons-SameUser : (req : Request) → Ensures (λ q. SameUser q req) (parse_addons r req)
  unfolding parse_addons
  parse_addons-SameUser req = Ensures-bind _ (Ensures-read_exact r 1 _) (λ len _.
      Ensures-if (byte len == 0) (Ensures-return req (refl, refl)) (
        Ensures-bind _ (Ensures-read_exact r (byte len) _)
          (λ payload _. lift-SameUser (length payload) payload req)))

  -- The address is of the right size; nothing else changes.
  abbrev Located : Request → Request → Type 0
  Located req q = SameUser q req × (q.command ≡ req.command) × IsAddress q.address

  read_address-Located : (req : Request) → Ensures (Located req) (read_address r req)
  unfolding read_address
  read_address-Located req = Ensures-bind _ (Ensures-read_exact r 1 _) (λ kind _.
      Ensures-if (byte kind == type_ipv4)
        (Ensures-bind _ (Ensures-read_exact r 4 _)
          (λ ip h. Ensures-return _ ((refl, refl), refl, h)))
        (Ensures-if (byte kind == type_domain)
          (Ensures-bind _ (Ensures-read_exact r 1 _) (λ len _.
            Ensures-bind _ (Ensures-read_exact r (byte len) _)
              (λ name _. Ensures-return _ ((refl, refl), refl, tt))))
          (Ensures-if (byte kind == type_ipv6)
            (Ensures-bind _ (Ensures-read_exact r 16 _)
              (λ ip h. Ensures-return _ ((refl, refl), refl, h)))
            (Ensures-throw _))))

  located :
      (validator : Validator) (req : Request) (port : Bytes)
      → contains validator req.uuid ≡ true
      → req.version ≡ 0
      → IsKnown req.command
      → Ensures (Accepted validator) (read_address r (record req { port = be16 port }))
  located validator req port k v c =
      Ensures-weaken (Located (record req { port = be16 port })) (read_address-Located _) (λ q l.
        record {
          known = rw (l.0.0) k;
          version_zero = l.0.1 ∙ v;
          command_known = rw (l.1) c;
          address_sized = l.2;
        })

  read_target-Accepted :
      (validator : Validator) (req : Request) (c : Command)
      → contains validator req.uuid ≡ true
      → req.version ≡ 0
      → req.command ≡ c
      → Ensures (Accepted validator) (read_target r req c)
  unfolding read_target
  read_target-Accepted validator req mux k v e =
      Ensures-return _
        (record { known = k; version_zero = v; command_known = rw e tt; address_sized = tt })
  read_target-Accepted validator req rvs k v e =
      Ensures-return _
        (record { known = k; version_zero = v; command_known = rw e tt; address_sized = tt })
  read_target-Accepted validator req (other b) k v e = Ensures-throw _
  read_target-Accepted validator req tcp k v e =
      Ensures-bind _ (Ensures-read_exact r 2 _) (λ port _. located validator req port k v (rw e tt))
  read_target-Accepted validator req udp k v e =
      Ensures-bind _ (Ensures-read_exact r 2 _) (λ port _. located validator req port k v (rw e tt))

  -- A request that `decode` returns belongs to a known user, has version 0 and a command of the
  -- protocol, and an address of the size that its type wants, whatever bytes were received.
  pub decode-Accepted :
      (validator : Validator) (s : S) {req : Request} {s' : S}
      → decode r validator s ≡ ok (req, s')
      → Accepted validator req
  unfolding decode
  decode-Accepted validator s = run_ensured all s _ _
    where
      all : Ensures (Accepted validator) (decode r validator)
      all = Ensures-bind _ (Ensures-read_exact r 1 _) (λ version _.
          Ensures-guarded _ _ (λ zero_version. Ensures-bind _ (Ensures-read_exact r 16 _) (λ uuid _.
            Ensures-guarded _ _ (λ known.
              Ensures-bind _
                (parse_addons-SameUser
                  (record default_request { version = byte version; uuid = uuid }))
                (λ req same. Ensures-bind _ (Ensures-read_exact r 1 _) (λ c _.
                  read_target-Accepted validator (record req { command = command_of_byte (byte c) })
                    (command_of_byte (byte c)) (rw (same.0) known)
                    (same.1 ∙ (==_iff _ _).0 zero_version) refl))))))
