-- ===== src/Server/EncryptedRelay/Delivered.antt =====
-- The texts of one side at the other (src/server, src/proxy/vless/encryption.cpp).
use cppvless.Common.{
  ◌≡◌, refl, ap, ◌∙◌, Bool, true, not, ◌||◌, inl, inr, Bool-cases, List, [], ◌∷◌, Bytes, none, some,
}
use cppvless.Vless.Encryption.{
  Openssl, EncryptionSession, has_cipher, encrypt, decrypt, encrypt_server, decrypt_client,
}
use cppvless.Vless.Encryption.RoundTrip.{
  IsOpenssl, Share, decrypt_client-encrypt, decrypt-encrypt_server,
}
use cppvless.Server.UdpRelay.{send}
use cppvless.Server.UdpRelay.Segments.{received_all, deliver}
use cppvless.Server.EncryptedRelay.{relay_encrypted, forward_encrypted, respond_encrypted}

module _ (ssl : Openssl) where
  -- `encrypt` makes the second texts of the first ones, one after the other.
  abbrev pub Encrypts : EncryptionSession → List Bytes → List Bytes → Type 0
  Encrypts s [] [] = Unit {0}
  Encrypts s (d ∷ ds) (c ∷ cs) = ((encrypt ssl s d).0 ≡ some c) × Encrypts (encrypt ssl s d).1 ds cs
  Encrypts s _ _ = ⊥

  -- `encryptServer` makes the second texts of the first ones.
  abbrev pub EncryptsServer : EncryptionSession → List Bytes → List Bytes → Type 0
  EncryptsServer s [] [] = Unit {0}
  EncryptsServer s (d ∷ ds) (c ∷ cs) =
      ((encrypt_server ssl s d).0 ≡ some c) × EncryptsServer (encrypt_server ssl s d).1 ds cs
  EncryptsServer s _ _ = ⊥

  -- `decrypt` opens the first texts to the second ones.
  abbrev pub Opens : EncryptionSession → List Bytes → List Bytes → Type 0
  Opens s [] [] = Unit {0}
  Opens s (c ∷ cs) (d ∷ ds) = (decrypt ssl s c ≡ some d) × Opens s cs ds
  Opens s _ _ = ⊥

  encrypt-Share :
      (a b : EncryptionSession) (d : Bytes) → Share ssl a b → Share ssl (encrypt ssl a d).1 b
  unfolding encrypt
  encrypt-Share a b d h = elim (Bool-cases (not a.ready || not (has_cipher a.method))) [
    | inl e ↦ simp e h
    | inr e ↦ simp e (record {
      same_method = h.same_method;
      same_client_key = h.same_client_key;
      same_server_key = h.same_server_key;
      ready_a = h.ready_a;
      ready_b = h.ready_b;
    })
  ]

  encrypt_server-Share :
      (a b : EncryptionSession) (d : Bytes) → Share ssl a b → Share ssl (encrypt_server ssl a d).1 b
  unfolding encrypt_server
  encrypt_server-Share a b d h = elim (Bool-cases (not a.ready || not (has_cipher a.method))) [
    | inl e ↦ simp e h
    | inr e ↦ simp e (record {
      same_method = h.same_method;
      same_client_key = h.same_client_key;
      same_server_key = h.same_server_key;
      ready_a = h.ready_a;
      ready_b = h.ready_b;
    })
  ]

  module _ {T : Type 0} (write : T → Bytes → Bool × T) (shutdown_write : T → T) where
    send_works :
        (t : T) (d : Bytes) (ds : List Bytes)
        → ((t : T) (d : Bytes) → (write t d).0 ≡ true)
        → ((send write t d).0 ≡ true)
          × (deliver write ds (send write t d).1 ≡ deliver write (d ∷ ds) t)
    send_works t [] ds works = (refl, refl)
    send_works t (b ∷ bs) ds works = (works t (b ∷ bs), refl)

    relay_encrypted-Encrypts :
        (ds cs : List Bytes) (a b : EncryptionSession) (t : T)
        → IsOpenssl ssl
        → Share ssl a b
        → ((t : T) (d : Bytes) → (write t d).0 ≡ true)
        → Encrypts a ds cs
        → relay_encrypted ssl write shutdown_write b (received_all cs) t
          ≡ (true, shutdown_write (deliver write ds t))
    unfolding relay_encrypted
    relay_encrypted-Encrypts [] [] a b t laws s works e = refl
    relay_encrypted-Encrypts [] (c ∷ cs) a b t laws s works e = absurd e
    relay_encrypted-Encrypts (d ∷ ds) [] a b t laws s works e = absurd e
    relay_encrypted-Encrypts (d ∷ ds) (c ∷ cs) a b t laws s works e =
        let (good, same) = send_works t d ds works in
        rw (decrypt_client-encrypt ssl laws a b d c s e.0) (
          rw good (
            relay_encrypted-Encrypts ds cs (encrypt ssl a d).1 b (send write t d).1 laws
              (encrypt-Share a b d s) works e.1
            ∙ ap (λ x. (true, shutdown_write x)) same))

    not_empty :
        (a b : EncryptionSession) (d : Bytes)
        → IsOpenssl ssl
        → Share ssl a b
        → (encrypt ssl a d).0 ≡ some []
        → ⊥
    unfolding decrypt_client
    not_empty a b d laws s e =
        let got : decrypt_client ssl b [] ≡ some d = decrypt_client-encrypt ssl laws a b d [] s e in
        elim (Bool-cases (not b.ready || not (has_cipher b.method))) [
          | inl h ↦ let g : none ≡ some d = (simp h at got) in cc
          | inr h ↦ let g : none ≡ some d = (simp h at got) in cc
        ]

    -- Under the promises of OpenSSL, if the sessions share their keys, all writes go well, and each
    -- of what is left of the handshake and of the reads after it is what `encrypt` of the client
    -- made of one text, the target gets exactly the texts in order, less the empty ones, then its
    -- write side is shut down, and the relay of the server ends normally.
    pub forward_encrypted-Encrypts :
        (d c : Bytes) (ds cs : List Bytes) (client server : EncryptionSession) (t : T)
        → IsOpenssl ssl
        → Share ssl client server
        → ((t : T) (d : Bytes) → (write t d).0 ≡ true)
        → Encrypts client (d ∷ ds) (c ∷ cs)
        → forward_encrypted ssl write shutdown_write server c (received_all cs) t
          ≡ (true, shutdown_write (deliver write (d ∷ ds) t))
    unfolding forward_encrypted
    forward_encrypted-Encrypts d [] ds cs a b t laws s works e = absurd (not_empty a b d laws s e.0)
    forward_encrypted-Encrypts d (x ∷ xs) ds cs a b t laws s works e =
        unfold relay_encrypted in
        relay_encrypted-Encrypts (d ∷ ds) ((x ∷ xs) ∷ cs) a b t laws s works e

    -- Every text is written.
    abbrev pub write_each : List Bytes → T → T
    write_each [] t = t
    write_each (c ∷ cs) t = write_each cs (write t c).1

    -- Under the promises of OpenSSL, if the sessions share their keys, all writes go well, and
    -- `encryptServer` succeeds on each read from the target, the client is written one text for each
    -- read, in order, then the write side is shut down, and `decrypt` of the client opens the texts to
    -- what was read.
    pub respond_encrypted-Opens :
        (ds cs : List Bytes) (server client : EncryptionSession) (t : T)
        → IsOpenssl ssl
        → Share ssl server client
        → ((t : T) (d : Bytes) → (write t d).0 ≡ true)
        → EncryptsServer server ds cs
        → (respond_encrypted ssl write shutdown_write server (received_all ds) t
            ≡ (true, shutdown_write (write_each cs t)))
          × Opens client cs ds
    unfolding respond_encrypted
    respond_encrypted-Opens [] [] a b t laws s works e = (refl, tt)
    respond_encrypted-Opens [] (c ∷ cs) a b t laws s works e = absurd e
    respond_encrypted-Opens (d ∷ ds) [] a b t laws s works e = absurd e
    respond_encrypted-Opens (d ∷ ds) (c ∷ cs) a b t laws s works e =
        let (rest, opened) =
          respond_encrypted-Opens ds cs (encrypt_server ssl a d).1 b (write t c).1 laws
            (encrypt_server-Share a b d s) works e.1 in
        (rw e.0 (rw (works t c) rest), (decrypt-encrypt_server ssl laws a b d c s e.0, opened))
