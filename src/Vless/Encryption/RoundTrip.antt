-- ===== src/Vless/Encryption/RoundTrip.antt =====
-- Two sessions that have exchanged their public keys (src/proxy/vless/encryption.cpp).
use cppvless.Common.{
  ℕ, ◌+◌, ◌≤◌, ◌≡◌, refl, sym, ap, ◌∙◌, true, inl, inr, ◌++◌, arith, Bytes, length, length-append,
  take-append, drop-append, le→ltb_false, Bool-cases, Option, none, some,
}
use cppvless.Vless.Encryption.{
  EncryptionMethod, Openssl, EncryptionSession, new_session, has_cipher, nonce_bytes,
  generate_key_pair, with_key_pair, derive_keys, shared_derived, keys_set, client_label,
  server_label, compute_shared_secret, encrypt, decrypt, decrypt_client, encrypt_server, opened,
  with_nonce,
}
use cppvless.Vless.Encryption.Nonce.{length-nonce_bytes}

module _ (ssl : Openssl) where
  -- What the documents of OpenSSL promise: a tag of 16 bytes, authenticated decryption, and the
  -- agreement of Diffie and Hellman.
  pub record IsOpenssl : Type 0 where
    pub length-seal :
        (m : EncryptionMethod) (key nonce plain : Bytes) {c : Bytes}
        → ssl.seal m key nonce plain ≡ some c
        → length c ≡ length plain + 16
    pub unseal-seal :
        (m : EncryptionMethod) (key nonce plain : Bytes) {c : Bytes}
        → ssl.seal m key nonce plain ≡ some c
        → ssl.unseal m key nonce c ≡ some plain
    pub agree : (a b : Bytes) → ssl.x25519 a (ssl.public_key b) ≡ ssl.x25519 b (ssl.public_key a)

  -- A text under a nonce is opened under the same key.
  opened-seal :
      (laws : IsOpenssl) (s : EncryptionSession) (key plain out : Bytes) (n : ℕ)
      → s.ready ≡ true
      → has_cipher s.method ≡ true
      → with_nonce ssl (nonce_bytes n) (ssl.seal s.method key (nonce_bytes n) plain) ≡ some out
      → opened ssl s key out ≡ some plain
  opened-seal laws s key plain out n r c e = sealed _ refl e
    where
      sealed :
          (x : Option Bytes)
          → ssl.seal s.method key (nonce_bytes n) plain ≡ x
          → with_nonce ssl (nonce_bytes n) x ≡ some out
          → opened ssl s key out ≡ some plain
      sealed none h e = cc
      sealed (some text) h e =
          let whole : nonce_bytes n ++ text ≡ out = cc in
          let size = length-nonce_bytes n in
          let long : 28 ≤ length (nonce_bytes n ++ text) = omega (
            arith,
            length-append (nonce_bytes n) text,
            size,
            laws.length-seal s.method key (nonce_bytes n) plain h,
          ) in
          ap (opened ssl s key) (sym whole)
          ∙ simp
              (
                r,
                c,
                le→ltb_false _ _ long,
                take-append 12 (nonce_bytes n) text size,
                drop-append 12 (nonce_bytes n) text size,
              )
              (laws.unseal-seal s.method key (nonce_bytes n) plain h)

  -- Both have the same method and the same two keys.
  pub record Share (a b : EncryptionSession) : Type 0 where
    pub same_method : a.method ≡ b.method
    pub same_client_key : a.client_key ≡ b.client_key
    pub same_server_key : a.server_key ≡ b.server_key
    pub ready_a : a.ready ≡ true
    pub ready_b : b.ready ≡ true

  encrypt_ready :
      (s : EncryptionSession) (plain : Bytes) {out : Bytes}
      → s.ready ≡ true
      → (encrypt ssl s plain).0 ≡ some out
      → (has_cipher s.method ≡ true)
        × (with_nonce ssl
              (nonce_bytes s.client_nonce)
              (ssl.seal s.method s.client_key (nonce_bytes s.client_nonce) plain)
            ≡ some out)
  unfolding encrypt
  encrypt_ready s plain {out} r e = elim (Bool-cases (has_cipher s.method)) [
    | inl c ↦ (c, (simp (r, c) at e))
    | inr c ↦ absurd (let e' : none ≡ some out = (simp (r, c) at e) in cc)
  ]

  encrypt_server_ready :
      (s : EncryptionSession) (plain : Bytes) {out : Bytes}
      → s.ready ≡ true
      → (encrypt_server ssl s plain).0 ≡ some out
      → (has_cipher s.method ≡ true)
        × (with_nonce ssl
              (nonce_bytes s.server_nonce)
              (ssl.seal s.method s.server_key (nonce_bytes s.server_nonce) plain)
            ≡ some out)
  unfolding encrypt_server
  encrypt_server_ready s plain {out} r e = elim (Bool-cases (has_cipher s.method)) [
    | inl c ↦ (c, (simp (r, c) at e))
    | inr c ↦ absurd (let e' : none ≡ some out = (simp (r, c) at e) in cc)
  ]

  same_opened :
      (a b : EncryptionSession) (key key' out : Bytes)
      → Share a b
      → key ≡ key'
      → opened ssl b key' out ≡ opened ssl a key out
  same_opened a b key key' out s e = rw (← s.same_method, e, s.ready_a, s.ready_b) refl

  -- Under the promises of OpenSSL, if two sessions share their keys, `decryptClient` of the one opens
  -- every text that `encrypt` of the other gave, whatever their counters are.
  pub decrypt_client-encrypt :
      (laws : IsOpenssl) (client server : EncryptionSession) (plain out : Bytes)
      → Share client server
      → (encrypt ssl client plain).0 ≡ some out
      → decrypt_client ssl server out ≡ some plain
  unfolding decrypt_client
  decrypt_client-encrypt laws a b plain out s e =
      let (c, sealed) = encrypt_ready a plain s.ready_a e in
      same_opened a b a.client_key b.client_key out s s.same_client_key
      ∙ opened-seal laws a a.client_key plain out a.client_nonce s.ready_a c sealed

  -- Under the promises of OpenSSL, if two sessions share their keys, `decrypt` of the one opens every
  -- text that `encryptServer` of the other gave.
  pub decrypt-encrypt_server :
      (laws : IsOpenssl) (server client : EncryptionSession) (plain out : Bytes)
      → Share server client
      → (encrypt_server ssl server plain).0 ≡ some out
      → decrypt ssl client out ≡ some plain
  unfolding decrypt
  decrypt-encrypt_server laws a b plain out s e =
      let (c, sealed) = encrypt_server_ready a plain s.ready_a e in
      same_opened a b a.server_key b.server_key out s s.same_server_key
      ∙ opened-seal laws a a.server_key plain out a.server_nonce s.ready_a c sealed

  -- A session that has derived its keys.
  abbrev Derived : EncryptionSession → Bytes → EncryptionSession → Type 0
  Derived s shared t =
      (ssl.sha256 (client_label ssl ++ shared) ≡ some t.client_key)
      × (ssl.sha256 (server_label ssl ++ shared) ≡ some t.server_key)
      × (t.method ≡ s.method)
      × (t.ready ≡ true)

  derive_keys-Derived :
      (s t : EncryptionSession) (shared : Bytes)
      → derive_keys ssl s shared ≡ some t
      → Derived s shared t
  unfolding derive_keys
  derive_keys-Derived s t shared e = keys _ _ refl refl e
    where
      keys :
          (x y : Option Bytes)
          → ssl.sha256 (client_label ssl ++ shared) ≡ x
          → ssl.sha256 (server_label ssl ++ shared) ≡ y
          → keys_set ssl s x y ≡ some t
          → Derived s shared t
      keys none y p q e = cc
      keys (some x) none p q e = cc
      keys (some x) (some y) p q e =
          let is : record s { client_key = x; server_key = y; ready = true } ≡ t = cc in
          (
            p ∙ ap (λ r. some r.client_key) is,
            q ∙ ap (λ r. some r.server_key) is,
            sym (ap (λ r. r.method) is),
            sym (ap (λ r. r.ready) is),
          )

  compute_shared_secret-Share :
      (laws : IsOpenssl) (m : EncryptionMethod) (secret_a secret_b : Bytes)
      (a b : EncryptionSession)
      → compute_shared_secret ssl
          (with_key_pair ssl secret_a (new_session m))
          (ssl.public_key secret_b)
        ≡ some a
      → compute_shared_secret ssl
          (with_key_pair ssl secret_b (new_session m))
          (ssl.public_key secret_a)
        ≡ some b
      → Share a b
  unfolding compute_shared_secret
  compute_shared_secret-Share laws m secret_a secret_b a b ea eb = agreed _ refl ea (
      ap (shared_derived ssl (with_key_pair ssl secret_b (new_session m)))
        (laws.agree secret_a secret_b)
      ∙ eb)
    where
      agreed :
          (x : Option Bytes)
          → ssl.x25519 secret_a (ssl.public_key secret_b) ≡ x
          → shared_derived ssl (with_key_pair ssl secret_a (new_session m)) x ≡ some a
          → shared_derived ssl (with_key_pair ssl secret_b (new_session m)) x ≡ some b
          → Share a b
      agreed none p ea eb = cc
      agreed (some shared) p ea eb =
          let (ca, sa, ma, ra) =
            derive_keys-Derived (with_key_pair ssl secret_a (new_session m)) a shared ea in
          let (cb, sb, mb, rb) =
            derive_keys-Derived (with_key_pair ssl secret_b (new_session m)) b shared eb in
          record {
            same_method = ma ∙ sym mb;
            same_client_key = cc;
            same_server_key = cc;
            ready_a = ra;
            ready_b = rb;
          }

  -- Under the promises of OpenSSL, two new sessions of one method that have generated their keys and
  -- have computed their secret from each other's public key share method and keys, and are ready.
  pub generate_key_pair-Share :
      (laws : IsOpenssl) (m : EncryptionMethod) (secret_a secret_b : Bytes)
      (x y a b : EncryptionSession)
      → generate_key_pair ssl (some secret_a) (new_session m) ≡ some x
      → generate_key_pair ssl (some secret_b) (new_session m) ≡ some y
      → compute_shared_secret ssl x y.public_key ≡ some a
      → compute_shared_secret ssl y x.public_key ≡ some b
      → Share a b
  unfolding generate_key_pair
  generate_key_pair-Share laws m secret_a secret_b x y a b gx gy ea eb =
      let x' = with_key_pair ssl secret_a (new_session m) in
      let y' = with_key_pair ssl secret_b (new_session m) in
      let px : x' ≡ x = cc in
      let py : y' ≡ y = cc in
      compute_shared_secret-Share laws m secret_a secret_b a b
        (ap (λ k. compute_shared_secret ssl k y'.public_key) px
          ∙ ap (λ k. compute_shared_secret ssl x k.public_key) py
          ∙ ea)
        (ap (λ k. compute_shared_secret ssl k x'.public_key) py
          ∙ ap (λ k. compute_shared_secret ssl y k.public_key) px
          ∙ eb)
