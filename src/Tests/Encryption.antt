-- ===== src/Tests/Encryption.antt =====
-- The encryption session of src/proxy/vless/encryption.cpp over a stand-in for OpenSSL.
use cppvless.Common.{
  ℕ, ◌+◌, ◌-◌, ◌≡◌, ◌≢◌, refl, sym, ap, ◌∙◌, arith, [], ◌∷◌, ◌++◌, Bytes, length, length-append,
  take, take-append, replicate, true, some, codes, Bool, List,
}
use cppvless.Vless.Encryption.{
  x25519_aes256gcm, Openssl, EncryptionSession, new_session, generate_key_pair, with_key_pair,
  compute_shared_secret, derive_keys, encrypt, encrypt_server, nonce_bytes, le_bytes,
}
use cppvless.Vless.Encryption.Nonce.{sent, sent-fresh}
use cppvless.Vless.Encryption.RoundTrip.{IsOpenssl, Share}
use cppvless.Server.UdpRelay.Segments.{received_all}
use cppvless.Server.EncryptedRelay.{forward_encrypted, respond_encrypted}
use cppvless.Server.EncryptedRelay.Delivered.{
  Encrypts, EncryptsServer, Opens, forward_encrypted-Encrypts, respond_encrypted-Opens,
}
use cppvless.Coro.AsyncStream.{SendResult, sent as sent_bytes, write_full, write_loop}
use cppvless.Vless.Decoder.{encode_response}
use cppvless.Server.Connect.{sends_key, send_response_and_key}
use cppvless.Server.Connect.Responded.{send_response_and_key-Share}

abbrev total : Bytes → ℕ
total [] = 0
total (b ∷ bs) = b + total bs

abbrev tag : Bytes
tag = replicate 16 0

-- The sum stands for the product of Diffie and Hellman, and a tag is sixteen zeros.
abbrev toy : Openssl
toy = record {
  public_key = λ b. b;
  x25519 = λ a b. some ((total a + total b) ∷ []);
  sha256 = λ text. some text;
  seal = λ m key nonce plain. some (plain ++ tag);
  unseal = λ m key nonce c. some (take (length c - 16) c);
}

sealed : (plain : Bytes) {c : Bytes} → some (plain ++ tag) ≡ some c → plain ++ tag ≡ c
sealed plain e = cc

sizes : (plain : Bytes) {c : Bytes} → some (plain ++ tag) ≡ some c → length c ≡ length plain + 16
sizes plain e = ap length (sym (sealed plain e)) ∙ length-append plain tag

opens :
    (plain : Bytes) {c : Bytes}
    → some (plain ++ tag) ≡ some c
    → some (take (length c - 16) c) ≡ some plain
opens plain {c} e =
    let n : length plain ≡ length c - 16 = omega (arith, sizes plain e) in
    ap (λ k. some (take k c)) (sym n)
    ∙ ap (λ d. some (take (length plain) d)) (sym (sealed plain e))
    ∙ ap some (take-append (length plain) plain tag refl)

laws : IsOpenssl toy
laws = record {
  length-seal = λ m key nonce plain e. sizes plain e;
  unseal-seal = λ m key nonce plain e. opens plain e;
  agree = λ a b. ap (λ k. some (k ∷ [])) (omega arith);
}

abbrev session : Bytes → EncryptionSession
session secret = record {
  method = x25519_aes256gcm;
  ready = true;
  private_key = secret;
  public_key = secret;
  client_key = codes "VLESS Encryption: client key" ++ (3 ∷ []);
  server_key = codes "VLESS Encryption: server key" ++ (3 ∷ []);
  client_nonce = 0;
  server_nonce = 0;
}

derived :
    (compute_shared_secret toy (with_key_pair toy (1 ∷ []) (new_session x25519_aes256gcm)) (2 ∷ [])
      ≡ some (session (1 ∷ [])))
    × (compute_shared_secret toy
          (with_key_pair toy (2 ∷ []) (new_session x25519_aes256gcm))
          (1 ∷ [])
        ≡ some (session (2 ∷ [])))
unfolding compute_shared_secret derive_keys
derived = (refl, refl)

abbrev plain : Bytes
plain = 104 ∷ 105 ∷ []

abbrev cipher : Bytes
cipher = replicate 12 0 ++ (104 ∷ 105 ∷ tag)

shares : (a b : Bytes) → Share toy (session a) (session b)
shares a b = record {
  same_method = refl;
  same_client_key = refl;
  same_server_key = refl;
  ready_a = refl;
  ready_b = refl;
}

sent-fresh_example :
    nonce_bytes (sent toy (session (1 ∷ [])) (plain ∷ plain ∷ [])).client_nonce
    ≢ nonce_bytes (session (1 ∷ [])).client_nonce
sent-fresh_example =
    sent-fresh toy plain (plain ∷ []) (session (1 ∷ [])) (refl, refl) (omega arith) (omega arith)

-- A peer that keeps what is written.
abbrev write : List Bytes → Bytes → Bool × List Bytes
write t d = (true, t ++ (d ∷ []))

-- The second text of a session has 1 in its nonce.
abbrev second : Bytes
second = 1 ∷ (replicate 11 0 ++ (7 ∷ tag))

second-Encrypts :
    Encrypts toy (session (1 ∷ [])) (plain ∷ (7 ∷ []) ∷ []) (cipher ∷ second ∷ [])
    × EncryptsServer toy (session (2 ∷ [])) (plain ∷ (7 ∷ []) ∷ []) (cipher ∷ second ∷ [])
unfolding encrypt encrypt_server nonce_bytes le_bytes
second-Encrypts = ((refl, (refl, tt)), (refl, (refl, tt)))

-- A target that keeps the end of its texts as an empty one.
abbrev shut : List Bytes → List Bytes
shut texts = texts ++ ([] ∷ [])

forward_encrypted-Encrypts_example :
    forward_encrypted toy write shut (session (2 ∷ [])) cipher (received_all (second ∷ [])) []
    ≡ (true, shut (plain ∷ (7 ∷ []) ∷ []))
forward_encrypted-Encrypts_example =
    forward_encrypted-Encrypts toy write shut plain cipher ((7 ∷ []) ∷ []) (second ∷ [])
      (session (1 ∷ [])) (session (2 ∷ [])) [] laws (shares (1 ∷ []) (2 ∷ [])) (λ t d. refl)
      second-Encrypts.0

respond_encrypted-Opens_example :
    (respond_encrypted toy write shut (session (2 ∷ [])) (received_all (plain ∷ (7 ∷ []) ∷ [])) []
      ≡ (true, shut (cipher ∷ second ∷ [])))
    × Opens toy (session (1 ∷ [])) (cipher ∷ second ∷ []) (plain ∷ (7 ∷ []) ∷ [])
respond_encrypted-Opens_example =
    respond_encrypted-Opens toy write shut (plain ∷ (7 ∷ []) ∷ []) (cipher ∷ second ∷ [])
      (session (2 ∷ [])) (session (1 ∷ [])) [] laws (shares (2 ∷ []) (1 ∷ [])) (λ t d. refl)
      second-Encrypts.1

abbrev sends : List SendResult
sends = sent_bytes 2 ∷ sent_bytes 1 ∷ sent_bytes 9 ∷ []

responds :
    (send_response_and_key toy sends 0
      (some (with_key_pair toy (2 ∷ []) (new_session x25519_aes256gcm), 1 ∷ []))).success
    ≡ true
unfolding send_response_and_key sends_key write_full write_loop compute_shared_secret derive_keys
    encode_response
responds = refl

send_response_and_key-Share_example :
    let r =
      send_response_and_key toy sends 0
        (some (with_key_pair toy (2 ∷ []) (new_session x25519_aes256gcm), 1 ∷ [])) in
    (r.taken ≡ encode_response 0 ++ (2 ∷ []))
    × (server : EncryptionSession) × (r.session ≡ some server)
    × Share toy (session (1 ∷ [])) server
unfolding generate_key_pair
send_response_and_key-Share_example =
    send_response_and_key-Share toy laws x25519_aes256gcm (1 ∷ []) (2 ∷ []) 0 sends
      (with_key_pair toy (1 ∷ []) (new_session x25519_aes256gcm))
      (with_key_pair toy (2 ∷ []) (new_session x25519_aes256gcm)) (session (1 ∷ [])) refl refl
      (tt, (tt, (tt, tt))) (omega arith) (omega arith) derived.0 responds
