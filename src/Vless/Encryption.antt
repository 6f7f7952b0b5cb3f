-- ===== src/Vless/Encryption.antt =====
-- src/proxy/vless/encryption.cpp: the session of the VLESS encryption. OpenSSL is an argument. Where
-- `process` has a negative result, `seal` and `unseal` give nothing.
pub mod RoundTrip
pub mod Nonce
use cppvless.Common.{
  ℕ, zero, suc, ◌+◌, ◌-◌, ◌*◌, ◌/◌, ◌%◌, Bool, true, false, not, ◌||◌, [], ◌∷◌, ◌++◌, Bytes, length,
  take, drop, replicate, ltb, if◌then◌else◌, Option, none, some, codes,
}

pub data EncryptionMethod : Type 0 where
  no_encryption x25519_aes256gcm x25519_chacha20 : EncryptionMethod

-- X25519, SHA-256, and the AEAD of each method: key, nonce, text.
pub record Openssl : Type 0 where
  pub public_key : Bytes → Bytes
  pub x25519 : Bytes → Bytes → Option Bytes
  pub sha256 : Bytes → Option Bytes
  pub seal : EncryptionMethod → Bytes → Bytes → Bytes → Option Bytes
  pub unseal : EncryptionMethod → Bytes → Bytes → Bytes → Option Bytes

-- The ciphers of the session are the AEAD of the method under one of the two keys.
pub record EncryptionSession : Type 0 where
  pub method : EncryptionMethod
  pub ready : Bool
  pub private_key : Bytes
  pub public_key : Bytes
  pub client_key : Bytes
  pub server_key : Bytes
  pub client_nonce : ℕ
  pub server_nonce : ℕ

abbrev pub new_session : EncryptionMethod → EncryptionSession
new_session m = record {
  method = m;
  ready = false;
  private_key = replicate 32 0;
  public_key = replicate 32 0;
  client_key = replicate 32 0;
  server_key = replicate 32 0;
  client_nonce = 0;
  server_nonce = 0;
}

-- `AeadCipher::create` gives no cipher for other methods.
abbrev pub has_cipher : EncryptionMethod → Bool
has_cipher no_encryption = false
has_cipher x25519_aes256gcm = true
has_cipher x25519_chacha20 = true

-- The low bytes of a number, the lowest first.
unfoldable pub le_bytes : ℕ → ℕ → Bytes
le_bytes zero n = []
le_bytes (suc k) n = n % 256 ∷ le_bytes k (n / 256)

-- What `incrementNonce` stores, and its increment of a `uint64_t`.
unfoldable pub nonce_bytes : ℕ → Bytes
unfolding le_bytes
nonce_bytes n = le_bytes 8 n ++ replicate 4 0

abbrev pub next_nonce : ℕ → ℕ
next_nonce n = (n + 1) % 18446744073709551616

module _ (ssl : Openssl) where
  abbrev pub with_key_pair : Bytes → EncryptionSession → EncryptionSession
  with_key_pair secret s = record s { private_key = secret; public_key = ssl.public_key secret }

  -- The random private key is an argument, which is nothing where OpenSSL fails. This throws.
  unfoldable pub generate_key_pair : Option Bytes → EncryptionSession → Option EncryptionSession
  generate_key_pair none s = none
  generate_key_pair (some secret) s = some (with_key_pair secret s)

  abbrev pub client_label : Bytes
  client_label = codes "VLESS Encryption: client key"

  abbrev pub server_label : Bytes
  server_label = codes "VLESS Encryption: server key"

  abbrev pub keys_set : EncryptionSession → Option Bytes → Option Bytes → Option EncryptionSession
  keys_set s (some c) (some t) = some (record s { client_key = c; server_key = t; ready = true })
  keys_set s (some c) none = none
  keys_set s none t = none

  -- `deriveKeys`, which throws where this gives nothing.
  unfoldable pub derive_keys : EncryptionSession → Bytes → Option EncryptionSession
  derive_keys s shared =
      keys_set s (ssl.sha256 (client_label ++ shared)) (ssl.sha256 (server_label ++ shared))

  abbrev pub shared_derived : EncryptionSession → Option Bytes → Option EncryptionSession
  shared_derived s none = none
  shared_derived s (some shared) = derive_keys s shared

  -- `computeSharedSecret`: nothing where it returns false or throws.
  unfoldable pub compute_shared_secret : EncryptionSession → Bytes → Option EncryptionSession
  unfolding derive_keys
  compute_shared_secret s peer = shared_derived s (ssl.x25519 s.private_key peer)

  -- The nonce goes in front of what the AEAD gives.
  abbrev pub with_nonce : Bytes → Option Bytes → Option Bytes
  with_nonce nonce none = none
  with_nonce nonce (some c) = some (nonce ++ c)

  -- `encrypt`, with nothing for a result of 0. The nonce is used up also where the AEAD fails.
  unfoldable pub encrypt : EncryptionSession → Bytes → Option Bytes × EncryptionSession
  unfolding nonce_bytes
  encrypt s plain =
      let nonce = nonce_bytes s.client_nonce in
      if not s.ready || not (has_cipher s.method) then (none, s) else (
        with_nonce nonce (ssl.seal s.method s.client_key nonce plain),
        record s { client_nonce = next_nonce s.client_nonce },
      )

  -- The AEAD on a text with its nonce in front, for `decrypt` and `decryptClient`.
  abbrev pub opened : EncryptionSession → Bytes → Bytes → Option Bytes
  opened s key cipher =
      if not s.ready || not (has_cipher s.method)
      then none
      else if ltb (length cipher) 28
      then none
      else ssl.unseal s.method key (take 12 cipher) (drop 12 cipher)

  unfoldable pub decrypt : EncryptionSession → Bytes → Option Bytes
  decrypt s cipher = opened s s.server_key cipher

  unfoldable pub decrypt_client : EncryptionSession → Bytes → Option Bytes
  decrypt_client s cipher = opened s s.client_key cipher

  unfoldable pub encrypt_server : EncryptionSession → Bytes → Option Bytes × EncryptionSession
  unfolding nonce_bytes
  encrypt_server s plain =
      let nonce = nonce_bytes s.server_nonce in
      if not s.ready || not (has_cipher s.method) then (none, s) else (
        with_nonce nonce (ssl.seal s.method s.server_key nonce plain),
        record s { server_nonce = next_nonce s.server_nonce },
      )
