-- ===== src/Vless/Encryption/Nonce.antt =====
-- The nonces of a session (src/proxy/vless/encryption.cpp).
use cppvless.Common.{
  ℕ, zero, suc, ◌+◌, ◌*◌, ◌/◌, ◌%◌, ◌<◌, ◌≡◌, ◌≢◌, List, refl, sym, ap, ◌∙◌, true, [], ◌∷◌, arith,
  Bytes, length, take, take-append, replicate,
}
use cppvless.Vless.Encryption.{
  Openssl, EncryptionSession, le_bytes, nonce_bytes, next_nonce, encrypt, has_cipher,
}

abbrev power : ℕ → ℕ
power zero = 1
power (suc k) = 256 * power k

length-le_bytes : (k n : ℕ) → length (le_bytes k n) ≡ k
unfolding le_bytes
length-le_bytes zero n = refl
length-le_bytes (suc k) n = ap suc (length-le_bytes k (n / 256))

le_bytes-injective : (k n m : ℕ) → n < power k → m < power k → le_bytes k n ≡ le_bytes k m → n ≡ m
unfolding le_bytes
le_bytes-injective zero n m hn hm e = omega arith
le_bytes-injective (suc k) n m hn hm e =
    let low : n % 256 ≡ m % 256 = cc in
    let high : le_bytes k (n / 256) ≡ le_bytes k (m / 256) = cc in
    omega (
      arith,
      low,
      le_bytes-injective k (n / 256) (m / 256) (omega (arith, hn)) (omega (arith, hm)) high,
    )

pub length-nonce_bytes : (n : ℕ) → length (nonce_bytes n) ≡ 12
unfolding nonce_bytes
length-nonce_bytes n = refl

-- Two values of the 64-bit counter have different nonces.
pub nonce_bytes-injective :
    (n m : ℕ)
    → n < 18446744073709551616
    → m < 18446744073709551616
    → nonce_bytes n ≡ nonce_bytes m
    → n ≡ m
unfolding nonce_bytes
nonce_bytes-injective n m hn hm e =
    le_bytes-injective 8 n m (omega (arith, hn)) (omega (arith, hm)) (
      sym (take-append 8 (le_bytes 8 n) (replicate 4 0) (length-le_bytes 8 n))
      ∙ ap (take 8) e
      ∙ take-append 8 (le_bytes 8 m) (replicate 4 0) (length-le_bytes 8 m))

module _ (ssl : Openssl) where
  -- The session after these texts have been encrypted.
  unfoldable pub sent : EncryptionSession → List Bytes → EncryptionSession
  sent s [] = s
  sent s (p ∷ ps) = sent (encrypt ssl s p).1 ps

  abbrev pub CanEncrypt : EncryptionSession → Type 0
  CanEncrypt s = (s.ready ≡ true) × (has_cipher s.method ≡ true)

  encrypt_next :
      (s : EncryptionSession) (p : Bytes)
      → CanEncrypt s
      → (encrypt ssl s p).1 ≡ record s { client_nonce = next_nonce s.client_nonce }
  unfolding encrypt
  encrypt_next s p h = simp (h.0, h.1) refl

  sent-client_nonce :
      (ps : List Bytes) (s : EncryptionSession)
      → CanEncrypt s
      → s.client_nonce < 18446744073709551616
      → (sent s ps).client_nonce ≡ (s.client_nonce + length ps) % 18446744073709551616
  unfolding sent
  sent-client_nonce [] s h less = omega (arith, less)
  sent-client_nonce (p ∷ ps) s h less =
      ap (λ q. (sent q ps).client_nonce) (encrypt_next s p h)
      ∙ sent-client_nonce ps (record s { client_nonce = next_nonce s.client_nonce }) h (omega arith)
      ∙ omega (arith, less)

  -- A ready session whose counter is in range has, after any number of texts from 1 to 2 ^ 64 - 1, a
  -- nonce other than the one before them.
  pub sent-fresh :
      (p : Bytes) (ps : List Bytes) (s : EncryptionSession)
      → CanEncrypt s
      → s.client_nonce < 18446744073709551616
      → length (p ∷ ps) < 18446744073709551616
      → nonce_bytes (sent s (p ∷ ps)).client_nonce ≢ nonce_bytes s.client_nonce
  sent-fresh p ps s h less few e =
      let after = sent-client_nonce (p ∷ ps) s h less in
      let same =
        nonce_bytes-injective (sent s (p ∷ ps)).client_nonce s.client_nonce (omega (arith, after))
          less e in
      omega (arith, after, same, less, few)
