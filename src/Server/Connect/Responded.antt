-- ===== src/Server/Connect/Responded.antt =====
-- The response and the key for the client (src/server/vless_connection_connect.cpp).
use cppvless.Common.{
  ℕ, zero, suc, ◌+◌, ◌≤◌, ◌≡◌, refl, sym, ap, ◌∙◌, true, List, [], ◌∷◌, ◌++◌, Bytes, All, length,
  arith, Option, none, some,
}
use cppvless.Common.Int.{pos, is_positive}
use cppvless.Coro.AsyncStream.{SendResult, write_full}
use cppvless.Coro.AsyncStream.Copied.{IsWorking, write_full_lem, write_full-IsWorking}
use cppvless.Vless.Decoder.{encode_response}
use cppvless.Vless.Encryption.{
  Openssl, EncryptionMethod, EncryptionSession, new_session, generate_key_pair,
  compute_shared_secret,
}
use cppvless.Vless.Encryption.RoundTrip.{IsOpenssl, Share, generate_key_pair-Share}
use cppvless.Server.Connect.{is_negative, agreed, sends_key, send_response_and_key}

module _ (ssl : Openssl) where
  positive : (n : ℕ) → 1 ≤ n → is_positive (pos n) ≡ true
  positive zero h = absurd (omega arith)
  positive (suc n) h = refl

  -- Both messages are taken whole.
  sent_whole :
      (sends : List SendResult) (version : ℕ) (s : EncryptionSession) (key : Bytes)
      → All IsWorking sends
      → 2 + length s.public_key ≤ length sends
      → 1 ≤ length s.public_key
      → send_response_and_key ssl sends version (some (s, key))
        ≡ agreed ssl (encode_response version ++ s.public_key) (compute_shared_secret ssl s key)
  unfolding send_response_and_key sends_key encode_response
  sent_whole sends version s key works enough long =
      let first = write_full_lem sends (version ∷ 0 ∷ []) works (omega arith) in
      let left = write_full-IsWorking sends (version ∷ 0 ∷ []) works (omega arith) in
      let rest = (write_full sends (version ∷ 0 ∷ [])).sends in
      let second = write_full_lem rest s.public_key left.0 (omega (arith, left.1)) in
      rw (ap is_negative first.1) (
        rw (ap is_positive second.1 ∙ positive (length s.public_key) long)
          (rw (first.0, second.0) refl))

  session_given :
      (taken : Bytes) (o : Option EncryptionSession)
      → (agreed ssl taken o).success ≡ true
      → ((agreed ssl taken o).taken ≡ taken)
        × (server : EncryptionSession) × ((agreed ssl taken o).session ≡ some server)
        × (o ≡ some server)
  session_given taken none h = absurd cc
  session_given taken (some s) h = (refl, s, refl, refl)

  -- In the encryption mode, under the promises of OpenSSL: if both sides have generated their key
  -- pairs, every send takes a byte at least, there are as many sends as the response and the public
  -- key of the server have bytes, the key is not empty, the server succeeds, and the client computes
  -- its secret from that key, then the client was sent the response and the key of the server and
  -- nothing else, and the sessions of both share their keys.
  pub send_response_and_key-Share :
      (laws : IsOpenssl ssl) (m : EncryptionMethod) (secret_a secret_b : Bytes) (version : ℕ)
      (sends : List SendResult) (a b client : EncryptionSession)
      → generate_key_pair ssl (some secret_a) (new_session m) ≡ some a
      → generate_key_pair ssl (some secret_b) (new_session m) ≡ some b
      → All IsWorking sends
      → 2 + length b.public_key ≤ length sends
      → 1 ≤ length b.public_key
      → compute_shared_secret ssl a b.public_key ≡ some client
      → (send_response_and_key ssl sends version (some (b, a.public_key))).success ≡ true
      → let r = send_response_and_key ssl sends version (some (b, a.public_key)) in
        (r.taken ≡ encode_response version ++ b.public_key)
        × (server : EncryptionSession) × (r.session ≡ some server)
        × Share ssl client server
  send_response_and_key-Share laws m secret_a secret_b version sends a b client ga gb works enough
        long ea good =
      let whole = sent_whole sends version b a.public_key works enough long in
      let (taken, server, given, eb) =
        session_given (encode_response version ++ b.public_key)
          (compute_shared_secret ssl b a.public_key) (ap (λ r. r.success) (sym whole) ∙ good) in
      (
        ap (λ r. r.taken) whole ∙ taken,
        server,
        ap (λ r. r.session) whole ∙ given,
        generate_key_pair-Share ssl laws m secret_a secret_b a b client server ga gb ea eb,
      )
