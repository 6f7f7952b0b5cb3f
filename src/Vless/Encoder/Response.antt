-- ===== src/Vless/Encoder/Response.antt =====
-- The response header of the server as the client reads it (src/proxy/vless/encoder.cpp,
-- src/proxy/vless/decoder.cpp).
use cppvless.Common.{ℕ, ◌≡◌, refl, inl, inr, ◌∷◌, ◌++◌, arith, Bytes, ◌==◌, Bool-cases}
use cppvless.Coro.ByteReader.{ByteReader}
use cppvless.Vless.Encoder.{decode_response}
use cppvless.Vless.Decoder.{encode_response}

module _ {S : Type 0} (r : ByteReader S) where
  -- On a stream that will deliver the response of version `version` and more, the client accepts it
  -- exactly for version 0, and the stream will deliver what follows.
  pub decode_response-encode_response :
      (version : ℕ) (rest : Bytes) (s : S)
      → r.Holds s (encode_response version ++ rest)
      → ((decode_response r s).0 ≡ (version == 0)) × r.Holds (decode_response r s).1 rest
  unfolding decode_response encode_response
  decode_response-encode_response version rest s h =
      let (got, left) = r.read_enough 2 s (version ∷ 0 ∷ rest) h (omega arith) in
      rw got
        (elim (Bool-cases (version == 0)) [ inl e ↦ rw e (refl, left) | inr e ↦ rw e (refl, left) ])
