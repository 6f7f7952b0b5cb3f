-- ===== src/Vision/Context.antt =====
-- include/proxy/vless/vision.h and the constants of src/proxy/vless/vision.cpp: what the two
-- directions of a connection know of the TLS session inside it.
use cppvless.Common.{ℕ, Bool, false, [], ◌∷◌, Bytes, length, take, equal}
use cppvless.Common.Int.{ℤ, negsuc}

abbrev pub cmd_continue : ℕ
cmd_continue = 0

abbrev pub cmd_end : ℕ
cmd_end = 1

abbrev pub cmd_direct : ℕ
cmd_direct = 2

abbrev pub max_frame_size : ℕ
max_frame_size = 8192

abbrev pub full_header_size : ℕ
full_header_size = 21

abbrev pub short_header_size : ℕ
short_header_size = 5

-- `packetsToFilter` is decremented only where it is positive, so it is a ℕ.
pub record VisionContext : Type 0 where
  pub packets_to_filter : ℕ
  pub is_tls : Bool
  pub is_tls12_or_above : Bool
  pub enable_xtls : Bool
  pub cipher : ℕ
  pub remaining_server_hello : ℤ

abbrev pub initial_context : VisionContext
initial_context = record {
  packets_to_filter = 8;
  is_tls = false;
  is_tls12_or_above = false;
  enable_xtls = false;
  cipher = 0;
  remaining_server_hello = negsuc 0;
}

abbrev pub tls13_supported_versions : Bytes
tls13_supported_versions = 0x00 ∷ 0x2b ∷ 0x00 ∷ 0x02 ∷ 0x03 ∷ 0x04 ∷ []

abbrev pub client_handshake_start : Bytes
client_handshake_start = 0x16 ∷ 0x03 ∷ []

abbrev pub server_handshake_start : Bytes
server_handshake_start = 0x16 ∷ 0x03 ∷ 0x03 ∷ []

abbrev pub application_data_start : Bytes
application_data_start = 0x17 ∷ 0x03 ∷ 0x03 ∷ []

-- `std::equal(p, p + sizeof(p), data)`, where the data is known to be long enough.
abbrev pub starts_with : Bytes → Bytes → Bool
starts_with p data' = equal (take (length p) data') p
