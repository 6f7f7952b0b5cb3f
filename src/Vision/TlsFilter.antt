-- ===== src/Vision/TlsFilter.antt =====
-- `VisionWriter::filterTls` of src/proxy/vless/vision.cpp: what the writer learns of the TLS
-- session from the bytes of the target.
pub mod Laws
use cppvless.Common.{
  ℕ, zero, suc, ◌+◌, ◌-◌, ◌*◌, min, bit_or, Bool, true, false, not, ◌&&◌, [], ◌∷◌, Bytes, length,
  drop, get_or, ltb, leb, ◌==◌, if◌then◌else◌, equal,
}
use cppvless.Common.Int.{ℤ, pos, sub_ℕ, is_positive, to_ℕ}
use cppvless.Vision.Context.{
  VisionContext, tls13_supported_versions, client_handshake_start, server_handshake_start,
  starts_with,
}

-- `(data[i] << 8) | data[i + 1]`
abbrev pub be16_at : Bytes → ℕ → ℕ
be16_at d i = bit_or (get_or d i 0 * 256) (get_or d (i + 1) 0)

-- The cipher suite that stands behind the session id of a ServerHello.
unfoldable pub read_cipher : VisionContext → Bytes → VisionContext
read_cipher ctx d =
    let session_id_len = get_or d 43 0 in
    if leb 79 (length d) && leb 79 (to_ℕ ctx.remaining_server_hello)
    then (if leb (43 + session_id_len + 3) (length d)
        then record ctx { cipher = be16_at d (43 + session_id_len + 1) }
        else ctx)
    else ctx

abbrev server_hello : VisionContext → Bytes → VisionContext
server_hello ctx d =
    read_cipher
      (record ctx {
        remaining_server_hello = pos (be16_at d 3 + 5);
        is_tls12_or_above = true;
        is_tls = true;
      })
      d

-- The detection of ServerHello and ClientHello.
unfoldable pub detect_hello : VisionContext → Bytes → VisionContext
unfolding read_cipher
detect_hello ctx d =
    if not (leb 6 (length d))
    then ctx
    else if starts_with server_handshake_start d && get_or d 5 0 == 0x02
    then server_hello ctx d
    else if starts_with client_handshake_start d && get_or d 5 0 == 0x01
    then record ctx { is_tls = true }
    else ctx

-- The search for the supported_versions extension, over `n` positions.
unfoldable pub scan_versions : ℕ → Bytes → Bool
scan_versions zero d = false
scan_versions (suc n) d =
    let later = scan_versions n (drop 1 d) in
    if starts_with tls13_supported_versions d then true else later

abbrev pub tls13_found : VisionContext → VisionContext
tls13_found ctx = record ctx {
  enable_xtls = if not (ctx.cipher == 0x1305) then true else ctx.enable_xtls;
  packets_to_filter = 0;
}

abbrev pub hello_scanned : Bool → VisionContext → VisionContext
hello_scanned true ctx = tls13_found ctx
hello_scanned false ctx =
    if is_positive ctx.remaining_server_hello then ctx else record ctx { packets_to_filter = 0 }

-- `i + 6 <= end` holds at the positions below `end - 5`.
unfoldable pub scan_hello : VisionContext → Bytes → VisionContext
unfolding scan_versions
scan_hello ctx d =
    let end' = min (to_ℕ ctx.remaining_server_hello) (length d) in
    if is_positive ctx.remaining_server_hello
    then hello_scanned (scan_versions (end' - 5) d)
        (record ctx { remaining_server_hello = sub_ℕ (to_ℕ ctx.remaining_server_hello) (length d) })
    else ctx

-- Called only while `packetsToFilter` is positive.
unfoldable pub filter_tls : VisionContext → Bytes → VisionContext
unfolding detect_hello scan_hello
filter_tls ctx d =
    scan_hello (detect_hello (record ctx { packets_to_filter = ctx.packets_to_filter - 1 }) d) d
