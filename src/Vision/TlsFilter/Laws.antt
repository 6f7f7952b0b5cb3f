-- ===== src/Vision/TlsFilter/Laws.antt =====
-- When `VisionWriter::filterTls` turns XTLS on, and that the filtering ends
-- (src/proxy/vless/vision.cpp).
use cppvless.Common.{
  ℕ, zero, suc, ◌+◌, ◌-◌, ◌≤◌, ◌<◌, ◌≡◌, ◌≢◌, refl, sym, ap, subst, ◌∙◌, Bool, true, false, inl,
  inr, arith, Bytes, length, drop, drop-drop, min, ◌==◌, ==_iff, Bool-cases,
}
use cppvless.Common.Int.{is_positive, to_ℕ, sub_ℕ}
use cppvless.Vision.Context.{VisionContext, tls13_supported_versions, starts_with}
use cppvless.Vision.TlsFilter.{
  filter_tls, scan_hello, scan_versions, hello_scanned, tls13_found, detect_hello, read_cipher,
}

-- The six bytes of the extension stand at this place.
abbrev pub HasTls13 : Bytes → ℕ → Type 0
HasTls13 d i = (i + 6 ≤ length d) × (starts_with tls13_supported_versions (drop i d) ≡ true)

scan_versions-found :
    (n : ℕ) (d : Bytes)
    → scan_versions n d ≡ true
    → (i : ℕ) × (i < n) × (starts_with tls13_supported_versions (drop i d) ≡ true)
unfolding scan_versions
scan_versions-found zero d h = cc
scan_versions-found (suc n) d h = elim (Bool-cases (starts_with tls13_supported_versions d)) [
  | inl e ↦ (0, omega arith, e)
  | inr e ↦
      let (i, less, found) = scan_versions-found n (drop 1 d) (simp e at h) in
      let next : 1 + i ≡ suc i = omega arith in
      (
        suc i,
        omega arith,
        subst (λ bs. starts_with tls13_supported_versions bs ≡ true)
            (drop-drop i 1 d ∙ ap (λ k. drop k d) next) found,
      )
]

-- What a call of the filter may change.
record Kept (ctx ctx' : VisionContext) : Type 0 where
  same_xtls : ctx'.enable_xtls ≡ ctx.enable_xtls
  same_packets : ctx'.packets_to_filter ≡ ctx.packets_to_filter

read_cipher-Kept : (ctx : VisionContext) (d : Bytes) → Kept ctx (read_cipher ctx d)
unfolding read_cipher
read_cipher-Kept ctx d = record { same_xtls = ground arith; same_packets = ground arith }

detect_hello-Kept : (ctx : VisionContext) (d : Bytes) → Kept ctx (detect_hello ctx d)
unfolding detect_hello read_cipher
detect_hello-Kept ctx d = record { same_xtls = ground arith; same_packets = ground arith }

-- Without the extension nothing is turned on.
not_found : (ctx : VisionContext) → (hello_scanned false ctx).enable_xtls ≡ ctx.enable_xtls
not_found ctx = ground arith

found :
    (ctx : VisionContext)
    → ctx.enable_xtls ≡ false
    → (tls13_found ctx).enable_xtls ≡ true
    → ((tls13_found ctx).cipher ≢ 0x1305) × ((tls13_found ctx).packets_to_filter ≡ 0)
found ctx off on = elim (Bool-cases (ctx.cipher == 0x1305)) [
  | inl e ↦ absurd (let on' : ctx.enable_xtls ≡ true = (simp e at on) in cc)
  | inr e ↦ ((λ is. let e' = (==_iff ctx.cipher 0x1305).1 is in cc), refl)
]

Enables : Bytes → VisionContext → VisionContext → Type 0
Enables d ctx ctx' =
    ctx.enable_xtls ≡ false
    → ctx'.enable_xtls ≡ true
    → ((i : ℕ) × HasTls13 d i) × (ctx'.cipher ≢ 0x1305) × (ctx'.packets_to_filter ≡ 0)

scanned-Enables :
    (d : Bytes) (ctx : VisionContext) (n : ℕ) (x : Bool)
    → n ≤ length d
    → scan_versions (n - 5) d ≡ x
    → Enables d ctx (hello_scanned x ctx)
unfolding Enables
scanned-Enables d ctx n false le e off on = absurd (let on' = sym (not_found ctx) ∙ on in cc)
scanned-Enables d ctx n true le e off on =
    let (i, less, here) = scan_versions-found (n - 5) d e in
    let (cipher, packets) = found ctx off on in ((i, (omega arith, here)), cipher, packets)

scan_hello-Enables : (ctx : VisionContext) (d : Bytes) → Enables d ctx (scan_hello ctx d)
unfolding scan_hello Enables
scan_hello-Enables ctx d = elim (Bool-cases (is_positive ctx.remaining_server_hello)) [
  | inr p ↦ simp p (λ off on. absurd cc)
  | inl p ↦ simp p (
      scanned-Enables d
        (record ctx { remaining_server_hello = sub_ℕ (to_ℕ ctx.remaining_server_hello) (length d) })
        (min (to_ℕ ctx.remaining_server_hello) (length d)) _ (omega arith) refl)
]

-- If a call of the filter turns XTLS on, its bytes have the supported_versions extension of TLS 1.3,
-- the cipher suite is not 0x1305, and the filtering is over.
pub filter_tls-enable_xtls :
    (ctx : VisionContext) (d : Bytes)
    → ctx.enable_xtls ≡ false
    → (filter_tls ctx d).enable_xtls ≡ true
    → ((i : ℕ) × HasTls13 d i)
      × ((filter_tls ctx d).cipher ≢ 0x1305)
      × ((filter_tls ctx d).packets_to_filter ≡ 0)
unfolding filter_tls Enables
filter_tls-enable_xtls ctx d off on =
    let ctx' = record ctx { packets_to_filter = ctx.packets_to_filter - 1 } in
    scan_hello-Enables (detect_hello ctx' d) d ((detect_hello-Kept ctx' d).same_xtls ∙ off) on

-- Each call of the filter uses up a packet at least, or ends the filtering.
pub filter_tls-packets :
    (ctx : VisionContext) (d : Bytes)
    → (filter_tls ctx d).packets_to_filter ≤ ctx.packets_to_filter - 1
unfolding filter_tls scan_hello
filter_tls-packets ctx d =
    let ctx' = record ctx { packets_to_filter = ctx.packets_to_filter - 1 } in
    ground (arith, (detect_hello-Kept ctx' d).same_packets)
