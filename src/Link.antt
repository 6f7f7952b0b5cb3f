-- ===== src/Link.antt =====
-- src/common/link.cpp: the share links of the users. `inet_pton` and the decimal text of the port
-- (`snprintf` with "%u") are arguments.
pub mod UrlDecode
use cppvless.Common.{
  is_empty, ℕ, ◌+◌, ◌/◌, ◌%◌, Bool, true, false, not, ◌&&◌, ◌||◌, [], ◌∷◌, ◌++◌, Bytes, length, ltb,
  leb, ◌==◌, if◌then◌else◌, codes, Option, none, some,
}
use cppvless.Config.Settings.{ServerConfig}

-- `std::isalnum` in the C locale.
abbrev pub is_alnum : ℕ → Bool
is_alnum c =
    (leb b'0' c && leb c b'9') || ((leb b'A' c && leb c b'Z') || (leb b'a' c && leb c b'z'))

abbrev pub is_unreserved : ℕ → Bool
is_unreserved c = is_alnum c || (c == b'-' || (c == b'_' || (c == b'.' || c == b'~')))

-- `"0123456789ABCDEF"[d]`
abbrev pub upper_digit : ℕ → ℕ
upper_digit d = if ltb d 10 then b'0' + d else 55 + d

unfoldable pub url_encode : Bytes → Bytes
url_encode [] = []
url_encode (c ∷ cs) =
    let rest = url_encode cs in
    if is_unreserved c then c ∷ rest else b'%' ∷ upper_digit (c / 16) ∷ upper_digit (c % 16) ∷ rest

-- `linkTarget`: TLS goes first.
abbrev pub link_target : ServerConfig → ℕ × Bytes
link_target cfg = if cfg.tls.enabled then (cfg.tls.port, codes "tls") else (cfg.port, codes "none")

-- A certificate of its own is pinned by its fingerprint, if that is known.
abbrev pub pins : ServerConfig → Bytes
pins cfg =
    if not (is_empty cfg.tls.cert_file)
    then []
    else if not (is_empty cfg.tls.cert_sha256)
    then codes "&pcs=" ++ (cfg.tls.cert_sha256 ++ (codes "&pinSHA256=" ++ cfg.tls.cert_sha256))
    else codes "&allowInsecure=1"

module _ (inet_pton4 inet_pton6 : Bytes → Option Bytes) (decimal : ℕ → Bytes) where
  abbrev is_some : Option Bytes → Bool
  is_some none = false
  is_some (some ip) = true

  abbrev pub is_valid_ip : Bytes → Bool
  is_valid_ip s = is_some (inet_pton4 s) || is_some (inet_pton6 s)

  abbrev pub tls_part : Bytes → ServerConfig → Bytes
  tls_part host cfg =
      (if is_valid_ip host then [] else codes "&sni=" ++ url_encode host)
      ++ (codes "&fp=chrome" ++ pins cfg)

  abbrev pub remark_part : Bytes → Bytes
  remark_part remark = if is_empty remark then [] else b'#' ∷ url_encode remark

  unfoldable pub build_vless_link : Bytes → ServerConfig → Bytes → Bytes → Bytes
  unfolding url_encode
  build_vless_link host cfg uuid remark =
      if is_empty host || is_empty uuid
      then []
      else codes "vless://"
        ++ (uuid
            ++ (b'@'
                ∷ (host
                    ++ (b':'
                        ∷ (decimal (link_target cfg).0
                            ++ (codes "?encryption=none&security="
                                ++ ((link_target cfg).1
                                    ++ (codes "&type=tcp&headerType=none"
                                        ++ ((if cfg.tls.enabled then tls_part host cfg else [])
                                            ++ remark_part remark)))))))))
