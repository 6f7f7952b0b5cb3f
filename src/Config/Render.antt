-- ===== src/Config/Render.antt =====
-- `jsonEscape` and the text that `writeServerConfig` puts together (src/common/config.cpp). The
-- stream is built from its end: each part stands in front of what is written after it.
pub mod Numbers
pub mod Reads
pub mod Document
use cppvless.Common.{
  ℕ, ◌≡◌, Bool, true, false, List, [], ◌∷◌, ◌++◌, Bytes, ◌==◌, if◌then◌else◌, codes,
}
use cppvless.Common.Int.{ℤ, pos}
use cppvless.Config.Settings.{UserConfig, TlsConfigData, ServerConfig}
use cppvless.Config.Json.Number.{decimal_int}
use cppvless.Config.Json.Text.{quote, backslash}

abbrev pub newline : ℕ
newline = 10

unfoldable pub json_escape : Bytes → Bytes
json_escape [] = []
json_escape (c ∷ cs) =
    let rest = json_escape cs in
    if c == quote
    then backslash ∷ quote ∷ rest
    else if c == backslash
    then backslash ∷ backslash ∷ rest
    else if c == newline
    then backslash ∷ b'n' ∷ rest
    else if c == 9
    then backslash ∷ b't' ∷ rest
    else if c == 13
    then backslash ∷ b'r' ∷ rest
    else c ∷ rest

abbrev pub quoted : Bytes → Bytes → Bytes
quoted s rest = quote ∷ (json_escape s ++ (quote ∷ rest))

abbrev pub number : ℤ → Bytes → Bytes
number z rest = decimal_int z ++ rest

abbrev pub boolean : Bool → Bytes → Bytes
boolean b rest = (if b then codes "true" else codes "false") ++ rest

-- `"key": `
abbrev pub label : Bytes → Bytes → Bytes
label key rest = quote ∷ (key ++ (quote ∷ b':' ∷ 32 ∷ rest))

-- The end of a line behind a comma.
abbrev pub next_line : Bytes → Bytes
next_line rest = b',' ∷ newline ∷ rest

abbrev pub member : Bytes → (Bytes → Bytes) → Bytes → Bytes
member key value rest = codes "  " ++ label key (value rest)

abbrev pub inner : Bytes → (Bytes → Bytes) → Bytes → Bytes
inner key value rest = codes "    " ++ label key (value rest)

unfoldable pub tls_text : TlsConfigData → Bytes → Bytes
unfolding json_escape decimal_int
tls_text tls rest =
    b'{'
    ∷ newline
    ∷ inner (codes "enabled") (boolean tls.enabled) (
        next_line (
          inner (codes "port") (number (pos tls.port)) (
            next_line (
              inner (codes "cert_file") (quoted tls.cert_file) (
                next_line (
                  inner (codes "key_file") (quoted tls.key_file) (
                    next_line (
                      inner (codes "cert_dir") (quoted tls.cert_dir) (
                        next_line (
                          inner (codes "cert_days") (number tls.cert_days)
                            (newline ∷ (codes "  }" ++ rest))))))))))))

unfoldable pub user_text : UserConfig → Bytes → Bytes
unfolding json_escape
user_text u rest =
    b'{'
    ∷ label (codes "uuid")
        (quoted u.uuid (b',' ∷ 32 ∷ label (codes "name") (quoted u.name (b'}' ∷ rest))))

-- A comma stands behind all users but the last.
unfoldable pub users_loop : List UserConfig → Bytes → Bytes
unfolding user_text
users_loop [] rest = rest
users_loop (u ∷ []) rest = codes "    " ++ user_text u (newline ∷ rest)
users_loop (u ∷ w ∷ us) rest =
    codes "    " ++ user_text u (b',' ∷ newline ∷ users_loop (w ∷ us) rest)

unfoldable pub users_text : List UserConfig → Bytes → Bytes
unfolding users_loop
users_text users rest = b'[' ∷ newline ∷ users_loop users (codes "  ]" ++ rest)

unfoldable pub server_text : ServerConfig → Bytes
unfolding json_escape decimal_int tls_text users_text
server_text cfg =
    b'{'
    ∷ newline
    ∷ member (codes "port") (number (pos cfg.port)) (
        next_line (
          member (codes "host") (quoted cfg.host) (
            next_line (
              member (codes "log_level") (quoted cfg.log_level) (
                next_line (
                  member (codes "workers") (number cfg.workers) (
                    next_line (
                      member (codes "remark") (quoted cfg.remark) (
                        next_line (
                          member (codes "tls") (tls_text cfg.tls) (
                            next_line (
                              member (codes "users") (users_text cfg.users)
                                (newline ∷ b'}' ∷ newline ∷ [])))))))))))))
