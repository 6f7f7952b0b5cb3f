-- ===== src/Tests/Config.antt =====
-- The configuration files (src/common/config.cpp).
use cppvless.Common.{
  ◌≡◌, ◌≢◌, ◌↔◌, refl, arith, true, false, [], ◌∷◌, ◌++◌, Bytes, equal, none, some, ok, err, codes,
}
use cppvless.Common.Int.{ℤ, pos}
use cppvless.Config.Settings.{ServerConfig, default_server, default_client}
use cppvless.Config.Json.{object, field, string, no_fields, item, no_items, array, bool, null}
use cppvless.Config.Json
use cppvless.Config.Json.Text.{stuck}
use cppvless.Config.Json.Parser.{
  parse, parse_value, parse_scalar, open_object, open_array, parse_key, separator,
}
use cppvless.Config.Json.Termination.{parse-ne-stuck}
use cppvless.Config.Render.{server_text}
use cppvless.Config.Load.{load_server_config, load_client_config, Disk, first_user}
use cppvless.Config.Load.Written.{
  IsTyped, restored, load_server_config-server_text, second_start, missing,
}
use cppvless.Config.Load.Bounds.{
  IsUsable, HoldsObject, load_server_config-IsUsable, load_client_config-Warned,
}
use cppvless.Config.ParentDir.{directory, ensure_parent_dir, mkdirs}

-- No number of the tests has a fraction or an exponent.
abbrev no_fraction : Bytes → ℤ
no_fraction text = pos 0

abbrev small : ServerConfig
small = record default_server {
  port = 8443;
  host = codes "a b";
  users =
      record { uuid = codes "u"; name = codes "n" } ∷ record { uuid = []; name = codes "x" } ∷ [];
}

parse_test :
    parse no_fraction (codes " {\"a\": [1, true, \"x\\n\"], \"b\": null} ")
    ≡ ok (
        object (
          field
            (codes "a")
            (array (
              item
                (Json.number (pos 1))
                (item (bool true) (item (string (codes "x" ++ 10 ∷ [])) no_items))))
            (field (codes "b") null no_fields)))
unfolding parse parse_value open_object open_array parse_key parse_scalar separator equal
parse_test = refl

parse-ne-stuck_example : parse no_fraction (codes "{\"a\": [1, {\"b\":") ≢ err stuck
parse-ne-stuck_example = parse-ne-stuck no_fraction (codes "{\"a\": [1, {\"b\":")

small-IsTyped : IsTyped small
small-IsTyped = record {
  port = omega arith;
  workers = omega arith;
  tls_port = omega arith;
  cert_days = omega arith;
}

load_server_config-server_text_example :
    load_server_config no_fraction []
      (record missing { content = some (server_text small) })
      default_server
    ≡ record {
      failed = none;
      config = restored default_server small;
      created = false;
      disk = record missing { content = some (server_text small) };
    }
load_server_config-server_text_example =
    load_server_config-server_text no_fraction [] missing default_server small small-IsTyped

server_text_test :
    server_text small
    ≡ codes
        "{\n  \"port\": 8443,\n  \"host\": \"a b\",\n  \"log_level\": \"info\",\n  \"workers\": 0,\n  \"remark\": \"cppvless\",\n"
      ++ (codes
            "  \"tls\": {\n    \"enabled\": false,\n    \"port\": 8848,\n    \"cert_file\": \"\",\n    \"key_file\": \"\",\n    \"cert_dir\": \"./certs\",\n    \"cert_days\": 365\n  },\n"
          ++ codes
              "  \"users\": [\n    {\"uuid\": \"u\", \"name\": \"n\"},\n    {\"uuid\": \"\", \"name\": \"x\"}\n  ]\n}\n")
unfolding server_text
server_text_test = refl

default_server-IsTyped : IsTyped default_server
default_server-IsTyped = record {
  port = omega arith;
  workers = omega arith;
  tls_port = omega arith;
  cert_days = omega arith;
}

second_start_example :
    let first = load_server_config no_fraction (codes "0123456789abcdef") missing default_server in
    let second = load_server_config no_fraction [] first.disk default_server in
    (first.failed ≡ none)
    × (first.created ≡ true)
    × (first.config.users ≡ first_user (codes "0123456789abcdef") ∷ [])
    × (second.failed ≡ none)
    × (second.created ≡ false)
    × (second.config ≡ first.config)
second_start_example =
    second_start no_fraction (codes "0123456789abcdef") [] default_server default_server-IsTyped

abbrev hostile : Disk
hostile = record missing {
  content = some (codes "{\"port\": 99999999, \"users\": [{\"name\": \"x\"}]}");
}

load_server_config-IsUsable_example :
    IsUsable (load_server_config no_fraction [] hostile default_server).config
load_server_config-IsUsable_example =
    load_server_config-IsUsable no_fraction [] hostile default_server (default_server-IsTyped, tt)

load_client_config-Warned_example :
    (((load_client_config no_fraction (some (codes "[1]")) default_client).1 ≡ none)
      ↔ HoldsObject no_fraction (some (codes "[1]")))
    × ((load_client_config no_fraction (some (codes "[1]")) default_client).1 ≢ none
        → (load_client_config no_fraction (some (codes "[1]")) default_client).0 ≡ default_client)
load_client_config-Warned_example =
    load_client_config-Warned no_fraction (some (codes "[1]")) default_client

ensure_parent_dir_test :
    ensure_parent_dir (codes "/etc/vless/config.json") ≡ codes "/" ∷ codes "/etc" ∷ []
unfolding ensure_parent_dir directory mkdirs
ensure_parent_dir_test = refl
