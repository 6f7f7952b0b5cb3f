-- ===== src/Config/Load.antt =====
-- `writeServerConfig`, `loadServerConfig` and `loadClientConfig` of src/common/config.cpp. The file
-- is a record of what the file system answers; the random bytes of the first user are an argument.
pub mod Written
pub mod Bounds
use cppvless.Common.{
  ℕ, ◌+◌, ◌-◌, ◌%◌, ◌^◌, ◌<◌, Bool, true, false, List, [], ◌∷◌, ◌++◌, Bytes, is_empty, ltb,
  if◌then◌else◌, Option, none, some, Result, ok, err, codes,
}
use cppvless.Common.Int.{ℤ, pos, negsuc}
use cppvless.Config.Settings.{UserConfig, TlsConfigData, ServerConfig, ClientConfig}
use cppvless.Config.Json.{
  Json, Items, Fields, null, bool, number, string, array, object, no_items, item, get,
}
use cppvless.Config.Json.Text.{JsonError}
use cppvless.Config.Json.Parser.{parse}
use cppvless.Config.Render.{server_text}
use cppvless.Config.Uuid.{generate_uuid}

-- `static_cast<uint16_t>` and `static_cast<int>` of a `long long`.
unfoldable pub to_uint16 : ℤ → ℕ
to_uint16 (pos n) = n % 2 ^ 16
to_uint16 (negsuc n) = 2 ^ 16 - 1 - n % 2 ^ 16

abbrev pub signed32 : ℕ → ℤ
signed32 u = if ltb u (2 ^ 31) then pos u else negsuc (2 ^ 32 - 1 - u)

unfoldable pub to_int32 : ℤ → ℤ
to_int32 (pos n) = signed32 (n % 2 ^ 32)
to_int32 (negsuc n) = signed32 (2 ^ 32 - 1 - n % 2 ^ 32)

-- A value of the right kind is used; a missing one, or another, leaves what is there.
abbrev pub number_or : {A : Type 0} → A → (ℤ → A) → Option Json → A
number_or old use_it (some (number z)) = use_it z
number_or old use_it (some null) = old
number_or old use_it (some (bool b)) = old
number_or old use_it (some (string s)) = old
number_or old use_it (some (array vs)) = old
number_or old use_it (some (object fs)) = old
number_or old use_it none = old

abbrev pub string_or : Bytes → Option Json → Bytes
string_or old (some (string s)) = s
string_or old (some null) = old
string_or old (some (bool b)) = old
string_or old (some (number z)) = old
string_or old (some (array vs)) = old
string_or old (some (object fs)) = old
string_or old none = old

abbrev pub bool_or : Bool → Option Json → Bool
bool_or old (some (bool b)) = b
bool_or old (some null) = old
bool_or old (some (string s)) = old
bool_or old (some (number z)) = old
bool_or old (some (array vs)) = old
bool_or old (some (object fs)) = old
bool_or old none = old

unfoldable pub load_tls : TlsConfigData → Option Json → TlsConfigData
unfolding get
load_tls tls (some (object fs)) = record tls {
  enabled = bool_or tls.enabled (get (codes "enabled") (object fs));
  port = number_or tls.port to_uint16 (get (codes "port") (object fs));
  cert_file = string_or tls.cert_file (get (codes "cert_file") (object fs));
  key_file = string_or tls.key_file (get (codes "key_file") (object fs));
  cert_dir = string_or tls.cert_dir (get (codes "cert_dir") (object fs));
  cert_days = number_or tls.cert_days to_int32 (get (codes "cert_days") (object fs));
}
load_tls tls _ = tls

-- An entry that is no object, or has no UUID, is skipped.
unfoldable pub load_user : Json → List UserConfig
unfolding get
load_user (object fs) =
    let uuid = string_or [] (get (codes "uuid") (object fs)) in
    let name = string_or [] (get (codes "name") (object fs)) in
    if is_empty uuid then [] else record { uuid = uuid; name = name } ∷ []
load_user _ = []

unfoldable pub load_items : Items → List UserConfig
unfolding load_user
load_items no_items = []
load_items (item v vs) = load_user v ++ load_items vs

unfoldable pub load_users : List UserConfig → Option Json → List UserConfig
unfolding load_items
load_users users (some (array vs)) = users ++ load_items vs
load_users users _ = users

unfoldable pub load_server_root : ServerConfig → Json → ServerConfig
unfolding get
load_server_root cfg root = record {
  port = number_or cfg.port to_uint16 (get (codes "port") root);
  log_level = string_or cfg.log_level (get (codes "log_level") root);
  workers = number_or cfg.workers to_int32 (get (codes "workers") root);
  host = string_or cfg.host (get (codes "host") root);
  remark = string_or cfg.remark (get (codes "remark") root);
  tls = load_tls cfg.tls (get (codes "tls") root);
  users = load_users cfg.users (get (codes "users") root);
}

-- What stands at the path, whether it can be opened for writing and written to its end, and what a
-- write that fails leaves.
pub record Disk : Type 0 where
  pub content : Option Bytes
  pub opens : Bool
  pub writes : Bool
  pub partial : Bytes

pub data WriteError : Type 0 where
  cannot_open failed_to_write : WriteError

-- Opening for writing empties the file.
unfoldable pub write_server_config : Disk → ServerConfig → Option WriteError × Disk
write_server_config disk cfg =
    if disk.opens
    then if disk.writes
      then (none, record disk { content = some (server_text cfg) })
      else (some failed_to_write, record disk { content = some disk.partial })
    else (some cannot_open, disk)

pub data ConfigError : Type 0 where
  invalid_json : ConfigError
  not_created : WriteError → ConfigError

-- The error if `false` is returned, the configuration, `*created`, and the file afterwards.
pub record Loaded : Type 0 where
  pub failed : Option ConfigError
  pub config : ServerConfig
  pub created : Bool
  pub disk : Disk

abbrev pub first_user : Bytes → UserConfig
first_user random = record { uuid = generate_uuid random; name = codes "default" }

unfoldable pub created_or_failed : ServerConfig → Option WriteError × Disk → Loaded
created_or_failed cfg (none, disk) = record {
  failed = none;
  config = cfg;
  created = true;
  disk = disk;
}
created_or_failed cfg (some e, disk) = record {
  failed = some (not_created e);
  config = cfg;
  created = false;
  disk = disk;
}

-- The first start: a user of its own, and a file.
unfoldable pub first_start : Bytes → Disk → ServerConfig → Loaded
unfolding write_server_config created_or_failed
first_start random disk cfg =
    let config : ServerConfig = record cfg { users = cfg.users ++ first_user random ∷ [] } in
    created_or_failed config (write_server_config disk config)

-- A file that holds no object is refused.
unfoldable pub load_document : Disk → ServerConfig → Result JsonError Json → Loaded
load_document disk cfg (ok (object fs)) = record {
  failed = none;
  config = load_server_root cfg (object fs);
  created = false;
  disk = disk;
}
load_document disk cfg _ = record {
  failed = some invalid_json;
  config = cfg;
  created = false;
  disk = disk;
}

unfoldable pub load_server_config : (Bytes → ℤ) → Bytes → Disk → ServerConfig → Loaded
load_server_config other random disk cfg = elim disk.content [
  | none ↦ first_start random disk cfg
  | some text ↦ load_document disk cfg (parse other text)
]

pub data ClientWarning : Type 0 where
  not_found invalid_json : ClientWarning

unfoldable pub load_client_root : ClientConfig → Json → ClientConfig
unfolding get
load_client_root cfg root = record {
  socks5_port = number_or cfg.socks5_port to_uint16 (get (codes "socks5_port") root);
  remote = string_or cfg.remote (get (codes "remote") root);
  uuid = string_or cfg.uuid (get (codes "uuid") root);
  log_level = string_or cfg.log_level (get (codes "log_level") root);
  workers = number_or cfg.workers to_int32 (get (codes "workers") root);
  tls_enabled = bool_or cfg.tls_enabled (get (codes "tls_enabled") root);
  tls_insecure = bool_or cfg.tls_insecure (get (codes "tls_insecure") root);
}

unfoldable pub load_client_document :
    ClientConfig → Result JsonError Json → ClientConfig × Option ClientWarning
load_client_document cfg (ok (object fs)) = (load_client_root cfg (object fs), none)
load_client_document cfg _ = (cfg, some invalid_json)

-- The client goes on with what it has, and a warning.
unfoldable pub load_client_config :
    (Bytes → ℤ) → Option Bytes → ClientConfig → ClientConfig × Option ClientWarning
unfolding load_client_document
load_client_config other none cfg = (cfg, some not_found)
load_client_config other (some text) cfg = load_client_document cfg (parse other text)
