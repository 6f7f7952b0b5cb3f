-- ===== src/Client/Program.antt =====
-- src/client/client_main.cpp: the command line of the client, and its configuration up to where the
-- loops are made. `atoi`, the environment, the number of processors and the TLS library are
-- arguments.
pub mod Options
use cppvless.Common.{
  ℕ, ◌-◌, ◌%◌, ◌^◌, ltb, ◌==◌, Bool, true, false, not, ◌&&◌, List, [], ◌∷◌, Bytes, is_empty, equal,
  if◌then◌else◌, Option, none, some, codes,
}
use cppvless.Common.Int.{ℤ, pos, negsuc, is_positive, to_ℕ}
use cppvless.Vless.Validator.{parse_uuid}
use cppvless.Config.Settings.{ClientConfig, default_client}
use cppvless.Config.Load.{signed32, load_client_config}
use cppvless.Client.RemoteAddress.{VlessClientConfig, from_string}

-- A pair of a value and its `Set` flag is an option. The texts are those of the command line.
pub record Cli : Type 0 where
  pub socks5_port : Option ℕ
  pub remote : Option Bytes
  pub uuid : Option Bytes
  pub log_level : Option Bytes
  pub workers : Option ℕ
  pub tls_enabled : Bool
  pub tls_insecure : Bool
  pub config_path : Bytes
  pub log_file : Bytes

abbrev pub no_options : Cli
no_options = record {
  socks5_port = none;
  remote = none;
  uuid = none;
  log_level = none;
  workers = none;
  tls_enabled = false;
  tls_insecure = false;
  config_path = [];
  log_file = [];
}

-- `static_cast<unsigned>`
abbrev pub to_uint32 : ℤ → ℕ
to_uint32 (pos n) = n % 2 ^ 32
to_uint32 (negsuc n) = 2 ^ 32 - 1 - n % 2 ^ 32

-- `std::max(1u, n)`
abbrev pub at_least_one : ℕ → ℕ
at_least_one n = if ltb n 1 then 1 else n

-- What an argument does: with the one behind it, alone, or it ends the program.
pub data Kind : Type 0 where
  takes : (Bytes → Cli → Cli) → Kind
  sets : (Cli → Cli) → Kind
  ends : Kind

module _ (atoi : Bytes → ℤ) where
  unfoldable pub kind_of : Bytes → Kind
  kind_of arg =
      if equal arg (codes "--config")
      then takes (λ v c. record c { config_path = v })
      else if equal arg (codes "--socks5-port")
      then takes (λ v c. record c { socks5_port = some (to_uint32 (atoi v)) })
      else if equal arg (codes "--remote")
      then takes (λ v c. record c { remote = some v })
      else if equal arg (codes "--uuid")
      then takes (λ v c. record c { uuid = some v })
      else if equal arg (codes "--log")
      then takes (λ v c. record c { log_level = some v })
      else if equal arg (codes "--log-file")
      then takes (λ v c. record c { log_file = v })
      else if equal arg (codes "--workers")
      then takes (λ v c. record c { workers = some (at_least_one (to_uint32 (atoi v))) })
      else if equal arg (codes "--tls")
      then sets (λ c. record c { tls_enabled = true })
      else if equal arg (codes "--tls-insecure")
      then sets (λ c. record c { tls_insecure = true })
      else ends

  -- `parseArgs`; a value that is missing is the empty text.
  unfoldable pub parse_args : Cli → List Bytes → Option Cli
  unfolding kind_of
  parse_args c [] = some c
  parse_args c (arg ∷ []) = elim (kind_of arg) [
    | takes f ↦ some (f [] c)
    | sets f ↦ some (f c)
    | ends ↦ none
  ]
  parse_args c (arg ∷ v ∷ rest) = elim (kind_of arg) [
    | takes f ↦ parse_args (f v c) rest
    | sets f ↦ parse_args (f c) (v ∷ rest)
    | ends ↦ none
  ]

abbrev pub or_else : {A : Type 0} → Option A → A → A
or_else none old = old
or_else (some v) old = v

abbrev pub or_mapped : {A B : Type 0} → (A → B) → Option A → B → B
or_mapped f none old = old
or_mapped f (some v) old = f v

-- The options of the command line go first.
unfoldable pub apply_cli_overrides : Cli → ClientConfig → ClientConfig
apply_cli_overrides cli cfg = record {
  socks5_port = or_mapped (λ p. p % 2 ^ 16) cli.socks5_port cfg.socks5_port;
  remote = or_else cli.remote cfg.remote;
  uuid = or_else cli.uuid cfg.uuid;
  log_level = or_else cli.log_level cfg.log_level;
  workers = or_mapped signed32 cli.workers cfg.workers;
  tls_enabled = if cli.tls_enabled then true else cfg.tls_enabled;
  tls_insecure = if cli.tls_insecure then true else cfg.tls_insecure;
}

-- `--config`, the environment, or the default.
unfoldable pub config_path_of : Cli → Bytes → Bytes
config_path_of cli env =
    if not (is_empty cli.config_path)
    then cli.config_path
    else if not (is_empty env)
    then env
    else codes "/etc/vless/client.json"

abbrev pub default_uuid : Bytes
default_uuid = codes "e3e740b0-2c3a-4b0e-9f1a-2c8f7d5e3a1b"

unfoldable pub with_uuid : ClientConfig → ClientConfig
with_uuid cfg = if is_empty cfg.uuid then record cfg { uuid = default_uuid } else cfg

-- What the loops are made with.
pub record Started : Type 0 where
  pub config : ClientConfig
  pub remote : VlessClientConfig
  pub user : Bytes

-- The user must be a UUID, and a context for TLS is needed only with TLS.
unfoldable pub started_with : Bool → ClientConfig → Option Bytes → Option Started
unfolding from_string
started_with has_tls cfg none = none
started_with has_tls cfg (some user) =
    if cfg.tls_enabled && not has_tls
    then none
    else some (record { config = cfg; remote = from_string cfg.remote; user = user })

module _ (atoi other : Bytes → ℤ) (read_file : Bytes → Option Bytes) where
  unfoldable pub client_config : Bytes → Cli → ClientConfig
  unfolding config_path_of apply_cli_overrides with_uuid load_client_config
  client_config env cli = with_uuid (
      apply_cli_overrides cli
        (load_client_config other (read_file (config_path_of cli env)) default_client).0)

  abbrev pub configured : Bytes → Bool → Option Cli → Option Started
  configured env has_tls none = none
  configured env has_tls (some cli) =
      let cfg = client_config env cli in started_with has_tls cfg (parse_uuid cfg.uuid)

  -- `main` up to where the loops are made; nothing where it returns 1.
  unfoldable pub client_main : Bytes → Bool → List Bytes → Option Started
  unfolding parse_args client_config started_with parse_uuid
  client_main env has_tls args = configured env has_tls (parse_args atoi no_options args)
