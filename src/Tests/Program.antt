-- ===== src/Tests/Program.antt =====
-- The command line of the client (src/client/client_main.cpp).
use cppvless.Common.{◌≡◌, refl, true, List, [], ◌∷◌, Bytes, equal, Option, none, some, codes}
use cppvless.Common.Int.{ℤ, pos}
use cppvless.Vless.Validator.{parse_uuid, compact, hex_pairs}
use cppvless.Config.Settings.{default_client}
use cppvless.Config.Json.Number.{read_digits}
use cppvless.Config.Json.Text.{skip_ws}
use cppvless.Config.Load.{load_client_config, to_uint16}
use cppvless.Client.RemoteAddress.{from_string, split_last, host_and_port, stoi}
use cppvless.Client.Program.{
  Started, no_options, apply_cli_overrides, with_uuid, started_with, config_path_of, client_config,
  parse_args, kind_of, client_main,
}
use cppvless.Client.Program.Options.{
  Word, words, remote, tls, socks5_port, all_meant, IsStarted, client_main-IsStarted,
}

-- All numbers of the tests are 70000.
abbrev number : Bytes → ℤ
number text = pos 70000

abbrev no_file : Bytes → Option Bytes
no_file path = none

abbrev given : List Word
given = remote (codes "a:1") ∷ socks5_port (codes "70000") ∷ tls ∷ remote (codes "::1:8443") ∷ []

abbrev with_tls : Started
with_tls = record {
  config = record default_client {
    socks5_port = 4464;
    remote = codes "::1:8443";
    uuid = codes "e3e740b0-2c3a-4b0e-9f1a-2c8f7d5e3a1b";
    tls_enabled = true;
  };
  remote = record { remote_host = codes "::1"; remote_port = 8443 };
  user =
      0xe3 ∷ 0xe7 ∷ 0x40 ∷ 0xb0 ∷ 0x2c ∷ 0x3a ∷ 0x4b ∷ 0x0e ∷ 0x9f ∷ 0x1a ∷ 0x2c ∷ 0x8f ∷ 0x7d
      ∷ 0x5e ∷ 0x3a ∷ 0x1b ∷ [];
}

starts : client_main number number no_file [] true (words given) ≡ some with_tls
unfolding client_main client_config parse_args kind_of equal apply_cli_overrides with_uuid
    started_with config_path_of load_client_config parse_uuid compact hex_pairs from_string
    split_last host_and_port stoi skip_ws read_digits to_uint16
starts = refl

client_main-IsStarted_example :
    IsStarted (all_meant number given no_options) default_client true with_tls
unfolding load_client_config config_path_of
client_main-IsStarted_example =
    client_main-IsStarted number number no_file given [] true with_tls starts
