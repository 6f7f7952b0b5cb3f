-- ===== src/Config/Settings.antt =====
-- The configuration records of src/include/common/config.h, with their defaults.
use cppvless.Common.{ℕ, Bool, false, List, [], Bytes, codes}
use cppvless.Common.Int.{ℤ, pos}

pub record UserConfig : Type 0 where
  pub uuid : Bytes
  pub name : Bytes

pub record TlsConfigData : Type 0 where
  pub enabled : Bool
  pub port : ℕ
  pub cert_file : Bytes
  pub key_file : Bytes
  pub cert_dir : Bytes
  pub cert_days : ℤ
  pub cert_sha256 : Bytes

pub record ServerConfig : Type 0 where
  pub port : ℕ
  pub log_level : Bytes
  pub workers : ℤ
  pub host : Bytes
  pub remark : Bytes
  pub tls : TlsConfigData
  pub users : List UserConfig

pub record ClientConfig : Type 0 where
  pub socks5_port : ℕ
  pub remote : Bytes
  pub uuid : Bytes
  pub log_level : Bytes
  pub workers : ℤ
  pub tls_enabled : Bool
  pub tls_insecure : Bool

abbrev pub default_tls : TlsConfigData
default_tls = record {
  enabled = false;
  port = 8848;
  cert_file = [];
  key_file = [];
  cert_dir = codes "./certs";
  cert_days = pos 365;
  cert_sha256 = [];
}

abbrev pub default_server : ServerConfig
default_server = record {
  port = 1080;
  log_level = codes "info";
  workers = pos 0;
  host = [];
  remark = codes "cppvless";
  tls = default_tls;
  users = [];
}

abbrev pub default_client : ClientConfig
default_client = record {
  socks5_port = 1080;
  remote = codes "127.0.0.1:443";
  uuid = [];
  log_level = codes "info";
  workers = pos 0;
  tls_enabled = false;
  tls_insecure = false;
}
