-- ===== src/Config/Load/Written.antt =====
-- A written configuration is loaded again (src/common/config.cpp).
use cppvless.Common.{
  ℕ, ◌^◌, ◌<◌, ◌≤◌, ◌≡◌, refl, ap, ◌∙◌, inl, inr, true, false, List, [], ◌∷◌, ◌++◌, take, arith,
  Bytes, is_empty, equal, Bool-cases, if◌then◌else◌, none, some,
}
use cppvless.Common.Int.{ℤ, pos, negsuc}
use cppvless.Config.Settings.{UserConfig, TlsConfigData, ServerConfig}
use cppvless.Config.Json.Number.{magnitude}
use cppvless.Config.Json.{find}
use cppvless.Config.Render.{server_text}
use cppvless.Config.Render.Document.{IsExact, server_json, users_json, tls_json, parse-server_text}
use cppvless.Config.Uuid.{generate_uuid, hex_bytes, stamp}
use cppvless.Config.Load.{
  to_uint16, to_int32, load_tls, load_user, load_items, load_users, load_server_root, Disk,
  first_start, first_user, load_document, load_server_config,
}

-- A value of `int`.
abbrev pub IsInt32 : ℤ → Type 0
IsInt32 (pos n) = n < 2 ^ 31
IsInt32 (negsuc n) = n < 2 ^ 31

-- What the types of the fields allow.
pub record IsTyped (cfg : ServerConfig) : Type 0 where
  pub port : cfg.port < 2 ^ 16
  pub workers : IsInt32 cfg.workers
  pub tls_port : cfg.tls.port < 2 ^ 16
  pub cert_days : IsInt32 cfg.tls.cert_days

magnitude-IsInt32 : (z : ℤ) → IsInt32 z → magnitude z ≤ 2 ^ 53
magnitude-IsInt32 (pos n) h = omega arith
magnitude-IsInt32 (negsuc n) h = omega arith

IsTyped-IsExact : (cfg : ServerConfig) → IsTyped cfg → IsExact cfg
IsTyped-IsExact cfg t = record {
  port = omega (arith, t.port);
  workers = magnitude-IsInt32 cfg.workers t.workers;
  tls_port = omega (arith, t.tls_port);
  cert_days = magnitude-IsInt32 cfg.tls.cert_days t.cert_days;
}

to_uint16_id : (n : ℕ) → n < 2 ^ 16 → to_uint16 (pos n) ≡ n
unfolding to_uint16
to_uint16_id n h = omega arith

to_int32_id : (z : ℤ) → IsInt32 z → to_int32 z ≡ z
unfolding to_int32
to_int32_id (pos n) h = ground arith
to_int32_id (negsuc n) h = ground arith

-- The users that a restart keeps.
unfoldable pub with_uuid : List UserConfig → List UserConfig
with_uuid [] = []
with_uuid (u ∷ us) = let rest = with_uuid us in if is_empty u.uuid then rest else u ∷ rest

load_items-users_json : (us : List UserConfig) → load_items (users_json us) ≡ with_uuid us
unfolding load_items load_user find equal with_uuid
load_items-users_json [] = refl
load_items-users_json (u ∷ us) = elim (Bool-cases (is_empty u.uuid)) [
  | inl e ↦ rw e (load_items-users_json us)
  | inr e ↦ rw e (ap (λ ws. u ∷ ws) (load_items-users_json us))
]

-- The settings of the file over those that the program starts with.
abbrev pub restored : ServerConfig → ServerConfig → ServerConfig
restored start cfg = record cfg {
  tls = record (cfg.tls) { cert_sha256 = start.tls.cert_sha256 };
  users = start.users ++ with_uuid cfg.users;
}

load_tls-tls_json :
    (start tls : TlsConfigData)
    → tls.port < 2 ^ 16
    → IsInt32 tls.cert_days
    → load_tls start (some (tls_json tls)) ≡ record tls { cert_sha256 = start.cert_sha256 }
unfolding load_tls equal
load_tls-tls_json start tls p d = rw (to_uint16_id tls.port p, to_int32_id tls.cert_days d)

load_server_root-server_json :
    (start cfg : ServerConfig)
    → IsTyped cfg
    → load_server_root start (server_json cfg) ≡ restored start cfg
unfolding load_server_root equal
load_server_root-server_json start cfg t =
    rw (to_uint16_id cfg.port t.port, to_int32_id cfg.workers t.workers)
      (rw (load_tls-tls_json start.tls cfg.tls t.tls_port t.cert_days)
        (unfold load_users in rw (load_items-users_json cfg.users)))

-- A start that finds the text of a configuration has its settings and users.
pub load_server_config-server_text :
    (other : Bytes → ℤ) (random : Bytes) (disk : Disk) (start cfg : ServerConfig)
    → IsTyped cfg
    → load_server_config other random (record disk { content = some (server_text cfg) }) start
      ≡ record {
        failed = none;
        config = restored start cfg;
        created = false;
        disk = record disk { content = some (server_text cfg) };
      }
unfolding load_server_config load_document
load_server_config-server_text other random disk start cfg t =
    rw (parse-server_text other cfg (IsTyped-IsExact cfg t))
      (rw (load_server_root-server_json start cfg t))

is_empty-append : (xs ys : Bytes) (y : ℕ) → is_empty (xs ++ (y ∷ ys)) ≡ false
is_empty-append [] ys y = refl
is_empty-append (x ∷ xs) ys y = refl

pub is_empty-generate_uuid : (random : Bytes) → is_empty (generate_uuid random) ≡ false
unfolding generate_uuid
is_empty-generate_uuid random = is_empty-append (hex_bytes (take 4 (stamp random))) _ b'-'

kept_first : (random : Bytes) → with_uuid (first_user random ∷ []) ≡ first_user random ∷ []
unfolding with_uuid
kept_first random = rw is_empty-generate_uuid

-- No file, in a directory that can be written.
abbrev pub missing : Disk
missing = record { content = none; opens = true; writes = true; partial = [] }

-- A first start that can write its file makes one user, and the next start finds the same settings.
pub second_start :
    (other : Bytes → ℤ) (random later : Bytes) (start : ServerConfig)
    → IsTyped start
    → let fresh = record start { users = [] } in
      let first = load_server_config other random missing fresh in
      let second = load_server_config other later first.disk fresh in
      (first.failed ≡ none)
      × (first.created ≡ true)
      × (first.config.users ≡ first_user random ∷ [])
      × (second.failed ≡ none)
      × (second.created ≡ false)
      × (second.config ≡ first.config)
unfolding load_server_config first_start
second_start other random later start t =
    let fresh = record start { users = [] } in
    let made = record start { users = first_user random ∷ [] } in
    let typed : IsTyped made = record {
      port = t.port;
      workers = t.workers;
      tls_port = t.tls_port;
      cert_days = t.cert_days;
    } in
    let found = load_server_config-server_text other later missing fresh made typed in
    (
      refl,
      refl,
      refl,
      ap (λ l. l.failed) found,
      ap (λ l. l.created) found,
      ap (λ l. l.config) found ∙ ap (λ us. record start { users = us }) (kept_first random),
    )
