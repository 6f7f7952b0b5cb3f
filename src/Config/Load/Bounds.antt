-- ===== src/Config/Load/Bounds.antt =====
-- What no file can break (src/common/config.cpp): ranges and users, and the errors.
use cppvless.Common.{
  ℕ, ◌-◌, ◌%◌, ◌^◌, ◌<◌, ◌≡◌, ◌≢◌, refl, inl, inr, ◌↔◌, false, List, [], ◌∷◌, ◌++◌, arith, Bytes,
  All, All-append, is_empty, ltb, Bool-cases, Option, none, some, Result, ok, err, codes,
}
use cppvless.Common.Int.{ℤ, pos, negsuc}
use cppvless.Config.Settings.{UserConfig, TlsConfigData, ServerConfig, ClientConfig}
use cppvless.Config.Json.{
  Json, Items, Fields, null, bool, number, string, array, object, no_items, item, get,
}
use cppvless.Config.Json.Text.{JsonError}
use cppvless.Config.Json.Parser.{parse}
use cppvless.Config.Load.{
  to_uint16, to_int32, signed32, number_or, string_or, load_tls, load_user, load_items, load_users,
  load_server_root, Disk, write_server_config, Loaded, first_start, first_user, load_document,
  load_server_config, ClientWarning, load_client_document, load_client_config,
}
use cppvless.Config.Load.Written.{IsInt32, IsTyped, is_empty-generate_uuid}

to_uint16-lt : (z : ℤ) → to_uint16 z < 2 ^ 16
unfolding to_uint16
to_uint16-lt (pos n) = omega arith
to_uint16-lt (negsuc n) = omega arith

signed32-IsInt32 : (u : ℕ) → u < 2 ^ 32 → IsInt32 (signed32 u)
signed32-IsInt32 u h = elim (Bool-cases (ltb u (2 ^ 31))) [
  | inl e ↦ rw e (ground arith)
  | inr e ↦ rw e (ground arith)
]

to_int32-IsInt32 : (z : ℤ) → IsInt32 (to_int32 z)
unfolding to_int32
to_int32-IsInt32 (pos n) = signed32-IsInt32 (n % 2 ^ 32) (omega arith)
to_int32-IsInt32 (negsuc n) = signed32-IsInt32 (2 ^ 32 - 1 - n % 2 ^ 32) (omega arith)

number_or-All :
    {A : Type 0} (P : A → Type 0) (old : A) (use_it : ℤ → A) (v : Option Json)
    → P old
    → ((z : ℤ) → P (use_it z))
    → P (number_or old use_it v)
number_or-All P old use_it (some (number z)) h g = g z
number_or-All P old use_it (some null) h g = h
number_or-All P old use_it (some (bool b)) h g = h
number_or-All P old use_it (some (string s)) h g = h
number_or-All P old use_it (some (array vs)) h g = h
number_or-All P old use_it (some (object fs)) h g = h
number_or-All P old use_it none h g = h

load_tls-IsTyped :
    (tls : TlsConfigData) (v : Option Json)
    → tls.port < 2 ^ 16
    → IsInt32 tls.cert_days
    → ((load_tls tls v).port < 2 ^ 16) × IsInt32 (load_tls tls v).cert_days
unfolding load_tls
load_tls-IsTyped tls (some (object fs)) p d = (
  number_or-All (λ n. n < 2 ^ 16) tls.port to_uint16 _ p to_uint16-lt,
  number_or-All IsInt32 tls.cert_days to_int32 _ d to_int32-IsInt32,
)
load_tls-IsTyped tls _ p d = (p, d)

abbrev pub HasUuid : UserConfig → Type 0
HasUuid u = is_empty u.uuid ≡ false

load_user-HasUuid : (v : Json) → All HasUuid (load_user v)
unfolding load_user
load_user-HasUuid (object fs) =
    elim (Bool-cases (is_empty (string_or [] (get (codes "uuid") (object fs))))) [
      | inl e ↦ rw e tt
      | inr e ↦ rw e (e, tt)
    ]
load_user-HasUuid _ = tt

load_items-HasUuid : (vs : Items) → All HasUuid (load_items vs)
unfolding load_items
load_items-HasUuid no_items = tt
load_items-HasUuid (item v vs) =
    All-append HasUuid _ _ (load_user-HasUuid v) (load_items-HasUuid vs)

load_users-HasUuid :
    (users : List UserConfig) (v : Option Json)
    → All HasUuid users
    → All HasUuid (load_users users v)
unfolding load_users
load_users-HasUuid users (some (array vs)) h = All-append HasUuid users _ h (load_items-HasUuid vs)
load_users-HasUuid users _ h = h

load_server_root-IsTyped :
    (cfg : ServerConfig) (root : Json) → IsTyped cfg → IsTyped (load_server_root cfg root)
unfolding load_server_root
load_server_root-IsTyped cfg root t =
    let tls = load_tls-IsTyped cfg.tls (get (codes "tls") root) t.tls_port t.cert_days in
    record {
      port = number_or-All (λ n. n < 2 ^ 16) cfg.port to_uint16 _ t.port to_uint16-lt;
      workers = number_or-All IsInt32 cfg.workers to_int32 _ t.workers to_int32-IsInt32;
      tls_port = tls.0;
      cert_days = tls.1;
    }

-- What the program may rely on after a start.
abbrev pub IsUsable : ServerConfig → Type 0
IsUsable cfg = IsTyped cfg × All HasUuid cfg.users

load_document-IsUsable :
    (disk : Disk) (cfg : ServerConfig) (r : Result JsonError Json)
    → IsUsable cfg
    → IsUsable (load_document disk cfg r).config
unfolding load_document
load_document-IsUsable disk cfg (ok (object fs)) u = (
  load_server_root-IsTyped cfg (object fs) u.0,
  unfold load_server_root in load_users-HasUuid cfg.users (get (codes "users") (object fs)) u.1,
)
load_document-IsUsable disk cfg _ u = u

first_start_config :
    (random : Bytes) (disk : Disk) (cfg : ServerConfig)
    → (first_start random disk cfg).config
      ≡ record cfg { users = cfg.users ++ first_user random ∷ [] }
unfolding first_start write_server_config
first_start_config random disk cfg = ground arith

first_start-IsUsable :
    (random : Bytes) (disk : Disk) (cfg : ServerConfig)
    → IsUsable cfg
    → IsUsable (first_start random disk cfg).config
first_start-IsUsable random disk cfg u = rw (first_start_config random disk cfg) (
  record {
    port = u.0.port;
    workers = u.0.workers;
    tls_port = u.0.tls_port;
    cert_days = u.0.cert_days;
  },
  All-append HasUuid cfg.users (first_user random ∷ []) u.1 (is_empty-generate_uuid random, tt),
)

-- Whatever the file holds, and whether or not it can be read or written.
pub load_server_config-IsUsable :
    (other : Bytes → ℤ) (random : Bytes) (disk : Disk) (start : ServerConfig)
    → IsUsable start
    → IsUsable (load_server_config other random disk start).config
unfolding load_server_config
load_server_config-IsUsable other random disk start u = go disk.content
  where
    go :
        (content : Option Bytes)
        → IsUsable
            (let l : Loaded = elim content [
              | none ↦ first_start random disk start
              | some text ↦ load_document disk start (parse other text)
            ] in
              l).config
    go none = first_start-IsUsable random disk start u
    go (some text) = load_document-IsUsable disk start (parse other text) u

-- The file is there and holds an object.
abbrev pub HoldsObject : (Bytes → ℤ) → Option Bytes → Type 0
HoldsObject other content =
    (text : Bytes) × (fs : Fields) × (content ≡ some text) × (parse other text ≡ ok (object fs))

abbrev Warned : ClientConfig × Option ClientWarning → ClientConfig → Type 0 → Type 0
Warned r cfg Good = ((r.1 ≡ none) ↔ Good) × (r.1 ≢ none → r.0 ≡ cfg)

load_client_document-Warned :
    (cfg : ClientConfig) (r : Result JsonError Json)
    → Warned (load_client_document cfg r) cfg ((fs : Fields) × (r ≡ ok (object fs)))
unfolding load_client_document
load_client_document-Warned cfg (ok (object fs)) =
    ((λ h. (fs, refl), λ g. refl), λ h. absurd (h refl))
load_client_document-Warned cfg (err e) = ((λ h. cc, λ (fs, g). cc), λ h. refl)
load_client_document-Warned cfg (ok _) = ((λ h. cc, λ (fs, g). cc), λ h. refl)

-- No warning comes exactly if the file holds an object; with a warning nothing is changed.
pub load_client_config-Warned :
    (other : Bytes → ℤ) (content : Option Bytes) (cfg : ClientConfig)
    → (((load_client_config other content cfg).1 ≡ none) ↔ HoldsObject other content)
      × ((load_client_config other content cfg).1 ≢ none
          → (load_client_config other content cfg).0 ≡ cfg)
unfolding load_client_config
load_client_config-Warned other none cfg = ((λ h. cc, λ (text, fs, found, g). cc), λ h. refl)
load_client_config-Warned other (some text) cfg =
    let w = load_client_document-Warned cfg (parse other text) in
    ((λ h. (text, (w.0.0 h).0, refl, (w.0.0 h).1), λ (text', fs, found, g). w.0.1 (fs, cc)), w.1)
