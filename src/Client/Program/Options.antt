-- ===== src/Client/Program/Options.antt =====
-- Command lines that are made of options (src/client/client_main.cpp).
use cppvless.Common.{
  ◌%◌, ◌^◌, not, ◌&&◌, is_empty, inl, inr, Bool-cases, ◌≡◌, sym, subst, append-nil, arith, refl, ap,
  ◌∙◌, Bool, true, List, [], ◌∷◌, ◌++◌, Bytes, equal, Option, none, some, codes,
}
use cppvless.Common.Int.{ℤ}
use cppvless.Vless.Validator.{parse_uuid}
use cppvless.Config.Settings.{ClientConfig, default_client}
use cppvless.Config.Load.{load_client_config}
use cppvless.Client.RemoteAddress.{from_string}
use cppvless.Client.Program.{
  Started, or_else, or_mapped, apply_cli_overrides, with_uuid, started_with, config_path_of,
  client_config, configured, client_main, Cli, no_options, to_uint32, at_least_one, takes, sets,
  kind_of, parse_args,
}

-- An option with its value.
pub data Word : Type 0 where
  config socks5_port remote uuid log log_file workers : Bytes → Word
  tls tls_insecure : Word

abbrev pub words : List Word → List Bytes
words [] = []
words (config v ∷ os) = codes "--config" ∷ v ∷ words os
words (socks5_port v ∷ os) = codes "--socks5-port" ∷ v ∷ words os
words (remote v ∷ os) = codes "--remote" ∷ v ∷ words os
words (uuid v ∷ os) = codes "--uuid" ∷ v ∷ words os
words (log v ∷ os) = codes "--log" ∷ v ∷ words os
words (log_file v ∷ os) = codes "--log-file" ∷ v ∷ words os
words (workers v ∷ os) = codes "--workers" ∷ v ∷ words os
words (tls ∷ os) = codes "--tls" ∷ words os
words (tls_insecure ∷ os) = codes "--tls-insecure" ∷ words os

module _ (atoi : Bytes → ℤ) where
  abbrev pub meaning : Word → Cli → Cli
  meaning (config v) c = record c { config_path = v }
  meaning (socks5_port v) c = record c { socks5_port = some (to_uint32 (atoi v)) }
  meaning (remote v) c = record c { remote = some v }
  meaning (uuid v) c = record c { uuid = some v }
  meaning (log v) c = record c { log_level = some v }
  meaning (log_file v) c = record c { log_file = v }
  meaning (workers v) c = record c { workers = some (at_least_one (to_uint32 (atoi v))) }
  meaning tls c = record c { tls_enabled = true }
  meaning tls_insecure c = record c { tls_insecure = true }

  abbrev pub all_meant : List Word → Cli → Cli
  all_meant [] c = c
  all_meant (o ∷ os) c = all_meant os (meaning o c)

  sets_on :
      (arg : Bytes) (f : Cli → Cli) (c : Cli) (rest : List Bytes)
      → kind_of atoi arg ≡ sets f
      → parse_args atoi c (arg ∷ rest) ≡ parse_args atoi (f c) rest
  unfolding parse_args
  sets_on arg f c [] e = rw (e, parse_args) refl
  sets_on arg f c (v ∷ rest) e = rw (e, parse_args) refl

  takes_on :
      (arg v : Bytes) (f : Bytes → Cli → Cli) (c : Cli) (rest : List Bytes)
      → kind_of atoi arg ≡ takes f
      → parse_args atoi c (arg ∷ v ∷ rest) ≡ parse_args atoi (f v c) rest
  unfolding parse_args
  takes_on arg v f c rest e = rw (e, parse_args) refl

  -- Any sequence of options in front of other arguments is read, each with its meaning, so that a
  -- later one replaces an earlier one.
  pub parse_args-words :
      (os : List Word) (c : Cli) (rest : List Bytes)
      → parse_args atoi c (words os ++ rest) ≡ parse_args atoi (all_meant os c) rest
  unfolding kind_of equal
  parse_args-words [] c rest = refl
  parse_args-words (config v ∷ os) c rest = takes_on _ v _ c _ refl ∙ parse_args-words os _ rest
  parse_args-words (socks5_port v ∷ os) c rest =
      takes_on _ v _ c _ refl ∙ parse_args-words os _ rest
  parse_args-words (remote v ∷ os) c rest = takes_on _ v _ c _ refl ∙ parse_args-words os _ rest
  parse_args-words (uuid v ∷ os) c rest = takes_on _ v _ c _ refl ∙ parse_args-words os _ rest
  parse_args-words (log v ∷ os) c rest = takes_on _ v _ c _ refl ∙ parse_args-words os _ rest
  parse_args-words (log_file v ∷ os) c rest = takes_on _ v _ c _ refl ∙ parse_args-words os _ rest
  parse_args-words (workers v ∷ os) c rest = takes_on _ v _ c _ refl ∙ parse_args-words os _ rest
  parse_args-words (tls ∷ os) c rest = sets_on _ _ c _ refl ∙ parse_args-words os _ rest
  parse_args-words (tls_insecure ∷ os) c rest = sets_on _ _ c _ refl ∙ parse_args-words os _ rest

-- What the client starts with, given the options and what the file holds.
pub record IsStarted (cli : Cli) (file : ClientConfig) (has_tls : Bool) (s : Started) : Type 0 where
  pub port : s.config.socks5_port ≡ or_mapped (λ p. p % 2 ^ 16) cli.socks5_port file.socks5_port
  pub remote_text : s.config.remote ≡ or_else cli.remote file.remote
  pub remote : s.remote ≡ from_string s.config.remote
  pub user : parse_uuid s.config.uuid ≡ some s.user
  pub secured : s.config.tls_enabled ≡ true → has_tls ≡ true

with_uuid-socks5_port : (cfg : ClientConfig) → (with_uuid cfg).socks5_port ≡ cfg.socks5_port
unfolding with_uuid
with_uuid-socks5_port cfg = elim (Bool-cases (is_empty cfg.uuid)) [
  | inl e ↦ simp e
  | inr e ↦ simp e
]

with_uuid-remote : (cfg : ClientConfig) → (with_uuid cfg).remote ≡ cfg.remote
unfolding with_uuid
with_uuid-remote cfg = elim (Bool-cases (is_empty cfg.uuid)) [ inl e ↦ simp e | inr e ↦ simp e ]

started_with-IsStarted :
    (cli : Cli) (file cfg : ClientConfig) (has_tls : Bool) (o : Option Bytes) (s : Started)
    → cfg ≡ with_uuid (apply_cli_overrides cli file)
    → parse_uuid cfg.uuid ≡ o
    → started_with has_tls cfg o ≡ some s
    → IsStarted cli file has_tls s
unfolding started_with apply_cli_overrides
started_with-IsStarted cli file cfg has_tls none s c p e = absurd cc
started_with-IsStarted cli file cfg has_tls (some user) s c p e =
    elim (Bool-cases (cfg.tls_enabled && not has_tls)) [
      | inl t ↦ absurd (let e' : none ≡ some s = (simp t at e) in cc)
      | inr t ↦
          let e' : some (record { config = cfg; remote = from_string cfg.remote; user = user })
              ≡ some s =
            (simp t at e) in
          let is : record { config = cfg; remote = from_string cfg.remote; user = user } ≡ s = cc in
          subst (IsStarted cli file has_tls) is (record {
            port = ap (λ x. x.socks5_port) c ∙ with_uuid-socks5_port (apply_cli_overrides cli file);
            remote_text = ap (λ x. x.remote) c ∙ with_uuid-remote (apply_cli_overrides cli file);
            remote = refl;
            user = p;
            secured = λ w. ground arith;
          })
    ]

module _ (atoi other : Bytes → ℤ) (read_file : Bytes → Option Bytes) where
  -- When the client starts with any sequence of options, its port and remote are those of the last
  -- options for them, or else of the configuration file, whose path is that of the options, the
  -- environment or the default; the host and the port of the remote are read from its text, the
  -- user is a UUID, and with TLS there is a context.
  pub client_main-IsStarted :
      (os : List Word) (env : Bytes) (has_tls : Bool) (s : Started)
      → client_main atoi other read_file env has_tls (words os) ≡ some s
      → let cli = all_meant atoi os no_options in
        IsStarted cli
          (load_client_config other (read_file (config_path_of cli env)) default_client).0
          has_tls
          s
  unfolding client_main client_config
  client_main-IsStarted os env has_tls s e =
      let cli = all_meant atoi os no_options in
      let read : parse_args atoi no_options (words os) ≡ some cli =
        ap (parse_args atoi no_options) (sym (append-nil (words os)))
        ∙ parse_args-words atoi os no_options []
        ∙ unfold parse_args in refl in
      started_with-IsStarted cli _ (client_config atoi other read_file env cli) has_tls _ s refl
        refl (ap (configured atoi other read_file env has_tls) (sym read) ∙ e)
