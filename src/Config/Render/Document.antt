-- ===== src/Config/Render/Document.antt =====
-- The parser on the whole text that `writeServerConfig` writes (src/common/config.cpp).
use cppvless.Common.{
  ℕ, zero, suc, ◌+◌, ◌*◌, ◌^◌, ◌≤◌, ◌≡◌, refl, ap, ◌∙◌, true, List, [], ◌∷◌, ◌++◌, arith, Bytes,
  Bool-cases, inl, inr, All, length, length-append, Result, ok, ◌>>=◌, codes,
}
use cppvless.Common.Int.{ℤ, pos}
use cppvless.Config.Settings.{UserConfig, TlsConfigData, ServerConfig}
use cppvless.Config.Json.{
  Json, Items, bool, string, object, array, field, item, no_fields, no_items,
}
use cppvless.Config.Json.Number.{magnitude}
use cppvless.Config.Json.Text.{JsonError, is_space, skip_ws}
use cppvless.Config.Json.Parser.{
  separator, open_array, open_object, parse_value, parse_items, finish, parse,
}
use cppvless.Config.Render.{
  newline, quoted, number, boolean, tls_text, user_text, users_loop, users_text, server_text,
}
use cppvless.Config.Render.Numbers.{stops}
use cppvless.Config.Render.Reads.{
  Reads, Reads-weaken, quoted-Reads, boolean-Reads, number-Reads, field_next, field_last,
  object-Reads,
}

abbrev pub user_json : UserConfig → Json
user_json u =
    object (field (codes "uuid") (string u.uuid) (field (codes "name") (string u.name) no_fields))

abbrev pub users_json : List UserConfig → Items
users_json [] = no_items
users_json (u ∷ us) = item (user_json u) (users_json us)

abbrev pub tls_json : TlsConfigData → Json
tls_json tls = object (
    field (codes "enabled") (bool tls.enabled) (
      field (codes "port") (Json.number (pos tls.port)) (
        field (codes "cert_file") (string tls.cert_file) (
          field (codes "key_file") (string tls.key_file) (
            field (codes "cert_dir") (string tls.cert_dir)
              (field (codes "cert_days") (Json.number tls.cert_days) no_fields))))))

abbrev pub server_json : ServerConfig → Json
server_json cfg = object (
    field (codes "port") (Json.number (pos cfg.port)) (
      field (codes "host") (string cfg.host) (
        field (codes "log_level") (string cfg.log_level) (
          field (codes "workers") (Json.number cfg.workers) (
            field (codes "remark") (string cfg.remark) (
              field (codes "tls") (tls_json cfg.tls)
                (field (codes "users") (array (users_json cfg.users)) no_fields)))))))

-- Integers that a `double` holds exactly.
pub record IsExact (cfg : ServerConfig) : Type 0 where
  pub port : cfg.port ≤ 2 ^ 53
  pub workers : magnitude cfg.workers ≤ 2 ^ 53
  pub tls_port : cfg.tls.port ≤ 2 ^ 53
  pub cert_days : magnitude cfg.tls.cert_days ≤ 2 ^ 53

abbrev Blanks : Bytes → Type 0
Blanks = All (λ c. is_space c ≡ true)

inner_spaces : Blanks (newline ∷ codes "    ")
inner_spaces = (refl, (refl, (refl, (refl, (refl, tt)))))

spaces : Blanks (newline ∷ codes "  ")
spaces = (refl, (refl, (refl, tt)))

skip_ws-skip_ws : (text : Bytes) → skip_ws (skip_ws text) ≡ skip_ws text
unfolding skip_ws
skip_ws-skip_ws [] = refl
skip_ws-skip_ws (c ∷ cs) = elim (Bool-cases (is_space c)) [
  | inl e ↦ rw e (skip_ws-skip_ws cs)
  | inr e ↦ rw (e, e)
]

length-users_loop :
    (us : List UserConfig) (r : Bytes) → length us + length r ≤ length (users_loop us r)
unfolding users_loop user_text
length-users_loop [] r = omega arith
length-users_loop (u ∷ []) r = omega (arith, length-append {0})
length-users_loop (u ∷ w ∷ us) r = omega (arith, length-append {0}, length-users_loop (w ∷ us) r)

length-tls_text : (tls : TlsConfigData) (r : Bytes) → length r ≤ length (tls_text tls r)
unfolding tls_text
length-tls_text tls r = omega (arith, length-append {0})

length-server_text : (cfg : ServerConfig) → 9 + length cfg.users ≤ length (server_text cfg)
unfolding server_text users_text
length-server_text cfg = omega (
  arith,
  length-append {0},
  length-users_loop cfg.users (codes "  ]" ++ (newline ∷ b'}' ∷ newline ∷ [])),
)

skip_ws-server_text : (cfg : ServerConfig) → skip_ws (server_text cfg) ≡ server_text cfg
unfolding server_text skip_ws
skip_ws-server_text cfg = refl

module _ (other : Bytes → ℤ) where
  user-Reads :
      (k : ℕ) (u : UserConfig) → Reads other (suc (suc (suc (suc k)))) (user_text u) (user_json u)
  unfolding user_text open_object separator
  user-Reads k u = record { solid = λ rest. refl; reads = reads }
    where
      reads :
          (f : ℕ) (rest : Bytes)
          → suc (suc (suc (suc k))) ≤ f
          → stops rest ≡ true
          → parse_value f other (user_text u rest) ≡ ok (user_json u, rest)
      reads f rest h s =
          object-Reads other (suc (suc (suc k))) f _ _ rest _
            (field_next other (suc (suc k)) [] (codes "uuid") (quoted u.uuid) _ _ _ rest tt refl
              (quoted-Reads other (suc k) u.uuid)
              (field_last other (suc k) (32 ∷ []) (codes "name") (quoted u.name) _ (b'}' ∷ rest)
                rest (refl, tt) refl (quoted-Reads other k u.name) refl refl))
            h (λ p. refl)

  tls-Reads :
      (k : ℕ) (tls : TlsConfigData)
      → tls.port ≤ 2 ^ 53
      → magnitude tls.cert_days ≤ 2 ^ 53
      → Reads other (suc (suc (suc (suc (suc (suc (suc (suc k)))))))) (tls_text tls) (tls_json tls)
  unfolding tls_text open_object separator
  tls-Reads k tls p d = record { solid = λ rest. refl; reads = reads }
    where
      indent : Bytes
      indent = newline ∷ codes "    "

      reads :
          (f : ℕ) (rest : Bytes)
          → suc (suc (suc (suc (suc (suc (suc (suc k))))))) ≤ f
          → stops rest ≡ true
          → parse_value f other (tls_text tls rest) ≡ ok (tls_json tls, rest)
      reads f rest h s =
          object-Reads other _ f _ _ rest _
            (field_next other _ [] (codes "enabled") (boolean tls.enabled) _ _ _ rest tt refl
              (boolean-Reads other _ tls.enabled)
              (field_next other _ indent (codes "port") (number (pos tls.port)) _ _ _ rest
                inner_spaces refl (number-Reads other _ (pos tls.port) p)
                (field_next other _ indent (codes "cert_file") (quoted tls.cert_file) _ _ _ rest
                  inner_spaces refl (quoted-Reads other _ tls.cert_file)
                  (field_next other _ indent (codes "key_file") (quoted tls.key_file) _ _ _ rest
                    inner_spaces refl (quoted-Reads other _ tls.key_file)
                    (field_next other _ indent (codes "cert_dir") (quoted tls.cert_dir) _ _ _ rest
                      inner_spaces refl (quoted-Reads other _ tls.cert_dir)
                      (field_last other _ indent (codes "cert_days") (number tls.cert_days) _ _ rest
                        inner_spaces refl (number-Reads other k tls.cert_days d) refl refl))))))
            h (λ p. refl)

  user_last :
      (f : ℕ) (u : UserConfig) (r : Bytes)
      → 5 ≤ f
      → parse_items f other (user_text u (newline ∷ (codes "  ]" ++ r)))
        ≡ ok (users_json (u ∷ []), r)
  unfolding parse_items
  user_last zero u r h = absurd (omega arith)
  user_last (suc f) u r h = rw ((user-Reads 0 u).solid (newline ∷ (codes "  ]" ++ r))) (
      rw ((user-Reads 0 u).reads f (newline ∷ (codes "  ]" ++ r)) (omega arith) refl)
        (unfold separator in refl))

  user_next :
      (f : ℕ) (u : UserConfig) (text r : Bytes) (vs : Items)
      → 4 ≤ f
      → parse_items f other text ≡ ok (vs, r)
      → parse_items (suc f) other (user_text u (b',' ∷ text)) ≡ ok (item (user_json u) vs, r)
  unfolding parse_items
  user_next f u text r vs h more =
      rw ((user-Reads 0 u).solid (b',' ∷ text))
        (rw ((user-Reads 0 u).reads f (b',' ∷ text) h refl) (unfold separator in rw more))

  -- Blanks in front of the items do not matter.
  parse_items_ws :
      (f : ℕ) (text text' : Bytes)
      → skip_ws text ≡ skip_ws text'
      → parse_items f other text ≡ parse_items f other text'
  unfolding parse_items
  parse_items_ws zero text text' e = refl
  parse_items_ws (suc f) text text' e = rw e

  users_loop-Reads :
      (us : List UserConfig) (u : UserConfig) (f : ℕ) (r : Bytes)
      → 5 + length us ≤ f
      → parse_items f other (users_loop (u ∷ us) (codes "  ]" ++ r)) ≡ ok (users_json (u ∷ us), r)
  unfolding users_loop skip_ws
  users_loop-Reads [] u f r h =
      parse_items_ws f _ (user_text u (newline ∷ (codes "  ]" ++ r))) refl
      ∙ user_last f u r (omega arith)
  users_loop-Reads (w ∷ us) u zero r h = absurd (omega arith)
  users_loop-Reads (w ∷ us) u (suc f) r h =
      parse_items_ws (suc f) _
        (user_text u (b',' ∷ newline ∷ users_loop (w ∷ us) (codes "  ]" ++ r))) refl
      ∙ user_next f u _ r _ (omega arith) (
          parse_items_ws f _ (users_loop (w ∷ us) (codes "  ]" ++ r)) refl
          ∙ users_loop-Reads us w f r (omega arith))

  open_array-users :
      (p : Bytes → Result JsonError (Items × Bytes)) (us : List UserConfig) (u : UserConfig)
      (r : Bytes)
      → open_array p (newline ∷ users_loop (u ∷ us) r)
        ≡ (p (skip_ws (users_loop (u ∷ us) r)) >>= λ (vs, rest). ok (array vs, rest))
  unfolding open_array users_loop
  open_array-users p [] u r = refl
  open_array-users p (w ∷ us) u r = refl

  users-Reads :
      (k : ℕ) (us : List UserConfig)
      → 5 + length us ≤ k
      → Reads other (suc k) (users_text us) (array (users_json us))
  users-Reads k us n = record {
    solid = λ rest. unfold users_text skip_ws in refl;
    reads = reads us n;
  }
    where
      reads :
          (us : List UserConfig)
          → 5 + length us ≤ k
          → (f : ℕ) (rest : Bytes) → suc k ≤ f
          → stops rest ≡ true
          → parse_value f other (users_text us rest) ≡ ok (array (users_json us), rest)
      reads us n zero rest h s = absurd (omega arith)
      reads [] n (suc f) rest h s = unfold parse_value users_text open_array in refl
      reads (u ∷ us) n (suc f) rest h s =
          unfold parse_value users_text in
          let items : parse_items f other (skip_ws (users_loop (u ∷ us) (codes "  ]" ++ rest)))
              ≡ ok (users_json (u ∷ us), rest) =
            parse_items_ws f _ (users_loop (u ∷ us) (codes "  ]" ++ rest)) (skip_ws-skip_ws _)
            ∙ users_loop-Reads us u f rest (omega arith) in
          open_array-users (parse_items f other) us u (codes "  ]" ++ rest)
          ∙ ap {B = Result JsonError (Json × Bytes)} (λ x. x >>= λ (vs, end). ok (array vs, end))
              items

  server_text-Reads :
      (k : ℕ) (cfg : ServerConfig)
      → IsExact cfg
      → 8 + length cfg.users ≤ k
      → (f : ℕ) → suc (suc (suc (suc (suc (suc (suc (suc (suc k)))))))) ≤ f
      → parse_value f other (server_text cfg) ≡ ok (server_json cfg, newline ∷ [])
  unfolding server_text open_object separator
  server_text-Reads k cfg x n f h =
      object-Reads other _ f _ _ (newline ∷ []) _
        (field_next other _ [] (codes "port") (number (pos cfg.port)) _ _ _ (newline ∷ []) tt refl
          (number-Reads other _ (pos cfg.port) x.port)
          (field_next other _ indent (codes "host") (quoted cfg.host) _ _ _ (newline ∷ []) spaces
            refl (quoted-Reads other _ cfg.host)
            (field_next other _ indent (codes "log_level") (quoted cfg.log_level) _ _ _
              (newline ∷ []) spaces refl (quoted-Reads other _ cfg.log_level)
              (field_next other _ indent (codes "workers") (number cfg.workers) _ _ _ (newline ∷ [])
                spaces refl (number-Reads other _ cfg.workers x.workers)
                (field_next other _ indent (codes "remark") (quoted cfg.remark) _ _ _ (newline ∷ [])
                  spaces refl (quoted-Reads other _ cfg.remark)
                  (field_next other (suc (suc k)) indent (codes "tls") (tls_text cfg.tls) _ _ _
                    (newline ∷ []) spaces refl
                    (Reads-weaken other 8 _ _ _ (omega arith)
                      (tls-Reads 0 cfg.tls x.tls_port x.cert_days))
                    (field_last other (suc k) indent (codes "users") (users_text cfg.users) _ _
                      (newline ∷ []) spaces refl (users-Reads k cfg.users (omega arith)) refl
                      refl)))))))
        h (λ p. refl)
    where
      indent : Bytes
      indent = newline ∷ codes "  "

  -- The text of a configuration is read as that configuration.
  pub parse-server_text :
      (cfg : ServerConfig) → IsExact cfg → parse other (server_text cfg) ≡ ok (server_json cfg)
  unfolding parse
  parse-server_text cfg x = rw (skip_ws-server_text cfg) (
      rw
        (server_text-Reads (8 + length cfg.users) cfg x (omega arith)
          (suc (2 * length (server_text cfg))) (omega (arith, length-server_text cfg)))
        (unfold finish skip_ws in refl))
