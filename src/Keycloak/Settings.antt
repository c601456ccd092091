-- ===== src/Keycloak/Settings.antt =====
-- internal/keycloak/client.go: the credentials that the client works with.
use nebari_landing.Base.{
  String, ◌≡◌, refl, subst, inl, inr, Bool, false, ◌||◌, Option, none, some, Bool-cases, is_blank,
  arith, GoMap,
}
use nebari_landing.Keycloak.{
  Config, env_or, default_url, checked_config, config_from_env, secret_read,
  new_from_env_with_k8s_client,
}

-- Nothing that the client needs is empty.
pub record IsComplete (cfg : Config) : Type 0 where
  pub url : is_blank cfg.url ≡ false
  pub realm : is_blank cfg.realm ≡ false
  pub admin_username : is_blank cfg.admin_username ≡ false
  pub admin_password : is_blank cfg.admin_password ≡ false

env_or-full :
    (env : String → String) (name other : String)
    → is_blank other ≡ false
    → is_blank (env_or env name other) ≡ false
env_or-full env name other h = elim (Bool-cases (is_blank (env name))) [
  | inl b ↦ rw b h
  | inr b ↦ rw b b
]

neither : (a b : Bool) → (a || b) ≡ false → (a ≡ false) × (b ≡ false)
neither a b h = ground arith

checked_config-IsComplete :
    (url realm user pass : String) (cfg : Config)
    → is_blank url ≡ false
    → is_blank realm ≡ false
    → checked_config url realm user pass ≡ some cfg
    → IsComplete cfg
checked_config-IsComplete url realm user pass cfg u r h =
    elim (Bool-cases (is_blank user || is_blank pass)) [
      | inl b ↦ cc (rw b at h)
      | inr b ↦
          let same : record {
            url = url;
            realm = realm;
            admin_username = user;
            admin_password = pass;
          }
              ≡ cfg =
            cc (rw b at h) in
          let (no_user, no_pass) = neither (is_blank user) (is_blank pass) b in
          subst IsComplete same
            (record { url = u; realm = r; admin_username = no_user; admin_password = no_pass })
    ]

-- A client is only made with a server, a realm, a user name and a password that are not empty,
-- whatever the environment and the secret hold.
pub new_from_env_with_k8s_client-IsComplete :
    (env : String → String) (client : Option (String → String → Option (GoMap String)))
    → (cfg : Config) → new_from_env_with_k8s_client env client ≡ some cfg
    → IsComplete cfg
unfolding new_from_env_with_k8s_client
new_from_env_with_k8s_client-IsComplete env client cfg h =
    checked_config-IsComplete _ _ _ _ cfg (env_or-full env "KEYCLOAK_URL" default_url refl)
      (env_or-full env "KEYCLOAK_REALM" "nebari" refl) h

-- Where no secret is read, the two ways to make a client agree.
pub new_from_env_with_k8s_client-config_from_env :
    (env : String → String) (client : Option (String → String → Option (GoMap String)))
    → secret_read env client ≡ none
    → new_from_env_with_k8s_client env client ≡ config_from_env env
unfolding new_from_env_with_k8s_client config_from_env
new_from_env_with_k8s_client-config_from_env env client h = rw h refl
