-- ===== src/Keycloak.antt =====
-- internal/keycloak/client.go: the client that adds users to groups. gocloak, the environment, the
-- Kubernetes secret and `strings.EqualFold` are parameters.
pub mod Settings
pub mod Joining
use nebari_landing.Base.{
  String, Bool, true, false, not, ◌||◌, ◌&&◌, Option, none, some, List, [], ◌∷◌, if◌then◌else◌,
  is_blank, GoMap, lookup,
}

-- `Config`
pub record Config : Type 0 where
  pub url : String
  pub realm : String
  pub admin_username : String
  pub admin_password : String

-- An environment variable, or its default where it is unset or empty.
abbrev pub env_or : (String → String) → String → String → String
env_or env name other = if is_blank (env name) then other else env name

abbrev pub default_url : String
default_url = "http://keycloak-keycloakx-http.keycloak.svc.cluster.local:8080"

abbrev pub checked_config : String → String → String → String → Option Config
checked_config url realm user pass =
    if is_blank user || is_blank pass
    then none
    else some (record { url = url; realm = realm; admin_username = user; admin_password = pass })

-- `ConfigFromEnv`, `none` where it returns an error.
unfoldable pub config_from_env : (String → String) → Option Config
config_from_env env =
    checked_config (env_or env "KEYCLOAK_URL" default_url) (env_or env "KEYCLOAK_REALM" "nebari")
      (env "KEYCLOAK_ADMIN_USERNAME") (env "KEYCLOAK_ADMIN_PASSWORD")

abbrev pub second_or : Option String → String → String
second_or none old = old
second_or (some v) old = v

-- A key of the secret, else another one, else what was there.
abbrev pub first_of : Option String → Option String → String → String
first_of none other old = second_or other old
first_of (some v) other old = v

-- `none` is a secret that is not looked up or cannot be read.
abbrev pub secret_or : String → String → Option (GoMap String) → String → String
secret_or key other none old = old
secret_or key other (some entries) old = first_of (lookup key entries) (lookup other entries) old

-- The secret that is read: there is a name and a client. `read` is the answer of the Kubernetes API
-- for a namespace and a name.
abbrev pub secret_read :
    (String → String) → Option (String → String → Option (GoMap String)) → Option (GoMap String)
secret_read env none = none
secret_read env (some read) =
    if is_blank (env "KEYCLOAK_ADMIN_SECRET_NAME")
    then none
    else read (env_or env "KEYCLOAK_ADMIN_SECRET_NAMESPACE" "keycloak")
        (env "KEYCLOAK_ADMIN_SECRET_NAME")

-- `NewFromEnvWithK8sClient`
unfoldable pub new_from_env_with_k8s_client :
    (String → String) → Option (String → String → Option (GoMap String)) → Option Config
new_from_env_with_k8s_client env client =
    let secret = secret_read env client in
    checked_config (env_or env "KEYCLOAK_URL" default_url) (env_or env "KEYCLOAK_REALM" "nebari")
      (secret_or "username" "admin-username" secret (env "KEYCLOAK_ADMIN_USERNAME"))
      (secret_or "password" "admin-password" secret (env "KEYCLOAK_ADMIN_PASSWORD"))

-- The calls of gocloak, on the server: the login as an admin of the realm "master", the ids of the
-- users of exactly a name, the names and ids of the groups that a search finds, a new group, and a
-- membership. A call that fails is `none` or `false`.
pub record Gocloak : Type 1 where
  pub Server : Type 0
  pub login_admin : String → String → Server → Server × Option String
  pub get_users : String → String → String → Server → Server × Option (List String)
  pub get_groups : String → String → String → Server → Server × Option (List (String × String))
  pub create_group : String → String → String → Server → Server × Option String
  pub add_user_to_group : String → String → String → String → Server → Server × Bool

-- The first group of the name, up to case; "" where there is none.
unfoldable pub find_group : (String → String → Bool) → String → List (String × String) → String
find_group equal_fold wanted [] = ""
find_group equal_fold wanted ((name, id) ∷ rest) =
    if equal_fold name wanted then id else find_group equal_fold wanted rest

module _ (G : Gocloak) (equal_fold : String → String → Bool) (cfg : Config) where
  abbrev pub join : String → String → String → G.Server → G.Server × Bool
  join token user group s = G.add_user_to_group token cfg.realm user group s

  abbrev pub join_created : String → String → G.Server × Option String → G.Server × Bool
  join_created token user (s, none) = (s, false)
  join_created token user (s, some id) = join token user id s

  abbrev pub join_found : String → String → String → String → G.Server → G.Server × Bool
  join_found token user group found s =
      if is_blank found
      then join_created token user (G.create_group token cfg.realm group s)
      else join token user found s

  abbrev pub join_searched :
      String → String → String → G.Server × Option (List (String × String)) → G.Server × Bool
  join_searched token user group (s, none) = (s, false)
  join_searched token user group (s, some groups) =
      join_found token user group (find_group equal_fold group groups) s

  abbrev pub join_user : String → String → G.Server × Option (List String) → G.Server × Bool
  join_user token group (s, none) = (s, false)
  join_user token group (s, some []) = (s, false)
  join_user token group (s, some (user ∷ users)) =
      join_searched token user group (G.get_groups token cfg.realm group s)

  abbrev pub join_as : String → String → G.Server × Option String → G.Server × Bool
  join_as username group (s, none) = (s, false)
  join_as username group (s, some token) =
      join_user token group (G.get_users token cfg.realm username s)

  -- `Client.AddUserToGroup`, whether it returns no error; `authenticate` is the login at its start.
  unfoldable pub add_user_to_group : String → String → G.Server → G.Server × Bool
  add_user_to_group username group s =
      join_as username group (G.login_admin cfg.admin_username cfg.admin_password s)
