-- ===== src/Startup/Configuration.antt =====
-- cmd/main.go: the settings of the process, from its flags, the environment and the defaults.
-- `time.ParseDuration` is an argument; the flags are those that the package flag found.
use nebari_landing.Base.{
  String, Bool, true, false, not, Option, none, some, List, [], ◌∷◌, if◌then◌else◌, is_blank, has,
  keep, map, or_else, ℤ, pos, ltb_ℤ, atoi, split_on, trim_space,
}

-- `envStr`, for the environment `env`, where an absent variable reads as "".
unfoldable pub env_str : (String → String) → String → String → String
env_str env name def = if is_blank (env name) then def else env name

-- `envInt`
unfoldable pub env_int : (String → String) → String → ℤ → ℤ
env_int env name def = if is_blank (env name) then def else or_else (atoi (env name)) def

abbrev pub true_words : List String
true_words = "1" ∷ "t" ∷ "T" ∷ "TRUE" ∷ "true" ∷ "True" ∷ []

abbrev pub false_words : List String
false_words = "0" ∷ "f" ∷ "F" ∷ "FALSE" ∷ "false" ∷ "False" ∷ []

-- `strconv.ParseBool`
unfoldable pub parse_bool : String → Option Bool
parse_bool s =
    if has s true_words then some true else if has s false_words then some false else none

-- `envBool`
unfoldable pub env_bool : (String → String) → String → Bool → Bool
env_bool env name def = if is_blank (env name) then def else or_else (parse_bool (env name)) def

abbrev pub positive_or : ℤ → Option ℤ → ℤ
positive_or def none = def
positive_or def (some d) = if ltb_ℤ (pos 0) d then d else def

-- `envDuration`, in nanoseconds.
unfoldable pub env_duration : (String → Option ℤ) → (String → String) → String → ℤ → ℤ
env_duration parse env name def =
    if is_blank (env name) then def else positive_or def (parse (env name))

abbrev pub all_if_empty : List String → List String
all_if_empty [] = "*" ∷ []
all_if_empty (o ∷ l) = o ∷ l

-- `splitOrigins`
unfoldable pub split_origins : String → List String
split_origins raw = all_if_empty (keep (λ t. not (is_blank t)) (map trim_space (split_on b',' raw)))

-- The flags that were given.
pub record Flags : Type 0 where
  pub port : Option ℤ
  pub keycloak_url : Option String
  pub keycloak_realm : Option String
  pub enable_auth : Option Bool
  pub debug_mode : Option Bool
  pub health_interval : Option ℤ
  pub admin_group : Option String
  pub redis_addr : Option String
  pub redis_username : Option String
  pub redis_password : Option String
  pub redis_db : Option ℤ
  pub allowed_origins : Option String
  pub notif_startup : Option Bool
  pub notif_lifecycle : Option Bool
  pub notif_retention : Option ℤ
  pub enable_docs : Option Bool
  pub probe_runner : Option Bool
  pub probe_runner_url : Option String
  pub static_services : Option String

-- The variables of `main` behind `flag.Parse`.
pub record Settings : Type 0 where
  pub port : ℤ
  pub keycloak_url : String
  pub keycloak_realm : String
  pub enable_auth : Bool
  pub debug_mode : Bool
  pub health_interval : ℤ
  pub admin_group : String
  pub redis_addr : String
  pub redis_username : String
  pub redis_password : String
  pub redis_db : ℤ
  pub allowed_origins : String
  pub notif_startup : Bool
  pub notif_lifecycle : Bool
  pub notif_retention : ℤ
  pub enable_docs : Bool
  pub probe_runner : Bool
  pub probe_runner_url : String
  pub static_services : String

-- `defaultNotificationRetention`, 72 hours.
abbrev pub default_retention : ℤ
default_retention = pos 259200000000000

-- A flag that was given stands before the environment, and that before the default.
unfoldable pub settings_of : (String → Option ℤ) → (String → String) → Flags → Settings
settings_of parse env f = record {
  port = or_else f.port (env_int env "PORT" (pos 8080));
  keycloak_url = or_else f.keycloak_url (env "KEYCLOAK_URL");
  keycloak_realm = or_else f.keycloak_realm (env_str env "KEYCLOAK_REALM" "main");
  enable_auth = or_else f.enable_auth (env_bool env "ENABLE_AUTH" false);
  debug_mode = or_else f.debug_mode (env_bool env "DEBUG_MODE" false);
  health_interval = or_else f.health_interval (env_int env "HEALTH_INTERVAL" (pos 30));
  admin_group = or_else f.admin_group (env_str env "ADMIN_GROUP" "admin");
  redis_addr = or_else f.redis_addr (env_str env "REDIS_ADDR" "localhost:6379");
  redis_username = or_else f.redis_username (env "REDIS_USERNAME");
  redis_password = or_else f.redis_password (env "REDIS_PASSWORD");
  redis_db = or_else f.redis_db (env_int env "REDIS_DB" (pos 0));
  allowed_origins = or_else f.allowed_origins (env_str env "ALLOWED_ORIGINS" "*");
  notif_startup = or_else f.notif_startup (env_bool env "NOTIFICATIONS_STARTUP" true);
  notif_lifecycle = or_else f.notif_lifecycle (env_bool env "NOTIFICATIONS_LIFECYCLE" true);
  notif_retention =
      or_else f.notif_retention
        (env_duration parse env "NOTIFICATIONS_RETENTION" default_retention);
  enable_docs = or_else f.enable_docs (env_bool env "ENABLE_DOCS" false);
  probe_runner = or_else f.probe_runner (env_bool env "PROBE_RUNNER" false);
  probe_runner_url = or_else f.probe_runner_url (env "HEALTH_PROBE_RUNNER_URL");
  static_services = or_else f.static_services (env "STATIC_SERVICES");
}
