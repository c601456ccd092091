-- ===== src/Startup.antt =====
-- cmd/main.go: the start of the process, from its settings to the parts that it connects. What the
-- Kubernetes client, the Redis client and the informers answer is an argument.
pub mod Configuration
pub mod Options
pub mod Wiring
pub mod Switches
pub mod Statics
pub mod Exposure
use nebari_landing.Base.{
  String, Bool, true, false, not, ◌||◌, Option, none, some, List, [], ◌∷◌, ◌⊎◌, inl, inr,
  if◌then◌else◌, str_eq, is_blank, is_some, ℤ, duration_of_seconds, GoMap,
}
use nebari_landing.Probe.{TargetRules, Url, Check, passed, refused, require, ◌>>=◌, ◌>>◌}
use nebari_landing.Cache.{ServiceCache, new_cache, add}
use nebari_landing.Notification.{Notification, Draft}
use nebari_landing.Static.{Service, ParseError, parse, app_of}
use nebari_landing.Access.{principal_can_access}
use nebari_landing.Hub.{Hub, new_hub, set_access_policy}
use nebari_landing.Auth.{Validator, new_validator, set_issuer_url}
use nebari_landing.Health.{Outputs}
use nebari_landing.Watcher.{Watcher, Outlets}
use nebari_landing.Keycloak.{Config, new_from_env_with_k8s_client}
use nebari_landing.Api.{Handler}
use nebari_landing.Api.Routing.{
  new_handler, with_access_request_store, with_admin_group, with_notification_store,
  with_keycloak_admin_client, with_allowed_origins, with_debug_mode, with_docs_enabled,
  with_ws_ticket_store,
}
use nebari_landing.Startup.Configuration.{Settings, split_origins}

-- The loop of `main` over the static entries.
unfoldable pub load_statics : TargetRules → List Service → ServiceCache → ServiceCache
load_statics rules [] c = c
load_statics rules (s ∷ rest) c = load_statics rules rest (add rules (some (app_of s)) c)

abbrev pub cache_of : TargetRules → ParseError ⊎ List Service → Check ServiceCache
cache_of rules (inl e) = refused "Invalid static services configuration"
cache_of rules (inr services) = passed (load_statics rules services new_cache)

abbrev pub endpoint_of : Option Url → Check (Option Url)
endpoint_of none = refused "invalid health probe runner URL"
endpoint_of (some u) = do
  require (str_eq u.scheme "http" || str_eq u.scheme "https")
      "health probe runner URL must use http or https"
  require (not (is_blank u.host)) "health probe runner URL must include a host"
  passed (some u)

-- The call of `SetProbeRunnerURL`, which is `newRemoteProbeRequester`: the URL of the runner that
-- the probes of NebariApps go through, if one is configured.
unfoldable pub set_probe_runner_url : TargetRules → String → Check (Option Url)
set_probe_runner_url rules raw_url =
    if is_blank raw_url then passed none else endpoint_of (rules.parse_url raw_url)

-- The validator, with its issuer from KEYCLOAK_ISSUER_URL; `none` without authentication.
unfoldable pub validator_for : (String → String) → Settings → Check (Option Validator)
validator_for env s =
    if s.enable_auth
    then (if is_blank s.keycloak_url
        then refused "keycloak-url is required when auth is enabled"
        else passed (
            some (
              set_issuer_url (env "KEYCLOAK_ISSUER_URL")
                (new_validator s.keycloak_url s.keycloak_realm))))
    else passed none

-- An option that is given under a condition.
abbrev pub option_if : Bool → (Handler → Handler) → Handler → Handler
option_if true option h = option h
option_if false option h = h

-- The options that every start gives, and the client of Keycloak, which is nil where it could not be
-- made.
abbrev pub base_handler : Settings → Bool → Handler
base_handler s client = with_ws_ticket_store (
    with_allowed_origins (split_origins s.allowed_origins) (
      option_if client with_keycloak_admin_client (
        with_notification_store (
          with_admin_group s.admin_group
            (with_access_request_store (new_handler s.enable_auth true true))))))

-- `NewHandler` with the list `handlerOpts`.
unfoldable pub handler_for : Settings → Option Config → Handler
handler_for s client =
    option_if s.enable_docs with_docs_enabled
      (option_if s.debug_mode with_debug_mode (base_handler s (is_some client)))

-- What the start relies on: a kubeconfig, a client, Redis, a watcher and its first sync, each of
-- which may fail; the environment; the secrets; and the store of notifications.
pub record Surroundings : Type 0 where
  pub env : String → String
  pub kubeconfig : Bool
  pub kubernetes : Bool
  pub redis : Bool
  pub watcher : Bool
  pub synced : Bool
  pub secrets : Option (String → String → Option (GoMap String))
  pub create_draft : Draft → Option Notification

-- What runs afterwards: the watcher in front of its first listing, with the cache, and the outlets of
-- the watcher and of the health checker; the hub, with its policy; the notification that the start
-- stores and announces, and how long notifications are kept, and the checker's interval, in
-- nanoseconds.
pub record Process : Type 0 where
  pub handler : Handler
  pub hub : Hub
  pub welcome : Option (String × String × String)
  pub retention : ℤ
  pub validator : Option Validator
  pub watcher : Watcher
  pub outlets : Outlets
  pub outputs : Outputs
  pub runner : Option Url
  pub interval : ℤ

abbrev pub watcher_on : ServiceCache → Watcher
watcher_on c = record { cache = c; initial_uids = []; published = []; posted = []; announced = [] }

abbrev pub store_if : Bool → (Draft → Option Notification) → Option (Draft → Option Notification)
store_if true create = some create
store_if false create = none

-- The image, the title and the message of the notification that greets a start.
abbrev pub welcome_notice : String × String × String
welcome_notice = (
  "https://github.com/nebari-dev/nebari-design/blob/main/symbol/Nebari-Symbol.svg?raw=true",
  "Welcome to Nebari!", "User feedback is welcomed! We value your input to improve Nebari.",
)

abbrev pub process_of :
    Surroundings → Settings → ServiceCache → Option Validator → Option Url → Process
process_of around s cache validator runner = record {
  handler = handler_for s (new_from_env_with_k8s_client around.env around.secrets);
  hub = set_access_policy principal_can_access new_hub;
  welcome = if s.notif_startup then some welcome_notice else none;
  retention = s.notif_retention;
  validator = validator;
  watcher = watcher_on cache;
  outlets = record {
    publisher = true;
    create_draft = store_if s.notif_lifecycle around.create_draft;
    notif_publisher = s.notif_lifecycle;
  };
  outputs = record {
    publisher = true;
    notif_publisher = s.notif_lifecycle;
    create_draft = store_if s.notif_lifecycle around.create_draft;
  };
  runner = runner;
  interval = duration_of_seconds s.health_interval;
}

-- The rest of `main`, up to the listening server of the web API. A refusal is `os.Exit(1)` with its
-- message.
unfoldable pub start_api :
    TargetRules → (String → Option (List Service × Bool)) → Surroundings → Settings → Check Process
start_api rules decode around s = do
  require around.kubeconfig "Failed to get kubeconfig"
  require around.kubernetes "Failed to create Kubernetes client"
  cache ← cache_of rules (parse rules decode s.static_services)
  require around.redis "Failed to connect to Redis"
  require around.watcher "Failed to create NebariApp watcher"
  require around.synced "Failed to sync cache"
  validator ← validator_for around.env s
  runner ← set_probe_runner_url rules s.probe_runner_url
  passed (process_of around s cache validator runner)

-- What a process runs: the handler of the isolated probe runner, on a port, or the web API.
pub data Running : Type 0 where
  isolated_runner : ℤ → Running
  web_api : Process → Running

abbrev pub api_up : Check Process → Check Running
api_up (refused reason) = refused reason
api_up (passed p) = passed (web_api p)

-- `main` behind `flag.Parse`.
unfoldable pub start :
    TargetRules → (String → Option (List Service × Bool)) → Surroundings → Settings → Check Running
start rules decode around s =
    if s.probe_runner
    then passed (isolated_runner s.port)
    else api_up (start_api rules decode around s)
