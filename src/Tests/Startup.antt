-- ===== src/Tests/Startup.antt =====
-- A start of the process on a small configuration.
use nebari_landing.Base.{
  ℕ, String, Bool, true, false, Option, none, some, List, [], ◌∷◌, ◌≡◌, ◌⊎◌, ◌↔◌, inl, inr, refl,
  Memᴰ, pos, str_eq, if◌then◌else◌, split_on, trim_space,
}
use nebari_landing.Probe.{passed}
use nebari_landing.Cache.{ServiceInfo, new_cache, get}
use nebari_landing.Static.{parse}
use nebari_landing.Static.Cards.{IsCard}
use nebari_landing.Watcher.{object, sync_initial}
use nebari_landing.Watcher.Cluster.{Event, added, deleted, run}
use nebari_landing.Api.{Request, Response, World, refuse}
use nebari_landing.Api.Routing.{serve, cors_headers}
use nebari_landing.Startup.Configuration.{
  Settings, Flags, settings_of, split_origins, env_bool, true_words, false_words,
}
use nebari_landing.Startup.{
  Surroundings, Process, start, start_api, web_api, isolated_runner, load_statics, validator_for,
  process_of,
}
use nebari_landing.Startup.Statics.{card_key, start-keeps_statics}
use nebari_landing.Startup.Wiring.{IsAsked, start-IsWired}
use nebari_landing.Startup.Switches.{env_bool_iff}
use nebari_landing.Startup.Exposure.{start-closes, start-allows}
use nebari_landing.Tests.Memory.{memory}
use nebari_landing.Tests.Static.{url_rules, private_keycloak, decode, no_empty_url, parsed}
use nebari_landing.Tests.Watcher.{objects}
use nebari_landing.Tests.Api.{libraries, moment, world, get_services}

abbrev env : String → String
env name =
    if str_eq name "STATIC_SERVICES"
    then "[...]"
    else if str_eq name "ALLOWED_ORIGINS"
    then "https://a.example, https://b.example"
    else if str_eq name "ENABLE_AUTH"
    then "yes"
    else ""

abbrev no_flags : Flags
no_flags = record {
  port = none;
  keycloak_url = none;
  keycloak_realm = none;
  enable_auth = none;
  debug_mode = none;
  health_interval = none;
  admin_group = none;
  redis_addr = none;
  redis_username = none;
  redis_password = none;
  redis_db = none;
  allowed_origins = none;
  notif_startup = none;
  notif_lifecycle = none;
  notif_retention = none;
  enable_docs = none;
  probe_runner = none;
  probe_runner_url = none;
  static_services = none;
}

abbrev settings : Settings
settings = settings_of (λ t. none) env no_flags

-- The variable ENABLE_AUTH is "yes", and authentication is off.
auth_test : settings.enable_auth ≡ false
unfolding settings_of env_bool nebari_landing.Startup.Configuration.parse_bool
    nebari_landing.Base.has nebari_landing.Base.any
auth_test = refl

abbrev around : Surroundings
around = record {
  env = env;
  kubeconfig = true;
  kubernetes = true;
  redis = true;
  watcher = true;
  synced = true;
  secrets = none;
  create_draft = λ d. none;
}

abbrev running : Process
running =
    process_of around settings (load_statics url_rules (private_keycloak ∷ []) new_cache) none none

started : start url_rules decode around settings ≡ passed (web_api running)
unfolding start start_api validator_for nebari_landing.Startup.set_probe_runner_url settings_of
    env_bool nebari_landing.Startup.Configuration.parse_bool nebari_landing.Base.has
    nebari_landing.Base.any
started = rw parsed refl

configured : parse url_rules decode settings.static_services ≡ inr (private_keycloak ∷ [])
unfolding settings_of
configured = parsed

abbrev visitor : String
visitor = "https://b.example"

no_grants : String → Option (List String)
no_grants n = none

-- Another app arrives and goes while the entry stands.
abbrev events : List (Event running.outlets url_rules objects)
events = added no_grants (object ("a", true)) ∷ deleted (object ("a", true)) ∷ []

start-keeps_statics_example :
    (card : ServiceInfo) × (get
        (card_key private_keycloak)
        (run running.outlets url_rules objects events (
          sync_initial running.outlets url_rules objects no_grants
            (("b", true) ∷ [])
            running.watcher)).cache
      ≡ some card)
    × IsCard private_keycloak card
unfolding nebari_landing.Watcher.as_unstructured
start-keeps_statics_example =
    start-keeps_statics url_rules decode around settings running (private_keycloak ∷ [])
      private_keycloak objects no_grants (("b", true) ∷ []) events no_empty_url started configured
      (Memᴰ.head refl) (refl, tt) (refl, (refl, tt))

start-IsWired_example : IsAsked url_rules around settings (web_api running)
start-IsWired_example = start-IsWired url_rules decode around settings (web_api running) started

-- With PROBE_RUNNER=true the process has no part of the web API.
runner_test :
    start url_rules decode around (record settings { probe_runner = true })
    ≡ passed (isolated_runner (pos 8080))
unfolding start settings_of nebari_landing.Startup.Configuration.env_int
runner_test = refl

env_bool_iff_example : (env_bool env "ENABLE_AUTH" false ≡ true) ↔ (
    Memᴰ (env "ENABLE_AUTH") true_words
    ⊎ ((false ≡ true) × (¬ Memᴰ (env "ENABLE_AUTH") false_words)))
env_bool_iff_example = env_bool_iff env "ENABLE_AUTH" false

abbrev no_docs : Request → Response
no_docs r = refuse 500

abbrev debug_request : Request
debug_request = record get_services { path = "/api/v1/debug"; origin = "https://b.example" }

no_debug : settings.debug_mode ≡ false
unfolding settings_of env_bool
no_debug = refl

start-closes_example :
    serve memory libraries running.handler moment (pos 60) no_docs debug_request world ≡ (
      world,
      cors_headers (split_origins settings.allowed_origins) debug_request.origin,
      refuse 404,
    )
start-closes_example =
    start-closes memory libraries moment (pos 60) no_docs url_rules decode around settings running
      debug_request world started (inl (no_debug, refl)) refl

answered :
    (serve memory libraries running.handler moment
      (pos 60)
      no_docs
      debug_request
      world).1.allow_origin
    ≡ some visitor
unfolding split_origins settings_of nebari_landing.Startup.Configuration.env_str serve
    nebari_landing.Startup.handler_for cors_headers nebari_landing.Api.Routing.allow_all
    nebari_landing.Api.Routing.with_allowed_origins nebari_landing.Base.split_on trim_space
    nebari_landing.Base.trim_end nebari_landing.Base.trim_start nebari_landing.Base.keep
    nebari_landing.Base.has nebari_landing.Base.any nebari_landing.Api.Routing.route
    nebari_landing.Api.Routing.new_handler nebari_landing.Startup.Configuration.env_bool
answered = refl

start-allows_example :
    ((split_origins settings.allowed_origins ≡ "*" ∷ []) × (visitor ≡ "*"))
    ⊎ ((visitor ≡ debug_request.origin)
        × ((part : String) × Memᴰ part (split_on b',' settings.allowed_origins)
            × (debug_request.origin ≡ trim_space part)))
start-allows_example =
    start-allows memory libraries moment (pos 60) no_docs url_rules decode around settings running
      debug_request world visitor started answered
