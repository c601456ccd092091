-- ===== src/Probe.antt =====
-- internal/cache/service_cache.go, the health-check half: which probe an app's settings resolve to,
-- and which targets a probe may not reach. `%q`, the label rules of k8s.io/apimachinery and
-- net/url's parsers are parameters, the fields of `TargetRules`.
pub mod Protection
pub mod Resolution
pub mod Reasons
pub mod Steps
pub mod Timing
pub mod Trust
mod Targets
unfoldable pub use Targets.*
use Prim.Native.String
use nebari_landing.Base.{
  ℕ, ◌<◌, String, code, ◌≡◌, Bool, true, false, not, ◌&&◌, ◌||◌, Option, none, some, List, [], ◌∷◌,
  ltb, ◌==◌, if◌then◌else◌, is_some, str_eq, ◌+++◌, is_blank, has_prefix, has_suffix, decimal,
  byte_length, any, has, ℤ, pos, negsuc, ltb_ℤ, eq_ℤ, pos_part, neg_part,
}
use nebari_landing.App.{App, HealthCheck}

-- A step that may refuse the check with a reason.
pub data Check {ℓ} (A : Type ℓ) : Type ℓ where
  passed : A → Check A
  refused : String → Check A

infixl 5 ◌>>=◌ ◌>>◌
abbrev pub ◌>>=◌ {ℓ κ} : {A : Type ℓ} {B : Type κ} → Check A → (A → Check B) → Check B
passed a >>= f = f a
refused r >>= f = refused r

abbrev pub ◌>>◌ {ℓ} : {B : Type ℓ} → Check (Unit {0}) → Check B → Check B
m >> k = m >>= λ _. k

abbrev pub require : Bool → String → Check (Unit {0})
require true r = passed tt
require false r = refused r

abbrev or_refuse : Option String → String → Check String
or_refuse none r = refused r
or_refuse (some p) r = passed p

-- The port that the probe uses: `healthCheck.port`, else the Service's, else 80.
unfoldable pub probe_port : App → HealthCheck → ℤ
probe_port a hc =
    if ltb_ℤ (pos 0) hc.port
    then hc.port
    else if eq_ℤ a.service_port (pos 0)
    then pos 80
    else a.service_port

unfoldable pub probe_service : App → String
probe_service a = if is_blank a.service_name then a.name else a.service_name

unfoldable pub probe_namespace : App → String
probe_namespace a = if is_blank a.service_namespace then a.namespace else a.service_namespace

unfoldable pub interval_of : HealthCheck → ℤ
interval_of hc = clamp_seconds hc.interval_seconds (pos 30) (pos 10) (pos 300)

unfoldable pub timeout_of : HealthCheck → ℤ
timeout_of hc =
    let timeout = clamp_seconds hc.timeout_seconds (pos 5) (pos 1) (pos 30) in
    if ltb_ℤ (interval_of hc) timeout then interval_of hc else timeout

unfoldable pub target_url : String → String → ℤ → String → String
target_url service namespace port path =
    "http://" +++ service +++ "." +++ namespace +++ ":" +++ show_int port +++ path

-- The branch of an operator's own entry.
unfoldable pub static_config : HealthCheck → Check HealthCheckConfig
static_config hc = do
  require (not (is_blank hc.url)) "static healthCheck has no url"
  passed (record {
    probe_url = hc.url;
    interval_seconds = interval_of hc;
    timeout_seconds = timeout_of hc;
    trusted = true;
  })

-- The reasons, as `fmt.Sprintf` writes them.
abbrev pub bad_path : TargetRules → String → String
bad_path rules path =
    "healthCheck.path " +++ rules.quote path +++ " is not a valid absolute request path"

abbrev pub bad_service : TargetRules → String → String
bad_service rules service =
    "service name " +++ rules.quote service +++ " is not a valid DNS-1035 label"

abbrev pub bad_port : ℤ → String
bad_port port = "health check port " +++ show_int port +++ " is outside 1-65535"

abbrev pub bad_namespace : TargetRules → String → String
bad_namespace rules namespace =
    "service namespace " +++ rules.quote namespace +++ " is not a valid DNS-1123 label"

abbrev pub no_consent : TargetRules → App → String
no_consent rules a =
    "target Service "
    +++ probe_namespace a
    +++ "/"
    +++ probe_service a
    +++ " is in another namespace and no ReferenceGrant in "
    +++ rules.quote (probe_namespace a)
    +++ " permits NebariApps from "
    +++ rules.quote a.namespace
    +++ " to reference it"

abbrev pub protected_target : String → String → ℤ → String → String
protected_target service namespace port reason =
    "target "
    +++ service
    +++ "."
    +++ namespace
    +++ ":"
    +++ show_int port
    +++ " is protected: "
    +++ reason

-- The branch of a NebariApp, in the order of the source's checks.
unfoldable pub service_config : TargetRules → App → HealthCheck → Check HealthCheckConfig
service_config rules a hc = do
  require (is_blank hc.url) "healthCheck.url is accepted only from static configuration"
  path ← or_refuse (normalize_path rules hc.path) (bad_path rules hc.path)
  let service = probe_service a
  require (rules.is_dns1035_label service) (bad_service rules service)
  let port = probe_port a hc
  require (not (ltb_ℤ port (pos 1) || ltb_ℤ (pos 65535) port)) (bad_port port)
  let namespace = probe_namespace a
  require (rules.is_dns1123_label namespace) (bad_namespace rules namespace)
  require (str_eq namespace a.namespace || a.cross_namespace_allowed) (no_consent rules a)
  let reason = target_protection rules namespace service port
  require (is_blank reason) (protected_target service namespace port reason)
  passed (record {
    probe_url = target_url service namespace port path;
    interval_seconds = interval_of hc;
    timeout_seconds = timeout_of hc;
    trusted = false;
  })

abbrev outcome : Check HealthCheckConfig → Option HealthCheckConfig × String
outcome (passed cfg) = (some cfg, "")
outcome (refused reason) = (none, reason)

-- The health check that an app asks for and has enabled.
unfoldable pub requested : App → Option HealthCheck
requested a = elim a.landing_page [
  | none ↦ none
  | some lp ↦ elim lp.health_check [ none ↦ none | some hc ↦ if hc.enabled then some hc else none ]
]

abbrev pub resolve : TargetRules → App → Option HealthCheck → Option HealthCheckConfig × String
resolve rules a none = (none, "")
resolve rules a (some hc) =
    outcome (if a.static then static_config hc else service_config rules a hc)

-- `buildHealthCheckConfig`: the config, and the reason why a requested check is dropped.
unfoldable pub build_config : TargetRules → App → Option HealthCheckConfig × String
build_config rules a = resolve rules a (requested a)
