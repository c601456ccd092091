-- ===== src/Cache.antt =====
-- internal/cache/service_cache.go: the in-memory cache of services, keyed by UID. A method that takes
-- the lock is one step on the state; what it logs is left out. `*ServiceInfo` is read as its value at
-- the call.
pub mod Invariant
pub mod Updates
pub mod Listing
use nebari_landing.Base.{
  ℕ, String, Bool, true, false, not, ◌&&◌, Option, none, some, List, [], ◌∷◌, if◌then◌else◌, str_eq,
  str_ltb, ◌+++◌, is_blank, is_some, same_bool, has, GoMap, lookup, insert, delete, values,
  insertion_sort, ℤ, pos, eq_ℤ, ltb_ℤ,
}
use nebari_landing.App.{App, LandingPage}
use nebari_landing.Probe.{TargetRules, HealthCheckConfig, build_config}

-- `HealthStatus`; a time is a number of nanoseconds.
pub record HealthStatus : Type 0 where
  pub status : String
  pub last_check : Option ℕ
  pub message : String

-- `ServiceInfo`
pub record ServiceInfo : Type 0 where
  pub uid : String
  pub name : String
  pub namespace : String
  pub display_name : String
  pub description : String
  pub url : String
  pub icon : String
  pub icon_light : String
  pub icon_dark : String
  pub category : String
  pub priority : ℤ
  pub visibility : String
  pub required_groups : List String
  pub health : Option HealthStatus
  pub health_check_config : Option HealthCheckConfig
  pub static : Bool

-- `ServiceCache`
pub record ServiceCache : Type 0 where
  pub services : GoMap ServiceInfo
  pub drop_reasons : GoMap String

-- `NewServiceCache`
abbrev pub new_cache : ServiceCache
new_cache = record { services = []; drop_reasons = [] }

-- `IconURL`
unfoldable pub icon_url : ServiceInfo → String
icon_url s =
    if not (is_blank s.icon)
    then s.icon
    else if not (is_blank s.icon_light)
    then s.icon_light
    else s.icon_dark

-- `Remove`
unfoldable pub remove : String → ServiceCache → ServiceCache
remove uid c = record { services = delete uid c.services; drop_reasons = delete uid c.drop_reasons }

abbrev text_or_blank : Option String → String
text_or_blank none = ""
text_or_blank (some s) = s

-- `recordHealthCheckDrop`
unfoldable pub record_drop : App → String → ServiceCache → ServiceCache
record_drop a reason c =
    if str_eq reason (text_or_blank (lookup a.uid c.drop_reasons))
    then c
    else if is_blank reason
    then record c { drop_reasons = delete a.uid c.drop_reasons }
    else record c { drop_reasons = insert a.uid reason c.drop_reasons }

-- `Get`
unfoldable pub get : String → ServiceCache → Option ServiceInfo
get uid c = lookup uid c.services

abbrev pub unknown_health : HealthStatus
unknown_health = record { status = "unknown"; last_check = none; message = "" }

abbrev health_of : Option ServiceInfo → Option HealthStatus
health_of none = none
health_of (some s) = s.health

abbrev config_of : Option ServiceInfo → Option HealthCheckConfig
config_of none = none
config_of (some s) = s.health_check_config

-- `preserveHealthStatus`
unfoldable pub preserve_health : String → ServiceCache → HealthStatus
preserve_health uid c = elim (health_of (lookup uid c.services)) [
  | none ↦ unknown_health
  | some h ↦ h
]

-- `shouldResetHealthStatus`
unfoldable pub should_reset_health : String → Option HealthCheckConfig → ServiceCache → Bool
should_reset_health uid cfg c = is_some (config_of (lookup uid c.services)) && not (is_some cfg)

abbrev external_url_of : Option LandingPage → String
external_url_of none = ""
external_url_of (some lp) = lp.external_url

-- `buildURL`
unfoldable pub build_url : App → String
build_url a =
    if not (is_blank (external_url_of a.landing_page))
    then external_url_of a.landing_page
    else (if a.tls_enabled then "https" else "http") +++ "://" +++ a.hostname

-- The entry that `Add` stores.
unfoldable pub service_of :
    App → LandingPage → HealthStatus → Option HealthCheckConfig → ServiceInfo
service_of a lp health cfg = record {
  uid = a.uid;
  name = a.name;
  namespace = a.namespace;
  display_name = lp.display_name;
  description = lp.description;
  url = build_url a;
  icon = lp.icon;
  icon_light = lp.icon_light;
  icon_dark = lp.icon_dark;
  category = lp.category;
  priority = if eq_ℤ lp.priority (pos 0) then pos 100 else lp.priority;
  visibility = if is_blank lp.visibility then "private" else lp.visibility;
  required_groups = lp.required_groups;
  health = some health;
  health_check_config = cfg;
  static = a.static;
}

-- `Add` of an app whose landing page is enabled.
unfoldable pub add_enabled : TargetRules → App → LandingPage → ServiceCache → ServiceCache
add_enabled rules a lp c =
    let (cfg, reason) = build_config rules a in
    let c' = record_drop a reason c in
    let health =
      if should_reset_health a.uid cfg c' then unknown_health else preserve_health a.uid c' in
    record c' { services = insert a.uid (service_of a lp health cfg) c'.services }

-- The landing page of an app that is to be listed.
unfoldable pub listed : App → Option LandingPage
listed a = elim a.landing_page [ none ↦ none | some lp ↦ if lp.enabled then some lp else none ]

-- `Add`; `none` is the nil pointer.
unfoldable pub add : TargetRules → Option App → ServiceCache → ServiceCache
add rules none c = c
add rules (some a) c = elim (listed a) [
  | none ↦ remove a.uid c
  | some lp ↦ add_enabled rules a lp c
]

-- `GetByNamespacedName`: the first hit in the order in which the map is visited.
unfoldable pub find_named : String → String → List ServiceInfo → Option ServiceInfo
find_named namespace name [] = none
find_named namespace name (s ∷ rest) =
    if str_eq s.namespace namespace && str_eq s.name name
    then some s
    else find_named namespace name rest

unfoldable pub get_by_namespaced_name : String → String → ServiceCache → Option ServiceInfo
get_by_namespaced_name namespace name c = find_named namespace name (values c.services)

-- The comparison that `GetAll` sorts by.
unfoldable pub listed_before : ServiceInfo → ServiceInfo → Bool
listed_before s t =
    if not (eq_ℤ s.priority t.priority) then ltb_ℤ s.priority t.priority else str_ltb s.name t.name

-- `GetAll`
unfoldable pub get_all : ServiceCache → List ServiceInfo
get_all c = insertion_sort listed_before (values c.services)

-- The keys of `categoryMap`, each once.
unfoldable pub category_set : List ServiceInfo → List String
category_set [] = []
category_set (s ∷ rest) =
    let found = category_set rest in
    if is_blank s.category
    then found
    else if has s.category found
    then found
    else s.category ∷ found

-- `GetCategories`
unfoldable pub get_categories : ServiceCache → List String
get_categories c = insertion_sort str_ltb (category_set (values c.services))

-- `service.Health = status` on the entry of `uid`.
unfoldable pub set_health : String → HealthStatus → ServiceInfo → ServiceCache → ServiceCache
set_health uid status s c = record c {
  services = insert uid (record s { health = some status }) c.services;
}

-- `UpdateHealth`
unfoldable pub update_health : String → HealthStatus → ServiceCache → ServiceCache
update_health uid status c = elim (lookup uid c.services) [
  | none ↦ c
  | some s ↦ set_health uid status s c
]

-- `*service.HealthCheckConfig == *cfg`
unfoldable pub same_config : HealthCheckConfig → HealthCheckConfig → Bool
same_config a b =
    str_eq a.probe_url b.probe_url
    && (eq_ℤ a.interval_seconds b.interval_seconds
        && (eq_ℤ a.timeout_seconds b.timeout_seconds && same_bool a.trusted b.trusted))

abbrev both_same : Option HealthCheckConfig → Option HealthCheckConfig → Bool
both_same (some a) (some b) = same_config a b
both_same _ _ = false

-- `healthCheckConfigMatches`
unfoldable pub config_matches : Option ServiceInfo → Option HealthCheckConfig → Bool
config_matches s cfg = both_same (config_of s) cfg

abbrev status_of : Option HealthStatus → String
status_of none = ""
status_of (some h) = h.status

-- `HealthStatusIfCurrent`
unfoldable pub health_status_if_current :
    String → Option HealthCheckConfig → ServiceCache → String × Bool
health_status_if_current uid cfg c =
    if config_matches (lookup uid c.services) cfg
    then (status_of (health_of (lookup uid c.services)), true)
    else ("", false)

-- `UpdateHealthIfCurrent`
unfoldable pub update_health_if_current :
    String → Option HealthCheckConfig → HealthStatus → ServiceCache → ServiceCache × Bool
update_health_if_current uid cfg status c =
    if config_matches (lookup uid c.services) cfg
    then (update_health uid status c, true)
    else (c, false)
