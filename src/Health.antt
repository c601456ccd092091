-- ===== src/Health.antt =====
-- internal/health/checker.go and internal/health/probe_runner.go: which probes run, what a probe's
-- reply says, what is done with it, and which targets the probe runner takes. What the network
-- answers is an argument; log lines and the bodies of HTTP messages beyond what is read are left out.
mod Replies
mod Scheduling
pub mod Announcing
mod Forgetting
pub mod Loops
pub mod Reconcile
pub mod Results
pub mod Runner
pub mod Storing
pub mod Serving
unfoldable pub use Replies.*
unfoldable pub use Scheduling.*
use Prim.Native.String
use nebari_landing.Base.{
  ℕ, String, code, Bool, true, false, not, ◌&&◌, ◌||◌, Option, none, some, List, [], ◌∷◌, ◌++◌,
  ◌==◌, if◌then◌else◌, str_eq, ◌+++◌, is_blank, has, ltb, leb, keep, decimal, GoMap, lookup, insert,
  delete, ◌⊎◌, inl, inr, atoi, split_on, ℤ,
}
use nebari_landing.Probe.{
  HealthCheckConfig, TargetRules, Url, Check, passed, refused, ◌>>=◌, ◌>>◌, require,
  target_protected,
}
use nebari_landing.Notification.{Notification, Draft}
use nebari_landing.Cache.{
  HealthStatus, ServiceInfo, ServiceCache, icon_url, get, get_all, same_config, update_health,
  health_status_if_current, update_health_if_current,
}

-- What the checker was given: a publisher of events, one of notifications, and the store, whose
-- `CreateDraft` gives a notification or fails.
pub record Outputs : Type 0 where
  pub publisher : Bool
  pub notif_publisher : Bool
  pub create_draft : Option (Draft → Option Notification)

-- The cache, the checker, and what went out: the events, the stored notifications, and those that
-- were published.
pub record Site : Type 0 where
  pub cache : ServiceCache
  pub checker : Running
  pub events : List (String × ServiceInfo)
  pub posted : List Notification
  pub notices : List Notification

-- The draft of `postRecoveryNotif`.
unfoldable pub recovery_draft : ServiceInfo → Draft
recovery_draft s =
    let name = if is_blank s.display_name then s.name else s.display_name in
    record {
      image = icon_url s;
      title = name +++ " is back online!";
      message = name +++ " is back online! Service is ready to use.";
      service_uid = s.uid;
      visibility = s.visibility;
      required_groups = s.required_groups;
    }

abbrev pub post : Bool → Option Notification → Site → Site
post publish none w = w
post publish (some n) w = record w {
  posted = w.posted ++ n ∷ [];
  notices = if publish then w.notices ++ n ∷ [] else w.notices;
}

abbrev post_for : Outputs → Option (Draft → Option Notification) → Option ServiceInfo → Site → Site
post_for out none s w = w
post_for out (some create) none w = w
post_for out (some create) (some s) w = post out.notif_publisher (create (recovery_draft s)) w

-- `postRecoveryNotif`
unfoldable pub post_recovery : Outputs → String → Site → Site
post_recovery out uid w = post_for out out.create_draft (get uid w.cache) w

abbrev publish_service : Option ServiceInfo → Site → Site
publish_service none w = w
publish_service (some s) w = record w { events = w.events ++ ("modified", s) ∷ [] }

-- `publishIfChanged`
unfoldable pub publish_if_changed : Outputs → String → Site → Site
publish_if_changed out uid w = if out.publisher then publish_service (get uid w.cache) w else w

-- `afterHealthUpdate`
unfoldable pub after_health_update : Outputs → String → String → String → Site → Site
after_health_update out uid prev_status status w = publish_if_changed out uid (
    if str_eq status "healthy" && str_eq prev_status "unhealthy"
    then post_recovery out uid w
    else w)

-- `probeIfCurrent` from the return of the probe on; the Boolean is its result.
unfoldable pub finish_probe :
    Outputs → String → HealthCheckConfig → String → ProbeResult → Site → Site × Bool
finish_probe out uid cfg prev_status result w =
    let (cache', stored) = update_health_if_current uid (some cfg) (health_status result) w.cache in
    if stored
    then (after_health_update out uid prev_status result.status (record w { cache = cache' }), true)
    else (record w { cache = cache'; checker = forget_probe uid cfg w.checker }, false)

-- `probeIfCurrent`; `during` is what the rest of the program does while the request is in flight.
unfoldable pub probe_if_current :
    Outputs → Bool → Network → String → HealthCheckConfig → (Site → Site) → Site → Site × Bool
probe_if_current out runner net uid cfg during w =
    let (prev_status, current) = health_status_if_current uid (some cfg) w.cache in
    if current
    then finish_probe out uid cfg prev_status (run_probe runner net cfg) (during w)
    else (record w { checker = forget_probe uid cfg w.checker }, false)

-- `applyProbeResult`
unfoldable pub apply_result : Outputs → String → String → ProbeResult → Site → Site
apply_result out uid prev_status result w =
    after_health_update out uid prev_status result.status
      (record w { cache = update_health uid (health_status result) w.cache })

-- `hostParts`: the Service and the namespace of an in-cluster name.
abbrev pub cluster_name : List String → Option (String × String)
cluster_name (service ∷ namespace ∷ []) = some (service, namespace)
cluster_name (service ∷ namespace ∷ svc ∷ zone ∷ rest) =
    if str_eq svc "svc" then some (service, namespace) else none
cluster_name _ = none

abbrev pub found {ℓ} : {A : Type ℓ} → Option A → String → Check A
found none r = refused r
found (some a) r = passed a

-- `validateProbeRunnerTarget`
unfoldable pub validate_target : TargetRules → String → Check (Unit {0})
validate_target rules raw_url = do
  parsed ← found (rules.parse_url raw_url) "invalid probe URL"
  require (str_eq parsed.scheme "http" && not (is_blank parsed.host))
      "probe URL must be an in-cluster HTTP service URL"
  port ← found (atoi parsed.port) "probe URL must include a numeric port"
  (service, namespace) ←
      found (cluster_name (split_on b'.' parsed.hostname))
        "probe URL must use service.namespace DNS"
  require (rules.is_dns1035_label service && rules.is_dns1123_label namespace)
      "probe URL must use valid service and namespace labels"
  require (not (target_protected rules namespace service port)) "probe target is protected"
