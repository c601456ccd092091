-- ===== src/Health/Scheduling.antt =====
-- internal/health/checker.go: which probe loops run, and the reconciliation with the cache.
use nebari_landing.Base.{
  String, not, Option, none, some, List, [], ◌∷◌, ◌++◌, if◌then◌else◌, has, keep, GoMap, lookup,
  insert, delete,
}
use nebari_landing.Probe.{HealthCheckConfig}
use nebari_landing.Cache.{ServiceInfo, ServiceCache, get_all, same_config}

-- `HealthChecker.running`, with the probe loops that were started and those that were cancelled.
pub record Running : Type 0 where
  pub running : GoMap HealthCheckConfig
  pub started : List (String × HealthCheckConfig)
  pub cancelled : List (String × HealthCheckConfig)

-- `NewHealthChecker`
abbrev pub nothing_running : Running
nothing_running = record { running = []; started = []; cancelled = [] }

unfoldable pub start_probe : String → HealthCheckConfig → Running → Running
start_probe uid cfg h = record h {
  running = insert uid cfg h.running;
  started = (uid, cfg) ∷ h.started;
}

unfoldable pub cancel_probe : String → HealthCheckConfig → Running → Running
cancel_probe uid cfg h = record h {
  running = delete uid h.running;
  cancelled = (uid, cfg) ∷ h.cancelled;
}

abbrev pub replace_probe : String → HealthCheckConfig → Option HealthCheckConfig → Running → Running
replace_probe uid cfg none h = start_probe uid cfg h
replace_probe uid cfg (some old) h =
    if same_config old cfg then h else start_probe uid cfg (cancel_probe uid old h)

-- The body of the loop of `reconcile`, for a service with a config.
unfoldable pub ensure_probe : String → HealthCheckConfig → Running → Running
ensure_probe uid cfg h = replace_probe uid cfg (lookup uid h.running) h

abbrev pub visit : String → Option HealthCheckConfig → Running → Running
visit uid none h = h
visit uid (some cfg) h = ensure_probe uid cfg h

-- The loop of `reconcile` over the services.
unfoldable pub start_probes : List ServiceInfo → Running → Running
start_probes [] h = h
start_probes (s ∷ rest) h = start_probes rest (visit s.uid s.health_check_config h)

-- `activeUIDs`
unfoldable pub active_uids : List ServiceInfo → List String
active_uids [] = []
active_uids (s ∷ rest) = elim s.health_check_config [
  | none ↦ active_uids rest
  | some cfg ↦ s.uid ∷ active_uids rest
]

-- The loop that stops the probes of the services that are gone.
unfoldable pub stop_others : List String → Running → Running
stop_others active h = record h {
  running = keep (λ (e : String × HealthCheckConfig). has e.0 active) h.running;
  cancelled =
      keep (λ (e : String × HealthCheckConfig). not (has e.0 active)) h.running ++ h.cancelled;
}

-- `reconcile`
unfoldable pub reconcile : ServiceCache → Running → Running
reconcile c h = stop_others (active_uids (get_all c)) (start_probes (get_all c) h)

-- `stopAll`
unfoldable pub stop_all : Running → Running
stop_all h = record h { running = []; cancelled = h.running ++ h.cancelled }

abbrev pub forget_current :
    String → HealthCheckConfig → Option HealthCheckConfig → Running → Running
forget_current uid cfg none h = h
forget_current uid cfg (some current) h =
    if same_config current cfg then cancel_probe uid current h else h

-- `forgetRunningProbe`
unfoldable pub forget_probe : String → HealthCheckConfig → Running → Running
forget_probe uid cfg h = forget_current uid cfg (lookup uid h.running) h
