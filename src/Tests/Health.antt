-- ===== src/Tests/Health.antt =====
-- Runs of the health checker.
use nebari_landing.Base.{
  ℕ, String, ◌≡◌, ◌↔◌, ◌≤◌, ◌<◌, ◌⊎◌, refl, inl, inr, Bool, true, false, Option, none, some, List,
  [], ◌∷◌, lookup, pos, ℤ,
}
use nebari_landing.Probe.{HealthCheckConfig, TargetRules, Url, passed, refused}
use nebari_landing.Notification.{notification_of}
use nebari_landing.Cache.{ServiceInfo, get}
use nebari_landing.Cache.Updates.{HasConfig}
use nebari_landing.Health.{
  Site, Outputs, Network, ProbeResult, HttpReply, RemoteReply, nothing_running, reconcile,
  finish_probe, run_probe, perform_probe, validate_target, probe_if_current,
}
use nebari_landing.Health.Results.{Measured, run_probe-unhealthy_iff}
use nebari_landing.Health.Storing.{IsStored, IsDiscarded, finish_probe-exact}
use nebari_landing.Health.Serving.{Answer, turned_away, measured, Outside, Link, served, delegated}
use nebari_landing.Health.Serving.Delegating.{IsFaithful, ByTarget, body_of, run_probe-delegated}
use nebari_landing.Health.Runner.{IsTarget, validate_target_iff}
use nebari_landing.Tests.Samples.{rules, web_cache, web_config}

abbrev pub site : Site
site = record {
  cache = web_cache;
  checker = nothing_running;
  events = [];
  posted = [];
  notices = [];
}

abbrev pub outputs : Outputs
outputs = record {
  publisher = true;
  notif_publisher = true;
  create_draft = some (λ d. some (notification_of "n7" 9 d));
}

-- The target answers, and the runner refuses it.
abbrev pub net : Network
net = record {
  now = 9;
  direct = λ cfg. HttpReply.answered 204;
  remote = λ cfg. RemoteReply.replied 403 "probe target is protected" (inl "no JSON");
}

abbrev result : ProbeResult
result = record { status = "healthy"; message = "HTTP 204"; checked_at = 9 }

direct_test : run_probe false net web_config ≡ result
unfolding run_probe perform_probe nebari_landing.Base.decimal
direct_test = refl

refused_test : (run_probe true net web_config).status ≡ "unknown"
unfolding run_probe nebari_landing.Health.remote_probe
refused_test = refl

recovered_test :
    (finish_probe outputs "u1" web_config "unhealthy" result site).0.notices
    ≡ notification_of "n7" 9 (record {
      image = "";
      title = "Web is back online!";
      message = "Web is back online! Service is ready to use.";
      service_uid = "u1";
      visibility = "private";
      required_groups = "staff" ∷ [];
    })
      ∷ []
unfolding finish_probe nebari_landing.Cache.update_health_if_current
    nebari_landing.Cache.config_matches lookup nebari_landing.Cache.same_config
    nebari_landing.Health.after_health_update nebari_landing.Health.publish_if_changed get
    nebari_landing.Health.post_recovery nebari_landing.Cache.update_health
    nebari_landing.Cache.set_health nebari_landing.Base.insert nebari_landing.Health.recovery_draft
    nebari_landing.Cache.icon_url
recovered_test = refl

-- The service goes while the request is in flight.
gone_test :
    (probe_if_current outputs false net "u1" web_config
      (λ w. record w { cache = record web_cache { services = [] } })
      site).1
    ≡ false
unfolding probe_if_current nebari_landing.Cache.health_status_if_current
    nebari_landing.Cache.config_matches lookup nebari_landing.Cache.same_config finish_probe
    nebari_landing.Cache.update_health_if_current
gone_test = refl

run_probe-unhealthy_iff_example :
    ((run_probe true net web_config).status ≡ "unhealthy")
    ↔ Measured "unhealthy" (net.remote web_config)
run_probe-unhealthy_iff_example = run_probe-unhealthy_iff net web_config refl

finish_probe-exact_example :
    let (w', stored) = finish_probe outputs "u1" web_config "unhealthy" result site in
    ((s : ServiceInfo) × (get "u1" web_cache ≡ some s)
      × (s.health_check_config ≡ some web_config)
      × (stored ≡ true)
      × IsStored outputs "u1" "unhealthy" result s site w')
    ⊎ ((¬ HasConfig "u1" web_config web_cache)
        × (stored ≡ false)
        × IsDiscarded "u1" web_config site w')
finish_probe-exact_example = finish_probe-exact outputs "u1" web_config "unhealthy" result site

-- A parser for one URL.
abbrev url_rules : TargetRules
url_rules = record rules {
  parse_url = λ s. some (record {
    scheme = "http";
    host = "web-svc.apps:8000";
    hostname = "web-svc.apps";
    port = "8000";
    path = "/healthz";
  });
}

accepted_test : validate_target url_rules "http://web-svc.apps:8000/healthz" ≡ passed tt
unfolding validate_target nebari_landing.Base.atoi nebari_landing.Base.read_digits
    nebari_landing.Base.split_on nebari_landing.Probe.target_protected
    nebari_landing.Probe.target_protection nebari_landing.Base.has nebari_landing.Base.has_suffix
    nebari_landing.Probe.port_protected
accepted_test = refl

validate_target_iff_example :
    (validate_target url_rules "http://web-svc.apps:8000/healthz" ≡ passed tt) ↔ (
      (u : Url) × (service : String) × (namespace : String) × (port : ℤ) × IsTarget url_rules
        "http://web-svc.apps:8000/healthz" u service namespace port)
validate_target_iff_example = validate_target_iff url_rules "http://web-svc.apps:8000/healthz"

abbrev received : Answer → RemoteReply
received (turned_away status reason) = RemoteReply.replied status reason (inl "no JSON")
received (measured r) = RemoteReply.replied 200 "" (inr (body_of r))

-- A link that works, and a target that answers.
abbrev link : Link
link = record { send = λ req. some req; receive = received }

link-IsFaithful : IsFaithful link
link-IsFaithful = record {
  sent = λ req. refl;
  result = λ r. ("", refl);
  error = λ status reason. (inl "no JSON", refl);
}

abbrev outside : Outside
outside = record { now = 12; ask = λ req. HttpReply.answered 500 }

run_probe-delegated_example :
    ByTarget outside 9 web_config
      (validate_target url_rules web_config.probe_url)
      (run_probe true (delegated url_rules outside link 9 net.direct) web_config)
      (served url_rules outside link web_config).1
run_probe-delegated_example =
    run_probe-delegated url_rules outside link 9 net.direct web_config link-IsFaithful refl
