-- ===== src/Tests/Probe.antt =====
-- Which probes concrete apps get.
use nebari_landing.Base.{
  String, ◌≡◌, ◌↔◌, refl, Bool, true, false, none, some, ◌+++◌, is_blank, ◌≢◌, pos,
}
use nebari_landing.Probe.{build_config, target_protected, normalize_path, target_protection}
use nebari_landing.Probe.Resolution.{IsPermitted, service_probe, build_config-service_iff}
use nebari_landing.Probe.Trust.{IsFrom, build_config-IsFrom}
use nebari_landing.Tests.Samples.{rules, web_app, etcd_app, web_check, web_config}
use nebari_landing.Probe.{requested}

web_config_test : build_config rules web_app ≡ (some web_config, "")
unfolding build_config requested nebari_landing.Probe.service_config normalize_path
    nebari_landing.Base.has_prefix nebari_landing.Probe.has_control
    nebari_landing.Probe.probe_service nebari_landing.Probe.probe_port
    nebari_landing.Probe.probe_namespace target_protection nebari_landing.Base.has
    nebari_landing.Base.has_suffix nebari_landing.Probe.port_protected
    nebari_landing.Probe.target_url nebari_landing.Probe.interval_of nebari_landing.Probe.timeout_of
    nebari_landing.Probe.show_int nebari_landing.Probe.clamp_seconds nebari_landing.Base.decimal
    nebari_landing.Base.byte_length
web_config_test = refl

etcd_config_test :
    build_config rules etcd_app
    ≡ (none, "target web-svc.apps:2379 is protected: port 2379 is protected")
unfolding build_config requested nebari_landing.Probe.service_config normalize_path
    nebari_landing.Base.has_prefix nebari_landing.Probe.has_control
    nebari_landing.Probe.probe_service nebari_landing.Probe.probe_port
    nebari_landing.Probe.probe_namespace target_protection nebari_landing.Base.has
    nebari_landing.Base.has_suffix nebari_landing.Probe.port_protected nebari_landing.Probe.show_int
    nebari_landing.Base.decimal nebari_landing.Base.byte_length
etcd_config_test = refl

system_test :
    target_protection rules "flux-system" "web" (pos 80)
    ≡ "namespace 'flux-system' is a system namespace"
unfolding target_protection nebari_landing.Base.has nebari_landing.Base.has_suffix
system_test = refl

relative_path_test : normalize_path rules "//other/x" ≡ none
unfolding normalize_path nebari_landing.Base.has_prefix nebari_landing.Base.byte_length
relative_path_test = refl

asked : requested web_app ≡ some web_check
unfolding requested
asked = refl

build_config-service_iff_example : (build_config rules web_app ≡ (some web_config, "")) ↔ (
    (path : String) × IsPermitted rules web_app web_check path
    × (web_config ≡ service_probe web_app web_check path))
build_config-service_iff_example =
    build_config-service_iff rules web_app web_check web_config asked refl

web_granted : (build_config rules web_app).0 ≡ some web_config
unfolding build_config requested nebari_landing.Probe.service_config normalize_path
    nebari_landing.Base.has_prefix nebari_landing.Probe.has_control
    nebari_landing.Probe.probe_service nebari_landing.Probe.probe_port
    nebari_landing.Probe.probe_namespace target_protection nebari_landing.Base.has
    nebari_landing.Base.has_suffix nebari_landing.Probe.port_protected
    nebari_landing.Probe.target_url nebari_landing.Probe.interval_of nebari_landing.Probe.timeout_of
    nebari_landing.Probe.show_int nebari_landing.Probe.clamp_seconds nebari_landing.Base.decimal
    nebari_landing.Base.byte_length
web_granted = refl

build_config-IsFrom_example : IsFrom web_app web_config
build_config-IsFrom_example = build_config-IsFrom rules web_app web_config web_granted
