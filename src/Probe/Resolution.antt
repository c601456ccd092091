-- ===== src/Probe/Resolution.antt =====
-- What `buildHealthCheckConfig` grants a NebariApp.
use nebari_landing.Base.{
  String, ◌≡◌, ◌∙◌, sym, ap, ◌↔◌, ◌⊎◌, Bool, true, false, not, ◌||◌, some, arith, eq_iff, str_eq,
  is_blank, eq_nil_of_is_blank, ℤ, pos, ltb_ℤ, ◌≤ℤ◌,
}
use nebari_landing.App.{App, HealthCheck}
use nebari_landing.Probe.{
  TargetRules, HealthCheckConfig, passed, outcome, requested, build_config, service_config,
  probe_service, probe_namespace, probe_port, interval_of, timeout_of, target_url,
  target_protection, target_protected, normalize_path,
}
use nebari_landing.Probe.Protection.{IsOpen, target_protected_iff}
use nebari_landing.Probe.Steps.{
  require-eq_passed, or_refuse-eq_passed, passed_inj, outcome-passed, require-true, or_refuse-some,
  build_config-service,
}

-- The conditions under which a NebariApp's requested check may run, each on its own.
pub record IsPermitted (rules : TargetRules) (a : App) (hc : HealthCheck) (path : String)
    : Type 0 where
  pub no_url : hc.url ≡ ""
  pub path_ok : normalize_path rules hc.path ≡ some path
  pub service_ok : rules.is_dns1035_label (probe_service a) ≡ true
  pub port_low : pos 1 ≤ℤ probe_port a hc
  pub port_high : probe_port a hc ≤ℤ pos 65535
  pub namespace_ok : rules.is_dns1123_label (probe_namespace a) ≡ true
  pub consented : (probe_namespace a ≡ a.namespace) ⊎ (a.cross_namespace_allowed ≡ true)
  pub target_open : IsOpen (probe_namespace a) (probe_service a) (probe_port a hc)

-- The config of a permitted check.
abbrev pub service_probe : App → HealthCheck → String → HealthCheckConfig
service_probe a hc path = record {
  probe_url = target_url (probe_service a) (probe_namespace a) (probe_port a hc) path;
  interval_seconds = interval_of hc;
  timeout_seconds = timeout_of hc;
  trusted = false;
}

in_range :
    (p : ℤ) → not (ltb_ℤ p (pos 1) || ltb_ℤ (pos 65535) p) ≡ true → (pos 1 ≤ℤ p) × (p ≤ℤ pos 65535)
in_range p h = ground arith

in_range_of :
    (p : ℤ) → pos 1 ≤ℤ p → p ≤ℤ pos 65535 → not (ltb_ℤ p (pos 1) || ltb_ℤ (pos 65535) p) ≡ true
in_range_of p h k = ground arith

consent_cases : (n m : String) (b : Bool) → (str_eq n m || b) ≡ true → (n ≡ m) ⊎ (b ≡ true)
consent_cases n m b h = ground (arith, eq_iff n m)

consent_of : (n m : String) (b : Bool) → (n ≡ m) ⊎ (b ≡ true) → (str_eq n m || b) ≡ true
consent_of n m b h = ground (arith, eq_iff n m)

pub service_config_sound :
    (rules : TargetRules) (a : App) (hc : HealthCheck) (cfg : HealthCheckConfig)
    → service_config rules a hc ≡ passed cfg
    → (path : String) × IsPermitted rules a hc path × (cfg ≡ service_probe a hc path)
unfolding service_config target_protected
service_config_sound rules a hc cfg h0 =
    let (no_url, h1) = require-eq_passed (is_blank hc.url) _ _ h0 in
    let (path, path_ok, h2) = or_refuse-eq_passed (normalize_path rules hc.path) _ _ h1 in
    let (service_ok, h3) = require-eq_passed (rules.is_dns1035_label (probe_service a)) _ _ h2 in
    let (range, h4) =
      require-eq_passed
        (not (ltb_ℤ (probe_port a hc) (pos 1) || ltb_ℤ (pos 65535) (probe_port a hc))) _ _ h3 in
    let (namespace_ok, h5) =
      require-eq_passed (rules.is_dns1123_label (probe_namespace a)) _ _ h4 in
    let (consent, h6) =
      require-eq_passed (str_eq (probe_namespace a) a.namespace || a.cross_namespace_allowed) _ _
        h5 in
    let (opened, h7) =
      require-eq_passed
        (is_blank (target_protection rules (probe_namespace a) (probe_service a) (probe_port a hc)))
        _ _ h6 in
    (
      path,
      record {
        no_url = eq_nil_of_is_blank hc.url no_url;
        path_ok = path_ok;
        service_ok = service_ok;
        port_low = (in_range (probe_port a hc) range).0;
        port_high = (in_range (probe_port a hc) range).1;
        namespace_ok = namespace_ok;
        consented = consent_cases (probe_namespace a) a.namespace a.cross_namespace_allowed consent;
        target_open =
            (target_protected_iff rules (probe_namespace a) (probe_service a) (probe_port a hc)).0
              (ap not opened);
      },
      sym (passed_inj h7),
    )

blank_of_eq : (s : String) → s ≡ "" → is_blank s ≡ true
blank_of_eq s h = ap is_blank h

not-true : (b : Bool) → not b ≡ false → b ≡ true
not-true b h = ground arith

service_config_complete :
    (rules : TargetRules) (a : App) (hc : HealthCheck) (path : String)
    → IsPermitted rules a hc path
    → service_config rules a hc ≡ passed (service_probe a hc path)
unfolding service_config target_protected
service_config_complete rules a hc path p =
    require-true (is_blank hc.url) _ _ (blank_of_eq hc.url p.no_url)
    ∙ or_refuse-some (normalize_path rules hc.path) _ _ path p.path_ok
    ∙ require-true (rules.is_dns1035_label (probe_service a)) _ _ p.service_ok
    ∙ require-true _ _ _ (in_range_of (probe_port a hc) p.port_low p.port_high)
    ∙ require-true (rules.is_dns1123_label (probe_namespace a)) _ _ p.namespace_ok
    ∙ require-true _ _ _
        (consent_of (probe_namespace a) a.namespace a.cross_namespace_allowed p.consented)
    ∙ require-true _ _ _ (
        not-true _ (
          (target_protected_iff rules (probe_namespace a) (probe_service a) (probe_port a hc)).1
            p.target_open))

-- A NebariApp's requested check becomes a probe exactly when every condition of `IsPermitted`
-- holds, and the probe is then the one of its own Service, port and path, untrusted.
pub build_config-service_iff :
    (rules : TargetRules) (a : App) (hc : HealthCheck) (cfg : HealthCheckConfig)
    → requested a ≡ some hc
    → a.static ≡ false
    → (build_config rules a ≡ (some cfg, ""))
      ↔ ((path : String) × IsPermitted rules a hc path × (cfg ≡ service_probe a hc path))
build_config-service_iff rules a hc cfg r s = (
  (λ h. service_config_sound rules a hc cfg (
      outcome-passed (service_config rules a hc) cfg
        (ap (λ o. o.0) (sym (build_config-service rules a hc r s) ∙ h)))),
  (λ (path, p, e).
      build_config-service rules a hc r s
      ∙ ap outcome (service_config_complete rules a hc path p)
      ∙ ap (λ c. (some c, "")) (sym e)),
)
