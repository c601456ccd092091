-- ===== src/Probe/Trust.antt =====
-- What holds of every config of `buildHealthCheckConfig`, a static entry's or a NebariApp's.
use nebari_landing.Base.{
  ◌≡◌, ◌∙◌, sym, ap, inl, inr, true, not, some, Bool-cases, Option-cases, is_blank,
}
use nebari_landing.App.{App, HealthCheck}
use nebari_landing.Probe.{
  TargetRules, HealthCheckConfig, passed, requested, build_config, static_config, service_config,
  interval_of, timeout_of,
}
use nebari_landing.Probe.Timing.{IsTimed, IsTimed-of}
use nebari_landing.Probe.Steps.{
  require-eq_passed, passed_inj, outcome-passed, build_config-service, build_config-static,
  build_config-unrequested,
}
use nebari_landing.Probe.Resolution.{service_config_sound}

static_config_sound :
    (hc : HealthCheck) (cfg : HealthCheckConfig)
    → static_config hc ≡ passed cfg
    → cfg ≡ record {
      probe_url = hc.url;
      interval_seconds = interval_of hc;
      timeout_seconds = timeout_of hc;
      trusted = true;
    }
unfolding static_config
static_config_sound hc cfg h = sym (passed_inj (require-eq_passed (not (is_blank hc.url)) _ _ h).1)

-- Every config, of a NebariApp or of a static entry, was requested, carries the app's own mark of
-- trust, and has seconds within the limits.
pub record IsFrom (a : App) (cfg : HealthCheckConfig) : Type 0 where
  pub asked : (hc : HealthCheck) × (requested a ≡ some hc)
  pub trust : cfg.trusted ≡ a.static
  pub timed : IsTimed cfg.interval_seconds cfg.timeout_seconds

IsFrom-of :
    (rules : TargetRules) (a : App) (hc : HealthCheck) (cfg : HealthCheckConfig)
    → requested a ≡ some hc
    → (build_config rules a).0 ≡ some cfg
    → IsFrom a cfg
IsFrom-of rules a hc cfg r h = elim (Bool-cases a.static) [
  | inl s ↦
      let e = static_config_sound hc cfg (
        outcome-passed (static_config hc) cfg
          (sym (ap (λ o. o.0) (build_config-static rules a hc r s)) ∙ h)) in
      record {
        asked = (hc, r);
        trust = ap (λ c. c.trusted) e ∙ sym s;
        timed = rw e (IsTimed-of hc);
      }
  | inr s ↦
      let (path, p, e) = service_config_sound rules a hc cfg (
        outcome-passed (service_config rules a hc) cfg
          (sym (ap (λ o. o.0) (build_config-service rules a hc r s)) ∙ h)) in
      record {
        asked = (hc, r);
        trust = ap (λ c. c.trusted) e ∙ sym s;
        timed = rw e (IsTimed-of hc);
      }
]

-- Whatever config an app gets, the app asked for a check and has it enabled, the config is trusted
-- exactly if the app is a static entry, and the interval lies in 10 to 300 seconds, the timeout in
-- 1 to 30 seconds and within the interval.
pub build_config-IsFrom :
    (rules : TargetRules) (a : App) (cfg : HealthCheckConfig)
    → (build_config rules a).0 ≡ some cfg
    → IsFrom a cfg
build_config-IsFrom rules a cfg h = elim (Option-cases (requested a)) [
  | inl e ↦ cc (h, ap (λ o. o.0) (build_config-unrequested rules a e))
  | inr (hc, e) ↦ IsFrom-of rules a hc cfg e h
]
