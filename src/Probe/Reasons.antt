-- ===== src/Probe/Reasons.antt =====
-- The reasons that `buildHealthCheckConfig` gives.
use nebari_landing.Base.{
  String, ◌≡◌, ◌∙◌, refl, sym, ap, ◌≢◌, ◌↔◌, inl, inr, Bool, true, false, not, ◌||◌, Option, none,
  some, Bool-cases, Option-cases, str_eq, is_blank, is_blank-append, pos, ltb_ℤ,
}
use nebari_landing.App.{App, HealthCheck}
use nebari_landing.Probe.{
  TargetRules, HealthCheckConfig, Check, passed, refused, ◌>>=◌, ◌>>◌, require, or_refuse, outcome,
  requested, build_config, static_config, service_config, probe_service, probe_namespace,
  probe_port, target_protection, normalize_path, bad_path, bad_service, bad_port, bad_namespace,
  no_consent, protected_target,
}
use nebari_landing.Probe.Steps.{build_config-service, build_config-static, build_config-unrequested}

-- Every reason with which a check is refused is a text that is not empty.
record IsReasoned (c : Check HealthCheckConfig) : Type 0 where
  said : (r : String) → c ≡ refused r → is_blank r ≡ false

passed-IsReasoned : (cfg : HealthCheckConfig) → IsReasoned (passed cfg)
passed-IsReasoned cfg = record { said = λ r e. cc }

refused_inj : {r q : String} → ◌≡◌ {A = Check HealthCheckConfig} (refused r) (refused q) → r ≡ q
refused_inj e = cc

require-IsReasoned :
    (b : Bool) (r : String) (k : Check HealthCheckConfig)
    → is_blank r ≡ false
    → IsReasoned k
    → IsReasoned (require b r >> k)
require-IsReasoned true r k h i = i
require-IsReasoned false r k h i = record { said = λ q e. ap is_blank (sym (refused_inj e)) ∙ h }

or_refuse-IsReasoned :
    (o : Option String) (r : String) (k : String → Check HealthCheckConfig)
    → is_blank r ≡ false
    → ((p : String) → IsReasoned (k p))
    → IsReasoned (or_refuse o r >>= k)
or_refuse-IsReasoned none r k h i =
    require-IsReasoned false r (refused r) h (record { said = λ q e. cc (h, e) })
or_refuse-IsReasoned (some p) r k h i = i p

service_config-IsReasoned :
    (rules : TargetRules) (a : App) (hc : HealthCheck) → IsReasoned (service_config rules a hc)
unfolding service_config
service_config-IsReasoned rules a hc =
    let service = probe_service a in
    let namespace = probe_namespace a in
    let port = probe_port a hc in
    let reason = target_protection rules namespace service port in
    require-IsReasoned (is_blank hc.url)
      "healthCheck.url is accepted only from static configuration" _ refl
      (or_refuse-IsReasoned (normalize_path rules hc.path) (bad_path rules hc.path) _
        (is_blank-append "healthCheck.path " _)
        λ path.
          require-IsReasoned (rules.is_dns1035_label service) (bad_service rules service) _
            (is_blank-append "service name " _)
            (require-IsReasoned (not (ltb_ℤ port (pos 1) || ltb_ℤ (pos 65535) port)) (bad_port port)
              _ (is_blank-append "health check port " _)
              (require-IsReasoned (rules.is_dns1123_label namespace) (bad_namespace rules namespace)
                _ (is_blank-append "service namespace " _)
                (require-IsReasoned (str_eq namespace a.namespace || a.cross_namespace_allowed)
                  (no_consent rules a) _ (is_blank-append "target Service " _)
                  (require-IsReasoned (is_blank reason)
                    (protected_target service namespace port reason) _ (is_blank-append "target " _)
                    (passed-IsReasoned _))))))

static_config-IsReasoned : (hc : HealthCheck) → IsReasoned (static_config hc)
unfolding static_config
static_config-IsReasoned hc =
    require-IsReasoned (not (is_blank hc.url)) "static healthCheck has no url" _ refl
      (passed-IsReasoned _)

outcome_either :
    (c : Check HealthCheckConfig)
    → IsReasoned c
    → ((outcome c).0 ≡ none) ↔ (is_blank (outcome c).1 ≡ false)
outcome_either (passed c) i = ((λ h. cc), (λ h. cc))
outcome_either (refused r) i = ((λ h. i.said r refl), (λ h. refl))

-- An app that asks for no check gets neither a config nor a reason; one that asks gets a reason
-- exactly when it gets no config.
pub build_config-reason :
    (rules : TargetRules) (a : App)
    → (requested a ≡ none → build_config rules a ≡ (none, ""))
      × (requested a ≢ none
          → ((build_config rules a).0 ≡ none) ↔ (is_blank (build_config rules a).1 ≡ false))
build_config-reason rules a = (
  build_config-unrequested rules a,
  (λ asked. elim (Option-cases (requested a)) [
    | inl e ↦ absurd (asked e)
    | inr (hc, e) ↦ elim (Bool-cases a.static) [
      | inl s ↦
          rw (build_config-static rules a hc e s)
            (outcome_either (static_config hc) (static_config-IsReasoned hc))
      | inr s ↦
          rw (build_config-service rules a hc e s)
            (outcome_either (service_config rules a hc) (service_config-IsReasoned rules a hc))
    ]
  ]),
)
