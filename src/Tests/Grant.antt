-- ===== src/Tests/Grant.antt =====
-- Runs of the consent of another namespace.
use nebari_landing.Base.{
  String, ◌≡◌, ◌↔◌, ◌⊎◌, refl, Bool, true, false, Option, none, some, List, [], ◌∷◌, map, lookup,
  is_some, str_eq, if◌then◌else◌, pos,
}
use nebari_landing.App.{App}
use nebari_landing.Probe.{HealthCheckConfig, build_config, probe_namespace}
use nebari_landing.Grant.{Fields, grant_allows, with_consent}
use nebari_landing.Grant.Consent.{IsConsented, with_consent-IsConsented}
use nebari_landing.Tests.Samples.{rules, web_app, web_config}

-- A row of texts: the group, the kind, and the namespace or the name.
abbrev Row : Type 0
Row = String × String × String

-- An object of a grant: an entry, or the two sides.
data Value : Type 0 where
  row : Row → Value
  sides : List Row → List Row → Value

abbrev side : String → Value → Option (List Value)
side name (row r) = none
side name (sides from to) = if str_eq name "from" then some (map row from) else some (map row to)

abbrev is_row : Value → Bool
is_row (row r) = true
is_row (sides from to) = false

abbrev field : String → Value → String
field name (row (group, kind, target)) =
    if str_eq name "group" then group else if str_eq name "kind" then kind else target
field name (sides from to) = ""

abbrev fields : Fields Value
fields = record { spec_slice = side; is_map = is_row; text = field }

abbrev grant : Value
grant = sides (("reconcilers.nebari.dev", "NebariApp", "apps") ∷ []) (("", "Service", "") ∷ [])

abbrev grants : String → Option (List Value)
grants namespace = if str_eq namespace "shared" then some (grant ∷ []) else none

-- The app's Service is in another namespace.
abbrev far_app : App
far_app = record web_app { service_namespace = "shared" }

abbrev far_config : HealthCheckConfig
far_config = record web_config { probe_url = "http://web-svc.shared:8000/healthz" }

refused_test : (build_config rules (with_consent fields (λ n. none) far_app)).0 ≡ none
unfolding build_config nebari_landing.Probe.requested with_consent
    nebari_landing.Probe.service_config nebari_landing.Probe.normalize_path
    nebari_landing.Base.byte_length nebari_landing.Base.has_prefix nebari_landing.Probe.has_control
    nebari_landing.Probe.probe_service nebari_landing.Probe.probe_port probe_namespace
    nebari_landing.Grant.cross_namespace_allowed
refused_test = refl

allowed : (build_config rules (with_consent fields grants far_app)).0 ≡ some far_config
unfolding build_config nebari_landing.Probe.requested with_consent
    nebari_landing.Probe.service_config nebari_landing.Probe.normalize_path
    nebari_landing.Base.byte_length nebari_landing.Base.has_prefix nebari_landing.Probe.has_control
    nebari_landing.Probe.probe_service nebari_landing.Probe.probe_port probe_namespace
    nebari_landing.Grant.cross_namespace_allowed nebari_landing.Base.any grant_allows
    nebari_landing.Grant.from_allows nebari_landing.Grant.to_allows
    nebari_landing.Probe.target_protection nebari_landing.Base.has nebari_landing.Base.has_suffix
    nebari_landing.Probe.port_protected nebari_landing.Base.decimal
    nebari_landing.Probe.clamp_seconds nebari_landing.Probe.interval_of
    nebari_landing.Probe.show_int nebari_landing.Probe.target_url nebari_landing.Probe.timeout_of
allowed = refl

with_consent-IsConsented_example :
    (probe_namespace far_app ≡ "apps") ⊎ IsConsented fields grants far_app
with_consent-IsConsented_example =
    with_consent-IsConsented fields rules grants far_app far_config refl refl allowed
