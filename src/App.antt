-- ===== src/App.antt =====
-- internal/app/app.go: the domain model that the watcher and the static configuration produce and
-- the service cache consumes. A Go pointer that may be nil is an `Option`.
use nebari_landing.Base.{String, Bool, Option, List, ℤ}

-- `HealthCheck`
pub record HealthCheck : Type 0 where
  pub enabled : Bool
  pub path : String
  pub interval_seconds : ℤ
  pub timeout_seconds : ℤ
  pub port : ℤ
  pub url : String

-- `LandingPage`
pub record LandingPage : Type 0 where
  pub enabled : Bool
  pub display_name : String
  pub description : String
  pub icon : String
  pub icon_light : String
  pub icon_dark : String
  pub category : String
  pub priority : ℤ
  pub visibility : String
  pub required_groups : List String
  pub external_url : String
  pub health_check : Option HealthCheck

-- `App`
pub record App : Type 0 where
  pub uid : String
  pub name : String
  pub namespace : String
  pub hostname : String
  pub tls_enabled : Bool
  pub service_name : String
  pub service_namespace : String
  pub service_port : ℤ
  pub cross_namespace_allowed : Bool
  pub static : Bool
  pub landing_page : Option LandingPage
