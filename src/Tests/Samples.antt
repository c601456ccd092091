-- ===== src/Tests/Samples.antt =====
-- The inputs that the tests share: an app with its probe, two services, and three callers.
use nebari_landing.Base.{
  Bool, true, false, if◌then◌else◌, str_eq, none, some, [], ◌∷◌, ◌+++◌, not, is_blank, pos,
}
use nebari_landing.App.{App, LandingPage, HealthCheck}
use nebari_landing.Probe.{TargetRules, HealthCheckConfig}
use nebari_landing.Cache.{HealthStatus, ServiceInfo, ServiceCache, unknown_health}
use nebari_landing.Access.{Claims, Principal, principal_can_access}
use nebari_landing.Notification.{Notification}
use nebari_landing.Hub.{Client, Hub, Codec, new_hub, event_added, event_notification_create}

-- A stand-in for `%q`, the label rules and net/url.
abbrev pub rules : TargetRules
rules = record {
  quote = λ s. "'" +++ s +++ "'";
  is_dns1035_label = λ s. not (is_blank s);
  is_dns1123_label = λ s. not (is_blank s);
  parse_url = λ s. none;
  parse_request_uri =
      λ s. some (record { scheme = ""; host = ""; hostname = ""; port = ""; path = s });
}

abbrev pub web_check : HealthCheck
web_check = record {
  enabled = true;
  path = "/healthz";
  interval_seconds = pos 5;
  timeout_seconds = pos 0;
  port = pos 8000;
  url = "";
}

abbrev pub web_page : LandingPage
web_page = record {
  enabled = true;
  display_name = "Web";
  description = "";
  icon = "";
  icon_light = "";
  icon_dark = "";
  category = "Tools";
  priority = pos 0;
  visibility = "";
  required_groups = "staff" ∷ [];
  external_url = "";
  health_check = some web_check;
}

abbrev pub web_app : App
web_app = record {
  uid = "u1";
  name = "web";
  namespace = "apps";
  hostname = "web.example";
  tls_enabled = true;
  service_name = "web-svc";
  service_namespace = "";
  service_port = pos 0;
  cross_namespace_allowed = false;
  static = false;
  landing_page = some web_page;
}

-- The same app, with a probe of a protected port.
abbrev pub etcd_app : App
etcd_app = record web_app {
  landing_page =
      some (record web_page { health_check = some (record web_check { port = pos 2379 }) });
}

abbrev pub web_config : HealthCheckConfig
web_config = record {
  probe_url = "http://web-svc.apps:8000/healthz";
  interval_seconds = pos 10;
  timeout_seconds = pos 5;
  trusted = false;
}

abbrev pub web_service : ServiceInfo
web_service = record {
  uid = "u1";
  name = "web";
  namespace = "apps";
  display_name = "Web";
  description = "";
  url = "https://web.example";
  icon = "";
  icon_light = "";
  icon_dark = "";
  category = "Tools";
  priority = pos 100;
  visibility = "private";
  required_groups = "staff" ∷ [];
  health = none;
  health_check_config = none;
  static = false;
}

abbrev pub staff_claims : Claims
staff_claims = record {
  subject = "s1";
  issuer = "https://kc.example/realms/nebari";
  expires_at = some 1000;
  email = "";
  name = "";
  preferred_username = "ann";
  groups = "/staff" ∷ "admin" ∷ [];
}

abbrev pub guest_claims : Claims
guest_claims = record staff_claims { subject = "s2"; groups = [] }

abbrev pub staff : Principal
staff = record { subject = "s1"; groups = "/staff" ∷ "admin" ∷ []; authenticated = true }

abbrev pub guest : Principal
guest = record { subject = "s2"; groups = []; authenticated = true }

-- The cache with the app in it, its status, and its `ServiceInfo` with that status.
abbrev pub up : HealthStatus
up = record { status = "healthy"; last_check = some 7; message = "" }

abbrev pub web_entry : ServiceInfo
web_entry = record web_service {
  health = some unknown_health;
  health_check_config = some web_config;
}

abbrev pub web_cache : ServiceCache
web_cache = record { services = ("u1", web_entry) ∷ []; drop_reasons = [] }

abbrev pub web_notice : Notification
web_notice = record {
  id = "n1";
  image = "";
  title = "";
  message = "";
  created_at = 3;
  service_uid = "u1";
  visibility = "private";
  required_groups = "staff" ∷ [];
}

-- A codec for frames that carry nothing but their type.
abbrev pub codec : Codec
codec = record {
  envelope_type = λ raw. if str_eq raw "" then none else some raw;
  service_event = λ raw. if str_eq raw event_added then some (some web_service) else some none;
  notification_event = λ raw. some (some web_notice);
  service_frame = λ t s. t;
  notification_frame = λ n. event_notification_create;
}

abbrev pub staff_client : Client
staff_client = record { conn = 1; principal = staff }

abbrev pub guest_client : Client
guest_client = record { conn = 2; principal = guest }

-- Both callers are connected, and the API's policy is installed.
abbrev pub busy_hub : Hub
busy_hub = record new_hub {
  clients = staff_client ∷ guest_client ∷ [];
  policy = some principal_can_access;
}

-- Every write succeeds.
abbrev pub up_net : Client → Bool
up_net c = true
