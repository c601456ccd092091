-- ===== src/Watcher/Reading.antt =====
-- internal/watcher/watcher.go: how a NebariApp object is read as an `App`. The accessors of
-- k8s.io/apimachinery are the parameter `Objects`.
use nebari_landing.Base.{
  String, Bool, true, false, Option, none, some, List, [], ◌∷◌, if◌then◌else◌, is_blank, ℤ, pos,
  eq_ℤ,
}
use nebari_landing.App.{App, LandingPage, HealthCheck}
use nebari_landing.Grant.{Fields, with_consent}

-- The fields of an unstructured object under a path: `NestedString` gives "" where there is none; the
-- others are `none` where the field is not found or of another type. `Value` and `fields` are the
-- parts of a ReferenceGrant.
pub record Objects : Type 1 where
  pub Obj : Type 0
  pub Value : Type 0
  pub fields : Fields Value
  pub uid : Obj → String
  pub name : Obj → String
  pub namespace : Obj → String
  pub text : List String → Obj → String
  pub flag : List String → Obj → Option Bool
  pub number : List String → Obj → Option ℤ
  pub texts : List String → Obj → Option (List String)

abbrev pub flag_or : Bool → Option Bool → Bool
flag_or other none = other
flag_or other (some b) = b

abbrev pub number_or : ℤ → Option ℤ → ℤ
number_or other none = other
number_or other (some n) = n

abbrev pub texts_or : List String → Option (List String) → List String
texts_or other none = other
texts_or other (some l) = l

abbrev pub text_or_keep : String → String → String
text_or_keep old s = if is_blank s then old else s

-- `found && v != 0`
abbrev pub priority_or_keep : ℤ → Option ℤ → ℤ
priority_or_keep old none = old
priority_or_keep old (some n) = if eq_ℤ n (pos 0) then old else n

module _ (K : Objects) where
  -- `lpEnabled`
  unfoldable pub lp_enabled : K.Obj → Bool
  lp_enabled o = flag_or false (K.flag ("spec" ∷ "landingPage" ∷ "enabled" ∷ []) o)

  -- `tlsEnabled`
  unfoldable pub tls_enabled : K.Obj → Bool
  tls_enabled o = flag_or true (K.flag ("spec" ∷ "routing" ∷ "tls" ∷ "enabled" ∷ []) o)

  unfoldable pub service_namespace_of : K.Obj → String
  service_namespace_of o = K.text ("spec" ∷ "service" ∷ "namespace" ∷ []) o

  abbrev pub auth_enabled : K.Obj → Bool
  auth_enabled o = flag_or false (K.flag ("spec" ∷ "auth" ∷ "enabled" ∷ []) o)

  abbrev pub page_text : String → K.Obj → String
  page_text field o = K.text ("spec" ∷ "landingPage" ∷ field ∷ []) o

  abbrev pub check_number : String → K.Obj → ℤ
  check_number field o =
      number_or (pos 0) (K.number ("spec" ∷ "landingPage" ∷ "healthCheck" ∷ field ∷ []) o)

  unfoldable pub health_check_of : K.Obj → Option HealthCheck
  health_check_of o =
      if flag_or false (K.flag ("spec" ∷ "landingPage" ∷ "healthCheck" ∷ "enabled" ∷ []) o)
      then some (record {
        enabled = true;
        path = K.text ("spec" ∷ "landingPage" ∷ "healthCheck" ∷ "path" ∷ []) o;
        interval_seconds = check_number "intervalSeconds" o;
        timeout_seconds = check_number "timeoutSeconds" o;
        port = check_number "port" o;
        url = "";
      })
      else none

  -- The landing page of the spec, before the status is looked at.
  unfoldable pub spec_page : K.Obj → LandingPage
  spec_page o = record {
    enabled = true;
    display_name = page_text "displayName" o;
    description = page_text "description" o;
    icon = page_text "icon" o;
    icon_light = page_text "iconLight" o;
    icon_dark = page_text "iconDark" o;
    category = page_text "category" o;
    priority = number_or (pos 100) (K.number ("spec" ∷ "landingPage" ∷ "priority" ∷ []) o);
    visibility = if auth_enabled o then "private" else "public";
    required_groups =
        if auth_enabled o then texts_or [] (K.texts ("spec" ∷ "auth" ∷ "groups" ∷ []) o) else [];
    external_url = page_text "externalUrl" o;
    health_check = health_check_of o;
  }

  abbrev pub status_text : String → K.Obj → String
  status_text field o = K.text ("status" ∷ "serviceDiscovery" ∷ field ∷ []) o

  -- What the status of service discovery overrides.
  unfoldable pub with_status : K.Obj → LandingPage → LandingPage
  with_status o page = record page {
    display_name = text_or_keep page.display_name (status_text "displayName" o);
    description = text_or_keep page.description (status_text "description" o);
    external_url = text_or_keep page.external_url (status_text "url" o);
    icon = text_or_keep page.icon (status_text "icon" o);
    category = text_or_keep page.category (status_text "category" o);
    priority =
        priority_or_keep page.priority
          (K.number ("status" ∷ "serviceDiscovery" ∷ "priority" ∷ []) o);
    visibility = text_or_keep page.visibility (status_text "visibility" o);
    required_groups =
        texts_or page.required_groups
          (K.texts ("status" ∷ "serviceDiscovery" ∷ "requiredGroups" ∷ []) o);
  }

  abbrev pub discovered : K.Obj → Bool
  discovered o = flag_or false (K.flag ("status" ∷ "serviceDiscovery" ∷ "enabled" ∷ []) o)

  unfoldable pub page_of : K.Obj → Option LandingPage
  page_of o =
      if lp_enabled o
      then some (if discovered o then with_status o (spec_page o) else spec_page o)
      else none

  -- The function `toApp`.
  unfoldable pub read_app : K.Obj → App
  read_app o = record {
    uid = K.uid o;
    name = K.name o;
    namespace = K.namespace o;
    hostname = K.text ("spec" ∷ "hostname" ∷ []) o;
    tls_enabled = tls_enabled o;
    service_name = K.text ("spec" ∷ "service" ∷ "name" ∷ []) o;
    service_namespace =
        if is_blank (service_namespace_of o) then K.namespace o else service_namespace_of o;
    service_port = number_or (pos 0) (K.number ("spec" ∷ "service" ∷ "port" ∷ []) o);
    cross_namespace_allowed = false;
    static = false;
    landing_page = page_of o;
  }

  -- The method `toApp`.
  unfoldable pub to_app : (String → Option (List K.Value)) → K.Obj → App
  to_app grants o = with_consent K.fields grants (read_app o)
