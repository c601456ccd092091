-- ===== src/Static.antt =====
-- internal/staticservices/staticservices.go: the landing-page entries that the operator configures.
-- encoding/json is an argument (it decodes the array and rejects unknown fields); an error is a
-- constructor in place of its text.
pub mod Cards
pub mod Entries
pub mod Parsing
use Prim.Native.String
use nebari_landing.Base.{
  ℕ, String, code, ◌+◌, Bool, true, false, not, ◌&&◌, ◌||◌, Option, none, some, List, [], ◌∷◌, ◌⊎◌,
  inl, inr, ◌==◌, is_space, if◌then◌else◌, str_eq, ◌+++◌, is_blank, has, any, ltb, leb, ℤ, pos,
}
use nebari_landing.App.{App, LandingPage, HealthCheck}
use nebari_landing.Probe.{TargetRules, Url}

-- `staticservices.HealthCheck`
pub record StaticCheck : Type 0 where
  pub url : String
  pub interval_seconds : ℤ
  pub timeout_seconds : ℤ

-- `Service`
pub record Service : Type 0 where
  pub id : String
  pub display_name : String
  pub description : String
  pub url : String
  pub icon : String
  pub icon_light : String
  pub icon_dark : String
  pub category : String
  pub priority : ℤ
  pub visibility : String
  pub required_groups : List String
  pub health_check : Option StaticCheck

-- Why an entry, or the whole text, is rejected.
pub data Invalid : Type 0 where
  bad_id : Invalid
  bad_url : Invalid
  groups_of_public : Invalid
  bad_visibility : Invalid
  bad_check_url : Invalid

pub data ParseError : Type 0 where
  undecodable : ParseError
  trailing_data : ParseError
  invalid : ℕ → String → Invalid → ParseError
  duplicate : String → ParseError

abbrev is_alnum : ℕ → Bool
is_alnum c = (leb b'a' c && leb c b'z') || (leb b'0' c && leb c b'9')

-- `[-a-z0-9]*[a-z0-9]`
unfoldable pub ends_label : String → Bool
ends_label String.[] = false
ends_label (String.◌∷◌ c s) =
    if is_blank s then is_alnum (code c) else (is_alnum (code c) || code c == b'-') && ends_label s

-- `idPattern`
unfoldable pub matches_id : String → Bool
matches_id String.[] = false
matches_id (String.◌∷◌ c s) = is_alnum (code c) && (is_blank s || ends_label s)

abbrev pub url_ok : Option Url → Bool
url_ok none = false
url_ok (some u) = (str_eq u.scheme "http" || str_eq u.scheme "https") && not (is_blank u.host)

-- `validateHTTPURL`: whether there is no error.
unfoldable pub http_url : TargetRules → String → Bool
http_url rules raw = url_ok (rules.parse_url raw)

abbrev pub no_groups : List String → Bool
no_groups [] = true
no_groups (g ∷ l) = false

-- The switch on the visibility, which fills in the default.
unfoldable pub settle_visibility : Service → Invalid ⊎ Service
settle_visibility s =
    if is_blank s.visibility
    then inr (record s { visibility = "private" })
    else if str_eq s.visibility "private"
    then inr s
    else if str_eq s.visibility "public"
    then (if no_groups s.required_groups then inr s else inl groups_of_public)
    else inl bad_visibility

abbrev pub check_url : TargetRules → Option StaticCheck → Bool
check_url rules none = true
check_url rules (some hc) = http_url rules hc.url

abbrev pub then_check : TargetRules → Invalid ⊎ Service → Invalid ⊎ Service
then_check rules (inl e) = inl e
then_check rules (inr s) = if check_url rules s.health_check then inr s else inl bad_check_url

-- `validate`: the entry with its defaults, or the error.
unfoldable pub validate : TargetRules → Service → Invalid ⊎ Service
validate rules s =
    if not (matches_id s.id)
    then inl bad_id
    else if not (http_url rules s.url)
    then inl bad_url
    else then_check rules (settle_visibility s)

abbrev pub cons_result : Service → ParseError ⊎ List Service → ParseError ⊎ List Service
cons_result s (inl e) = inl e
cons_result s (inr l) = inr (s ∷ l)

abbrev pub take_entry :
    ℕ
    → String
    → List String
    → Invalid ⊎ Service
    → ParseError ⊎ List Service
    → ParseError ⊎ List Service
take_entry i id seen (inl e) rest = inl (invalid i id e)
take_entry i id seen (inr s) rest = if has id seen then inl (duplicate id) else cons_result s rest

-- The loop of `Parse` from an index on, with the ids that were seen.
unfoldable pub check_all : TargetRules → ℕ → List String → List Service → ParseError ⊎ List Service
check_all rules i seen [] = inr []
check_all rules i seen (s ∷ rest) =
    let more = check_all rules (i + 1) (s.id ∷ seen) rest in
    take_entry i s.id seen (validate rules s) more

-- `len(bytes.TrimSpace(data)) == 0`
unfoldable pub all_space : String → Bool
all_space String.[] = true
all_space (String.◌∷◌ c s) = is_space (code c) && all_space s

abbrev pub parse_decoded : TargetRules → Option (List Service × Bool) → ParseError ⊎ List Service
parse_decoded rules none = inl undecodable
parse_decoded rules (some (services, at_end)) =
    if at_end then check_all rules 0 [] services else inl trailing_data

-- `Parse`, for a decoder that reads the first array and says whether nothing follows it.
unfoldable pub parse :
    TargetRules → (String → Option (List Service × Bool)) → String → ParseError ⊎ List Service
parse rules decode text = if all_space text then inr [] else parse_decoded rules (decode text)

abbrev pub check_of : Option StaticCheck → Option HealthCheck
check_of none = none
check_of (some hc) = some (record {
  enabled = true;
  path = "";
  interval_seconds = hc.interval_seconds;
  timeout_seconds = hc.timeout_seconds;
  port = pos 0;
  url = hc.url;
})

-- The landing page of `App`.
unfoldable pub page_of : Service → LandingPage
page_of s = record {
  enabled = true;
  display_name = if is_blank s.display_name then s.id else s.display_name;
  description = s.description;
  icon = s.icon;
  icon_light = s.icon_light;
  icon_dark = s.icon_dark;
  category = s.category;
  priority = s.priority;
  visibility = s.visibility;
  required_groups = s.required_groups;
  external_url = s.url;
  health_check = check_of s.health_check;
}

-- `Service.App`
unfoldable pub app_of : Service → App
app_of s = record {
  uid = "static-" +++ s.id;
  name = s.id;
  namespace = "";
  hostname = "";
  tls_enabled = false;
  service_name = "";
  service_namespace = "";
  service_port = pos 0;
  cross_namespace_allowed = false;
  static = true;
  landing_page = some (page_of s);
}
