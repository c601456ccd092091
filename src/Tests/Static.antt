-- ===== src/Tests/Static.antt =====
-- Runs of the static entries.
use nebari_landing.Base.{
  String, ◌≡◌, refl, inl, inr, Bool, true, false, Option, none, some, List, [], ◌∷◌, ◌⊎◌, pos,
  str_eq, if◌then◌else◌,
}
use nebari_landing.Probe.{TargetRules}
use nebari_landing.Static.{
  all_space, matches_id, Service, StaticCheck, ParseError, parse, http_url, app_of,
}
use nebari_landing.Static.Entries.{IsEntry}
use nebari_landing.Static.Parsing.{IsParsed, parse-IsParsed}
use nebari_landing.Tests.Samples.{rules}

-- A parser for one URL.
abbrev pub url_rules : TargetRules
url_rules = record rules {
  parse_url = λ s.
      if str_eq s "https://kc.example/admin"
      then some (record {
        scheme = "https";
        host = "kc.example";
        hostname = "kc.example";
        port = "";
        path = "/admin";
      })
      else none;
}

abbrev pub keycloak : Service
keycloak = record {
  id = "keycloak";
  display_name = "";
  description = "";
  url = "https://kc.example/admin";
  icon = "";
  icon_light = "";
  icon_dark = "";
  category = "";
  priority = pos 0;
  visibility = "";
  required_groups = "admin" ∷ [];
  health_check = none;
}

abbrev pub private_keycloak : Service
private_keycloak = record keycloak { visibility = "private" }

abbrev pub decode : String → Option (List Service × Bool)
decode text = some (keycloak ∷ [], true)

pub parsed : parse url_rules decode "[...]" ≡ inr (private_keycloak ∷ [])
unfolding parse all_space nebari_landing.Base.any nebari_landing.Static.check_all
    nebari_landing.Static.validate matches_id nebari_landing.Static.ends_label http_url
    nebari_landing.Static.settle_visibility nebari_landing.Base.has
parsed = refl

twice_test :
    parse url_rules (λ text. some (keycloak ∷ keycloak ∷ [], true)) "[...]"
    ≡ inl (ParseError.duplicate "keycloak")
unfolding parse all_space nebari_landing.Base.any nebari_landing.Static.check_all
    nebari_landing.Static.validate matches_id nebari_landing.Static.ends_label http_url
    nebari_landing.Static.settle_visibility nebari_landing.Base.has
twice_test = refl

filled : all_space "[...]" ≡ false
unfolding all_space nebari_landing.Base.any
filled = refl

parse-IsParsed_example :
    (services : List Service) × (decode "[...]" ≡ some (services, true))
    × IsParsed url_rules [] services (private_keycloak ∷ [])
parse-IsParsed_example =
    parse-IsParsed url_rules decode "[...]" (private_keycloak ∷ []) parsed filled

pub no_empty_url : http_url url_rules "" ≡ false
unfolding http_url
no_empty_url = refl

entry : IsEntry url_rules private_keycloak
unfolding matches_id nebari_landing.Static.ends_label http_url
entry = record {
  id_ok = refl;
  link_ok = refl;
  visibility_ok = inl refl;
  groups_ok = λ e. cc e;
  check_ok = refl;
}
