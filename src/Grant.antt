-- ===== src/Grant.antt =====
-- internal/watcher/watcher.go, the consent of another namespace: which ReferenceGrants let a NebariApp
-- name a Service outside its own namespace. The accessors of an unstructured object are the parameter
-- `Fields`; the list of the grants of a namespace is an argument, `none` where the call fails.
pub mod Allowing
pub mod Consent
use nebari_landing.Base.{
  String, Bool, true, false, not, ◌&&◌, ◌||◌, Option, none, some, List, [], ◌∷◌, if◌then◌else◌,
  str_eq, is_blank, any,
}
use nebari_landing.App.{App}
use nebari_landing.Probe.{probe_service}

-- `unstructured.NestedSlice` under "spec", whether a value is a map, and `NestedString` of a map,
-- which is "" where the field is missing or no text.
pub record Fields (V : Type 0) : Type 0 where
  pub spec_slice : String → V → Option (List V)
  pub is_map : V → Bool
  pub text : String → V → String

module _ {V : Type 0} (fields : Fields V) where
  -- The test of the loop over "from".
  unfoldable pub from_allows : String → V → Bool
  from_allows namespace e =
      fields.is_map e
      && (str_eq (fields.text "group" e) "reconcilers.nebari.dev"
          && (str_eq (fields.text "kind" e) "NebariApp"
              && str_eq (fields.text "namespace" e) namespace))

  -- The test of the loop over "to".
  unfoldable pub to_allows : String → V → Bool
  to_allows service e =
      fields.is_map e
      && (is_blank (fields.text "group" e)
          && (str_eq (fields.text "kind" e) "Service"
              && (is_blank (fields.text "name" e) || str_eq (fields.text "name" e) service)))

  abbrev pub slices_allow : Option (List V) → Option (List V) → String → String → Bool
  slices_allow none to namespace service = false
  slices_allow (some from) none namespace service = false
  slices_allow (some from) (some to) namespace service =
      if not (any (from_allows namespace) from) then false else any (to_allows service) to

  -- `referenceGrantAllows`
  unfoldable pub grant_allows : V → String → String → Bool
  grant_allows grant namespace service =
      slices_allow (fields.spec_slice "from" grant) (fields.spec_slice "to" grant) namespace service

  abbrev pub some_grant_allows : Option (List V) → String → String → Bool
  some_grant_allows none namespace service = false
  some_grant_allows (some grants) namespace service =
      any (λ g. grant_allows g namespace service) grants

  -- `crossNamespaceHealthCheckAllowed`, where `grants` lists the grants of a namespace.
  unfoldable pub cross_namespace_allowed : (String → Option (List V)) → App → Bool
  cross_namespace_allowed grants a =
      some_grant_allows (grants a.service_namespace) a.namespace (probe_service a)

  -- `NebariAppWatcher.toApp`, behind the reading of the object's fields.
  unfoldable pub with_consent : (String → Option (List V)) → App → App
  with_consent grants a =
      if not (is_blank a.service_namespace) && not (str_eq a.service_namespace a.namespace)
      then record a { cross_namespace_allowed = cross_namespace_allowed grants a }
      else a
