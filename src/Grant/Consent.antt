-- ===== src/Grant/Consent.antt =====
-- Which consent stands behind a probe of another namespace.
use nebari_landing.Base.{
  String, ◌≡◌, ◌∙◌, refl, sym, ap, ◌⊎◌, inl, inr, Bool, true, false, not, ◌&&◌, Option, none, some,
  List, Memᴰ, if◌then◌else◌, Option-cases, str_eq, is_blank, any→Exists,
}
use nebari_landing.App.{App}
use nebari_landing.Probe.{
  TargetRules, HealthCheckConfig, build_config, requested, probe_service, probe_namespace,
}
use nebari_landing.Probe.Steps.{build_config-service, build_config-unrequested, outcome-passed}
use nebari_landing.Probe.Resolution.{service_config_sound}
use nebari_landing.Grant.{
  Fields, grant_allows, some_grant_allows, cross_namespace_allowed, with_consent,
}
use nebari_landing.Grant.Allowing.{IsGrant, grant_allows_iff}

module _ {V : Type 0} (fields : Fields V) where
  consent_of_grants :
      (o : Option (List V)) (namespace service : String)
      → some_grant_allows fields o namespace service ≡ true
      → (grants : List V) × (g : V) × (o ≡ some grants)
        × Memᴰ g grants
        × IsGrant fields namespace service g
  consent_of_grants none namespace service h = cc
  consent_of_grants (some grants) namespace service h =
      let (g, m, i) = any→Exists (λ g. grant_allows fields g namespace service) grants h in
      (grants, g, refl, m, (grant_allows_iff fields g namespace service).0 i)

  -- The consent that the namespace `target` gives to the app: a grant in it that names the app's
  -- namespace and the probed Service.
  abbrev pub IsConsented : (String → Option (List V)) → App → Type 0
  IsConsented list_grants a =
      (grants : List V) × (g : V) × (list_grants a.service_namespace ≡ some grants)
      × Memᴰ g grants
      × IsGrant fields a.namespace (probe_service a) g

  by_consent :
      (list_grants : String → Option (List V)) (a : App) (b : Bool)
      → a.cross_namespace_allowed ≡ false
      → let a' =
          if b
          then record a { cross_namespace_allowed = cross_namespace_allowed fields list_grants a }
          else a in
        (a'.static ≡ a.static)
        × (a'.namespace ≡ a.namespace)
        × (probe_namespace a' ≡ probe_namespace a)
        × (a'.cross_namespace_allowed ≡ true → IsConsented list_grants a)
  unfolding cross_namespace_allowed probe_namespace
  by_consent list_grants a true f = (
    refl,
    refl,
    refl,
    consent_of_grants (list_grants a.service_namespace) a.namespace (probe_service a),
  )
  by_consent list_grants a false f = (refl, refl, refl, (λ e. cc (e, f)))

  -- For an app that carries no consent of its own and is no static entry: if it gets a probe after
  -- the watcher has looked up its grants, the probe's target is in the app's own namespace, or a
  -- grant in the target's namespace names the app's namespace and the target.
  pub with_consent-IsConsented :
      (rules : TargetRules) (list_grants : String → Option (List V)) (a : App)
      (cfg : HealthCheckConfig)
      → a.static ≡ false
      → a.cross_namespace_allowed ≡ false
      → (build_config rules (with_consent fields list_grants a)).0 ≡ some cfg
      → (probe_namespace a ≡ a.namespace) ⊎ IsConsented list_grants a
  unfolding with_consent
  with_consent-IsConsented rules list_grants a cfg s f h =
      let b = not (is_blank a.service_namespace) && not (str_eq a.service_namespace a.namespace) in
      let a' = with_consent fields list_grants a in
      let (es, en, ep, consent) = by_consent list_grants a b f in
      elim (Option-cases (requested a')) [
        | inl e ↦ cc (h, ap (λ o. o.0) (build_config-unrequested rules a' e))
        | inr (hc, e) ↦
            let (path, p, _) = service_config_sound rules a' hc cfg (
              outcome-passed _ cfg
                (sym (ap (λ o. o.0) (build_config-service rules a' hc e (es ∙ s))) ∙ h)) in
            elim p.consented [ inl q ↦ inl (sym ep ∙ q ∙ en) | inr q ↦ inr (consent q) ]
      ]
