-- ===== src/Startup/Wiring.antt =====
-- cmd/main.go: what the parts of a process that is up have to do with its settings.
use nebari_landing.Base.{
  String, ◌≡◌, refl, sym, ap, subst, arith, ◌⊎◌, inl, inr, Bool, true, false, not, ◌||◌, Option,
  none, some, List, Bool-cases, str_eq, eq_iff, is_blank, if◌then◌else◌,
}
use nebari_landing.Probe.{TargetRules, Url, Check, passed, refused}
use nebari_landing.Probe.Steps.{require-eq_passed, bind-eq_passed}
use nebari_landing.Cache.{ServiceCache, new_cache}
use nebari_landing.Static.{Service, ParseError, parse}
use nebari_landing.Access.{principal_can_access}
use nebari_landing.Hub.{set_access_policy}
use nebari_landing.Auth.{Validator, new_validator, set_issuer_url}
use nebari_landing.Keycloak.{new_from_env_with_k8s_client}
use nebari_landing.Startup.Configuration.{Settings}
use nebari_landing.Startup.{
  load_statics, cache_of, validator_for, endpoint_of, set_probe_runner_url, Surroundings, Process,
  process_of, start, start_api, Running, isolated_runner, web_api, api_up,
}
use nebari_landing.Startup.Options.{IsConfigured, handler_for-IsConfigured}

-- The steps that a start has gone through.
pub record IsUp (rules : TargetRules) (decode : String → Option (List Service × Bool))
    (around : Surroundings) (s : Settings) (p : Process) : Type 0 where
  pub services : List Service
  pub validator : Option Validator
  pub runner : Option Url
  pub parsed : parse rules decode s.static_services ≡ inr services
  pub validated : validator_for around.env s ≡ passed validator
  pub delegated : set_probe_runner_url rules s.probe_runner_url ≡ passed runner
  pub made : p ≡ process_of around s (load_statics rules services new_cache) validator runner

cache_of-eq_passed :
    (rules : TargetRules) (r : ParseError ⊎ List Service) (c : ServiceCache)
    → cache_of rules r ≡ passed c
    → (services : List Service) × (r ≡ inr services) × (load_statics rules services new_cache ≡ c)
cache_of-eq_passed rules (inl e) c h = cc h
cache_of-eq_passed rules (inr services) c h = (services, refl, cc h)

start_api-IsUp :
    (rules : TargetRules) (decode : String → Option (List Service × Bool)) (around : Surroundings)
    (s : Settings) (p : Process)
    → start_api rules decode around s ≡ passed p
    → IsUp rules decode around s p
unfolding start_api
start_api-IsUp rules decode around s p h0 =
    let (kubeconfig, h1) = require-eq_passed around.kubeconfig _ _ h0 in
    let (kubernetes, h2) = require-eq_passed around.kubernetes _ _ h1 in
    let (c, cached, h3) =
      bind-eq_passed (cache_of rules (parse rules decode s.static_services)) _ _ h2 in
    let (redis, h4) = require-eq_passed around.redis _ _ h3 in
    let (watcher, h5) = require-eq_passed around.watcher _ _ h4 in
    let (synced, h6) = require-eq_passed around.synced _ _ h5 in
    let (validator, validated, h7) = bind-eq_passed (validator_for around.env s) _ _ h6 in
    let (runner, delegated, h8) =
      bind-eq_passed (set_probe_runner_url rules s.probe_runner_url) _ _ h7 in
    let (services, parsed, loaded) =
      cache_of-eq_passed rules (parse rules decode s.static_services) c cached in
    record {
      services = services;
      validator = validator;
      runner = runner;
      parsed = parsed;
      validated = validated;
      delegated = delegated;
      made = cc (h8, ap (λ v. process_of around s v validator runner) loaded);
    }

api_up-eq_passed :
    (c : Check Process) (up : Running)
    → api_up c ≡ passed up
    → (p : Process) × (c ≡ passed p) × (up ≡ web_api p)
api_up-eq_passed (refused reason) up h = cc h
api_up-eq_passed (passed p) up h = (p, refl, cc h)

either_up :
    (b : Bool) (r : Running) (c : Check Process) (up : Running)
    → (if b then passed r else api_up c) ≡ passed up
    → ((b ≡ true) × (up ≡ r)) ⊎ ((b ≡ false) × ((p : Process) × (c ≡ passed p) × (up ≡ web_api p)))
either_up true r c up h = inl (refl, cc h)
either_up false r c up h = inr (refl, api_up-eq_passed c up h)

-- A start gives the probe runner or goes through the steps of the web API.
start-cases :
    (rules : TargetRules) (decode : String → Option (List Service × Bool)) (around : Surroundings)
    (s : Settings) (up : Running)
    → start rules decode around s ≡ passed up
    → ((s.probe_runner ≡ true) × (up ≡ isolated_runner s.port))
      ⊎ ((s.probe_runner ≡ false)
          × ((p : Process) × (start_api rules decode around s ≡ passed p) × (up ≡ web_api p)))
unfolding start
start-cases rules decode around s up h =
    either_up s.probe_runner (isolated_runner s.port) (start_api rules decode around s) up h

pub start-IsUp :
    (rules : TargetRules) (decode : String → Option (List Service × Bool)) (around : Surroundings)
    (s : Settings) (p : Process)
    → start rules decode around s ≡ passed (web_api p)
    → IsUp rules decode around s p
start-IsUp rules decode around s p h = elim (start-cases rules decode around s (web_api p) h) [
  | inl (on, e) ↦ cc e
  | inr (off, (q, up, e)) ↦
      subst (IsUp rules decode around s) (cc e) (start_api-IsUp rules decode around s q up)
]

validator_for-cases :
    (env : String → String) (s : Settings) (v : Option Validator)
    → validator_for env s ≡ passed v
    → ((s.enable_auth ≡ true)
        × (is_blank s.keycloak_url ≡ false)
        × (v
            ≡ some (
                set_issuer_url
                  (env "KEYCLOAK_ISSUER_URL")
                  (new_validator s.keycloak_url s.keycloak_realm))))
      ⊎ ((s.enable_auth ≡ false) × (v ≡ none))
unfolding validator_for
validator_for-cases env s v h = elim (Bool-cases s.enable_auth) [
  | inl on ↦ elim (Bool-cases (is_blank s.keycloak_url)) [
    | inl b ↦ cc (rw (on, b) at h)
    | inr b ↦ inl (on, b, cc (rw (on, b) at h))
  ]
  | inr off ↦ inr (off, cc (rw off at h))
]

-- The runner that is used: none where no URL is set, else one at that URL, over HTTP or HTTPS.
pub record IsRunner (rules : TargetRules) (raw_url : String) (u : Url) : Type 0 where
  pub parsed : rules.parse_url raw_url ≡ some u
  pub scheme : (u.scheme ≡ "http") ⊎ (u.scheme ≡ "https")
  pub host : is_blank u.host ≡ false

scheme_cases :
    (a : String) → (str_eq a "http" || str_eq a "https") ≡ true → (a ≡ "http") ⊎ (a ≡ "https")
scheme_cases a h = ground (arith, eq_iff a "http", eq_iff a "https")

not-true : (b : Bool) → not b ≡ true → b ≡ false
not-true b h = ground arith

endpoint_of-IsRunner :
    (rules : TargetRules) (raw_url : String) (o : Option Url) (r : Option Url)
    → rules.parse_url raw_url ≡ o
    → endpoint_of o ≡ passed r
    → (u : Url) × (r ≡ some u) × IsRunner rules raw_url u
endpoint_of-IsRunner rules raw_url none r e h = cc h
endpoint_of-IsRunner rules raw_url (some u) r e h0 =
    let (scheme, h1) =
      require-eq_passed (str_eq u.scheme "http" || str_eq u.scheme "https") _ _ h0 in
    let (host, h2) = require-eq_passed (not (is_blank u.host)) _ _ h1 in
    (
      u,
      cc h2,
      record {
        parsed = e;
        scheme = scheme_cases u.scheme scheme;
        host = not-true (is_blank u.host) host;
      },
    )

set_probe_runner_url-cases :
    (rules : TargetRules) (raw_url : String) (r : Option Url)
    → set_probe_runner_url rules raw_url ≡ passed r
    → ((is_blank raw_url ≡ true) × (r ≡ none))
      ⊎ ((u : Url) × (r ≡ some u) × IsRunner rules raw_url u)
unfolding set_probe_runner_url
set_probe_runner_url-cases rules raw_url r h = elim (Bool-cases (is_blank raw_url)) [
  | inl b ↦ inl (b, cc (rw b at h))
  | inr b ↦ inr (endpoint_of-IsRunner rules raw_url (rules.parse_url raw_url) r refl (rw b at h))
]

-- What holds of a process that is up.
pub record IsWired (rules : TargetRules) (around : Surroundings) (s : Settings) (p : Process)
    : Type 0 where
  pub handler : IsConfigured s p.handler
  pub policy : p.hub.policy ≡ some principal_can_access
  pub validator :
      ((s.enable_auth ≡ true)
        × (is_blank s.keycloak_url ≡ false)
        × (p.validator
            ≡ some (
                set_issuer_url
                  (around.env "KEYCLOAK_ISSUER_URL")
                  (new_validator s.keycloak_url s.keycloak_realm))))
      ⊎ ((s.enable_auth ≡ false) × (p.validator ≡ none))
  pub runner :
      ((is_blank s.probe_runner_url ≡ true) × (p.runner ≡ none))
      ⊎ ((u : Url) × (p.runner ≡ some u) × IsRunner rules s.probe_runner_url u)

IsUp-IsWired :
    (rules : TargetRules) (decode : String → Option (List Service × Bool)) (around : Surroundings)
    (s : Settings) (p : Process)
    → IsUp rules decode around s p
    → IsWired rules around s p
unfolding set_access_policy
IsUp-IsWired rules decode around s p up = subst (IsWired rules around s) (sym up.made) (record {
  handler = handler_for-IsConfigured s (new_from_env_with_k8s_client around.env around.secrets);
  policy = refl;
  validator = validator_for-cases around.env s up.validator up.validated;
  runner = set_probe_runner_url-cases rules s.probe_runner_url up.runner up.delegated;
})

pub start_web-IsWired :
    (rules : TargetRules) (decode : String → Option (List Service × Bool)) (around : Surroundings)
    (s : Settings) (p : Process)
    → start rules decode around s ≡ passed (web_api p)
    → IsWired rules around s p
start_web-IsWired rules decode around s p h =
    IsUp-IsWired rules decode around s p (start-IsUp rules decode around s p h)

-- What the settings ask for: the probe runner on the configured port and nothing else, or the web
-- API with its parts.
abbrev pub IsAsked : TargetRules → Surroundings → Settings → Running → Type 0
IsAsked rules around s (isolated_runner port) = (s.probe_runner ≡ true) × (port ≡ s.port)
IsAsked rules around s (web_api p) = (s.probe_runner ≡ false) × IsWired rules around s p

-- A start that does not exit gives what its settings ask for. With the switch of the probe runner,
-- that is the probe runner alone, on the configured port. Without it, it is a web API in which tokens
-- are asked for exactly if authentication is enabled, and then there is a validator for the
-- configured server and realm, whose URL is not empty; no extractor of tests is in place; the debug
-- route, the routes of the document, the administrators' group and the allowed origins are as
-- configured; the hub filters what it sends by the access rule of the API; and where the URL of a
-- probe runner is configured, the probes go through that URL, over HTTP or HTTPS and with a host.
pub start-IsWired :
    (rules : TargetRules) (decode : String → Option (List Service × Bool)) (around : Surroundings)
    (s : Settings) (up : Running)
    → start rules decode around s ≡ passed up
    → IsAsked rules around s up
start-IsWired rules decode around s up h = elim (start-cases rules decode around s up h) [
  | inl (on, e) ↦ subst (IsAsked rules around s) (sym e) (on, refl)
  | inr (off, (p, started, e)) ↦
      subst (IsAsked rules around s) (sym e)
        (off, IsUp-IsWired rules decode around s p (start_api-IsUp rules decode around s p started))
]
