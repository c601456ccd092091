-- ===== src/Probe/Steps.antt =====
-- The steps of `buildHealthCheckConfig` read backwards, and its three branches.
use nebari_landing.Base.{
  String, ◌≡◌, ◌∙◌, refl, ap, Bool, true, false, Option, none, some, if◌then◌else◌,
}
use nebari_landing.App.{App, HealthCheck}
use nebari_landing.Probe.{
  TargetRules, HealthCheckConfig, Check, passed, refused, ◌>>=◌, ◌>>◌, require, or_refuse, outcome,
  resolve, requested, build_config, static_config, service_config,
}

pub require-eq_passed {ℓ} :
    {B : Type ℓ} (b : Bool) (r : String) (k : Check B) {c : B}
    → (require b r >> k) ≡ passed c
    → (b ≡ true) × (k ≡ passed c)
require-eq_passed true r k h = (refl, h)
require-eq_passed false r k h = cc

pub or_refuse-eq_passed {ℓ} :
    {B : Type ℓ} (o : Option String) (r : String) (k : String → Check B) {c : B}
    → (or_refuse o r >>= k) ≡ passed c
    → (p : String) × (o ≡ some p) × (k p ≡ passed c)
or_refuse-eq_passed none r k h = cc
or_refuse-eq_passed (some p) r k h = (p, refl, h)

-- A step that leads on had a value, and the rest went on with it.
pub bind-eq_passed {ℓ κ} :
    {A : Type ℓ} {B : Type κ} (m : Check A) (k : A → Check B) (c : B)
    → (m >>= k) ≡ passed c
    → (a : A) × (m ≡ passed a) × (k a ≡ passed c)
bind-eq_passed (passed a) k c h = (a, refl, h)
bind-eq_passed (refused r) k c h = cc h

pub passed_inj : {c d : HealthCheckConfig} → passed c ≡ passed d → c ≡ d
passed_inj h = cc

pub outcome-passed :
    (c : Check HealthCheckConfig) (cfg : HealthCheckConfig)
    → (outcome c).0 ≡ some cfg
    → c ≡ passed cfg
outcome-passed (passed c) cfg h = cc
outcome-passed (refused r) cfg h = cc

pub require-true {ℓ} :
    {B : Type ℓ} (b : Bool) (r : String) (k : Check B) → b ≡ true → (require b r >> k) ≡ k
require-true true r k h = refl
require-true false r k h = cc

pub or_refuse-some {ℓ} :
    {B : Type ℓ} (o : Option String) (r : String) (k : String → Check B) (p : String)
    → o ≡ some p
    → (or_refuse o r >>= k) ≡ k p
or_refuse-some none r k p h = cc
or_refuse-some (some q) r k p h = ap k (cc)

pub build_config-service :
    (rules : TargetRules) (a : App) (hc : HealthCheck)
    → requested a ≡ some hc
    → a.static ≡ false
    → build_config rules a ≡ outcome (service_config rules a hc)
unfolding build_config
build_config-service rules a hc r s =
    ap (resolve rules a) r
    ∙ ap (λ b. outcome (if b then static_config hc else service_config rules a hc)) s

pub build_config-static :
    (rules : TargetRules) (a : App) (hc : HealthCheck)
    → requested a ≡ some hc
    → a.static ≡ true
    → build_config rules a ≡ outcome (static_config hc)
unfolding build_config
build_config-static rules a hc r s =
    ap (resolve rules a) r
    ∙ ap (λ b. outcome (if b then static_config hc else service_config rules a hc)) s

pub build_config-unrequested :
    (rules : TargetRules) (a : App) → requested a ≡ none → build_config rules a ≡ (none, "")
unfolding build_config
build_config-unrequested rules a r = ap (resolve rules a) r
