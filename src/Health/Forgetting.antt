-- ===== src/Health/Forgetting.antt =====
-- `forgetRunningProbe`: which probes still run.
use nebari_landing.Base.{
  eq_refl, String, ◌≡◌, ◌≢◌, ◌∙◌, refl, sym, ap, inl, inr, Option, none, some, arith, eq_iff,
  if◌then◌else◌, Bool-cases, lookup, delete, lookup-delete,
}
use nebari_landing.Probe.{HealthCheckConfig}
use nebari_landing.Cache.{same_config}
use nebari_landing.Cache.Updates.{same_config_iff}
use nebari_landing.Health.{Running, cancel_probe, forget_probe, forget_current}

forget_current-forgotten :
    (uid : String) (cfg : HealthCheckConfig) (o : Option HealthCheckConfig) (h : Running)
    → lookup uid h.running ≡ o
    → (lookup uid (forget_current uid cfg o h).running ≢ some cfg)
      × ((k : String)
          → k ≢ uid
          → lookup k (forget_current uid cfg o h).running ≡ lookup k h.running)
unfolding cancel_probe
forget_current-forgotten uid cfg none h e = ((λ q. cc (e, q)), (λ k n. refl))
forget_current-forgotten uid cfg (some g) h e = elim (Bool-cases (same_config g cfg)) [
  | inl q ↦ rw q (
    (λ r. cc (sym (gone uid) ∙ r)),
    (λ k n. ground (arith, lookup-delete uid k h.running, eq_iff uid k)),
  )
  | inr q ↦ rw q ((λ r. cc (q, (same_config_iff g cfg).1 (same (sym e ∙ r)))), (λ k n. refl))
]
  where
    same : ◌≡◌ {A = Option HealthCheckConfig} (some g) (some cfg) → g ≡ cfg
    same e = cc

    gone : (k : String) → lookup k (delete k h.running) ≡ none
    gone k =
        lookup-delete k k h.running ∙ ap (λ b. if b then none else lookup k h.running) (eq_refl k)

pub forget_probe-forgotten :
    (uid : String) (cfg : HealthCheckConfig) (h : Running)
    → (lookup uid (forget_probe uid cfg h).running ≢ some cfg)
      × ((k : String) → k ≢ uid → lookup k (forget_probe uid cfg h).running ≡ lookup k h.running)
unfolding forget_probe
forget_probe-forgotten uid cfg h = forget_current-forgotten uid cfg (lookup uid h.running) h refl
