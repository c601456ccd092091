-- ===== src/Health/Storing.antt =====
-- `probeIfCurrent`: what becomes of a result.
use nebari_landing.Base.{
  eq_refl, String, subst, ◌⊎◌, ◌≡◌, ◌≢◌, ◌∙◌, refl, sym, ap, inl, inr, Bool, true, false, some,
  if◌then◌else◌, Bool-cases, str_eq, lookup,
}
use nebari_landing.Probe.{HealthCheckConfig}
use nebari_landing.Cache.{ServiceInfo, ServiceCache, get, update_health_if_current}
use nebari_landing.Cache.Updates.{HasConfig, update_health_if_current-exact}
use nebari_landing.Health.{
  ProbeResult, Site, Outputs, health_status, forget_probe, after_health_update, finish_probe,
}
use nebari_landing.Health.Announcing.{IsAnnounced, after-IsAnnounced}
use nebari_landing.Health.Forgetting.{forget_probe-forgotten}

-- The entry of `s` with the result as its health.
abbrev pub with_result : ProbeResult → ServiceInfo → ServiceInfo
with_result result s = record s { health = some (health_status result) }

-- `w'` is `w` after a result was stored for the service `s`.
pub record IsStored (out : Outputs) (uid prev_status : String) (result : ProbeResult)
    (s : ServiceInfo) (w w' : Site) : Type 0 where
  pub health :
      (k : String)
      → get k w'.cache ≡ (if str_eq uid k then some (with_result result s) else get k w.cache)
  pub announced :
      IsAnnounced out prev_status result.status
        (with_result result s)
        (record w { cache = w'.cache })
        w'

-- `w'` is `w` after a result was discarded: nothing went out, the cache is as it was, and the
-- config has no running probe under the UID.
pub record IsDiscarded (uid : String) (cfg : HealthCheckConfig) (w w' : Site) : Type 0 where
  pub cache : w'.cache ≡ w.cache
  pub events : w'.events ≡ w.events
  pub posted : w'.posted ≡ w.posted
  pub notices : w'.notices ≡ w.notices
  pub forgotten : lookup uid w'.checker.running ≢ some cfg
  pub others : (k : String) → k ≢ uid → lookup k w'.checker.running ≡ lookup k w.checker.running

after_health_update-IsStored :
    (out : Outputs) (uid prev_status : String) (result : ProbeResult) (s : ServiceInfo) (w : Site)
    (c : ServiceCache)
    → ((k : String)
        → get k c ≡ (if str_eq uid k then some (with_result result s) else get k w.cache))
    → IsStored out uid prev_status result s w
        (after_health_update out uid prev_status result.status (record w { cache = c }))
after_health_update-IsStored out uid prev_status result s w c f =
    let a =
      after-IsAnnounced out uid prev_status result.status (with_result result s)
        (record w { cache = c })
        (f uid
          ∙ ap (λ b. if b then some (with_result result s) else get uid w.cache) (eq_refl uid)) in
    record {
      health = λ k. ap (get k) a.cache ∙ f k;
      announced = record {
        event = a.event;
        posted = a.posted;
        notice = a.notice;
        checker = a.checker;
        cache = refl;
      };
    }

-- The two ends of `probeIfCurrent`, chosen by the result of the update.
split_stored :
    (b : Bool) (v v' : Site)
    → b ≡ true
    → ◌≡◌ {A = Site × Bool} (if b then (v, true) else (v', false)) (v, true)
split_stored true v v' e = refl
split_stored false v v' e = cc

split_discarded :
    (b : Bool) (v v' : Site)
    → b ≡ false
    → ◌≡◌ {A = Site × Bool} (if b then (v, true) else (v', false)) (v', false)
split_discarded true v v' e = cc
split_discarded false v v' e = refl

-- `probeIfCurrent` after the request, whatever happened to the cache meanwhile. The result is
-- stored exactly if the service is still there under the probed config; then the service's health
-- is the result, the new entry is published, and a recovery is posted and published if the service
-- was "unhealthy" before and is "healthy" now. Otherwise nothing is stored or published, and the
-- probe stops running.
pub finish_probe-exact :
    (out : Outputs) (uid : String) (cfg : HealthCheckConfig) (prev_status : String)
    (result : ProbeResult) (w : Site)
    → let (w', stored) = finish_probe out uid cfg prev_status result w in
      ((s : ServiceInfo) × (get uid w.cache ≡ some s)
        × (s.health_check_config ≡ some cfg)
        × (stored ≡ true)
        × IsStored out uid prev_status result s w w')
      ⊎ ((¬ HasConfig uid cfg w.cache) × (stored ≡ false) × IsDiscarded uid cfg w w')
unfolding finish_probe
finish_probe-exact out uid cfg prev_status result w =
    let (exact, writes, keeps) =
      update_health_if_current-exact uid cfg (health_status result) w.cache in
    let c = (update_health_if_current uid (some cfg) (health_status result) w.cache).0 in
    let b = (update_health_if_current uid (some cfg) (health_status result) w.cache).1 in
    let v = after_health_update out uid prev_status result.status (record w { cache = c }) in
    let v' = record w { cache = c; checker = forget_probe uid cfg w.checker } in
    elim (Bool-cases b) [
      | inl e ↦
          let (s, g, q) = exact.0 e in
          let r = split_stored b v v' e in
          inl (
            s,
            g,
            q,
            ap (λ x. x.1) r,
            subst (IsStored out uid prev_status result s w) (sym (ap (λ x. x.0) r)) (
                after_health_update-IsStored out uid prev_status result s w c
                  (λ k. writes s k e g)),
          )
      | inr e ↦
          let (f, o) = forget_probe-forgotten uid cfg w.checker in
          let r = split_discarded b v v' e in
          inr (
            (λ h. cc (e, exact.1 h)),
            ap (λ x. x.1) r,
            subst (IsDiscarded uid cfg w) (sym (ap (λ x. x.0) r)) (record {
              cache = keeps e;
              events = refl;
              posted = refl;
              notices = refl;
              forgotten = f;
              others = o;
            }),
          )
    ]
