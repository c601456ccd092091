-- ===== src/Health/Loops/Probing.antt =====
-- `probeLoop`: it goes on while its config is current, and cleans up when it returns by itself.
use nebari_landing.Base.{
  String, ◌≡◌, ◌≢◌, ◌∙◌, refl, ◌⊎◌, inl, inr, Bool, true, false, some, List, [], ◌∷◌, arith,
  duration_of_seconds, duration_of_seconds-positive, if_taken, if_either, lookup, str_eq, eq_refl,
  ℤ, pos, ltb_ℤ, ◌<ℤ◌,
}
use nebari_landing.App.{App}
use nebari_landing.Probe.{TargetRules, HealthCheckConfig, build_config}
use nebari_landing.Probe.Trust.{build_config-IsFrom}
use nebari_landing.Cache.{ServiceInfo, get, health_status_if_current}
use nebari_landing.Cache.Updates.{HasConfig, HasConfig-current}
use nebari_landing.Health.{
  Outputs, ProbeResult, Site, health_status, run_probe, finish_probe, probe_if_current,
}
use nebari_landing.Health.Storing.{with_result, finish_probe-exact}
use nebari_landing.Health.Forgetting.{forget_probe-forgotten}
use nebari_landing.Health.Loops.{
  loop_interval, Chance, Signal, tick, cancelled, go_on, probe_once, on_signals, probe_loop,
}

-- Whatever config an app has, its loop's ticker gets a positive interval.
pub loop_interval-positive :
    (rules : TargetRules) (a : App) (cfg : HealthCheckConfig) (fallback : ℤ)
    → (build_config rules a).0 ≡ some cfg
    → pos 0 <ℤ loop_interval fallback cfg
unfolding loop_interval
loop_interval-positive rules a cfg fallback h =
    let timed = (build_config-IsFrom rules a cfg h).timed in
    let positive =
      duration_of_seconds-positive cfg.interval_seconds (omega (arith, timed.interval_low))
        (omega (arith, timed.interval_high)) in
    rw
      (if_taken (ltb_ℤ (pos 0) (duration_of_seconds cfg.interval_seconds)) _ fallback
        (ground (arith, positive)))
      positive

module _ (out : Outputs) (runner : Bool) (uid : String) (cfg : HealthCheckConfig) where
  -- A step of the rest of the program that leaves the loop's config in place.
  abbrev pub Keeps : (Site → Site) → Type 0
  Keeps f = (w : Site) → HasConfig uid cfg w.cache → HasConfig uid cfg (f w).cache

  abbrev pub IsSteady : List Signal → Type 0
  IsSteady [] = Unit
  IsSteady (tick between c ∷ rest) = Keeps between × Keeps c.during × IsSteady rest
  IsSteady (cancelled between ∷ rest) = ⊥

  abbrev pub last_chance : Chance → List Signal → Chance
  last_chance c [] = c
  last_chance c (tick between d ∷ rest) = last_chance d rest
  last_chance c (cancelled between ∷ rest) = c

  -- The service stands under the loop's config, with the result of this probe as its health.
  abbrev pub Shows : Chance → Site → Type 0
  Shows c w =
      (s : ServiceInfo) × (get uid w.cache ≡ some s)
      × (s.health_check_config ≡ some cfg)
      × (s.health ≡ some (health_status (run_probe runner c.net cfg)))

  -- The loop runs on, and the last probe was this one.
  pub record IsProbing (c : Chance) (r : Site × Bool) : Type 0 where
    pub on : r.1 ≡ true
    pub shown : Shows c r.0

  finish-IsProbing :
      (prev_status : String) (c : Chance) (w : Site)
      → HasConfig uid cfg w.cache
      → IsProbing c (finish_probe out uid cfg prev_status (run_probe runner c.net cfg) w)
  finish-IsProbing prev_status c w h =
      let result = run_probe runner c.net cfg in
      elim (finish_probe-exact out uid cfg prev_status result w) [
        | inl (s, found, config, stored, kept) ↦ record {
          on = stored;
          shown = (
            with_result result s,
            kept.health uid
                ∙ if_taken (str_eq uid uid) (some (with_result result s)) (get uid w.cache)
                    (eq_refl uid),
            config,
            refl,
          );
        }
        | inr (other, stored, discarded) ↦ absurd (other h)
      ]

  probe_once-IsProbing :
      (c : Chance) (w : Site)
      → HasConfig uid cfg w.cache
      → Keeps c.during
      → IsProbing c (probe_once out runner uid cfg c w)
  unfolding probe_if_current
  probe_once-IsProbing c w h k =
      rw (HasConfig-current uid cfg w.cache h) (
        finish-IsProbing (health_status_if_current uid (some cfg) w.cache).0 c (c.during w) (k w h))

  signals-IsProbing :
      (signals : List Signal) (c : Chance) (r : Site × Bool)
      → IsSteady signals
      → IsProbing c r
      → IsProbing (last_chance c signals) (go_on r (λ v. on_signals out runner uid cfg signals v))
  unfolding on_signals
  signals-IsProbing signals c (w, false) steady h = cc (h.on)
  signals-IsProbing [] c (w, true) steady h = h
  signals-IsProbing (tick between d ∷ rest) c (w, true) (keeps, kept, steady) h =
      let (s, found, config, health) = h.shown in
      signals-IsProbing rest d (probe_once out runner uid cfg d (between w)) steady
        (probe_once-IsProbing d (between w) (keeps w (s, found, config)) kept)
  signals-IsProbing (cancelled between ∷ rest) c (w, true) steady h = elim steady [ ]

  -- While nothing cancels a probe loop and the rest of the program leaves its config in place, the
  -- loop keeps running through any number of ticks, and after each probe the health of the service
  -- is what that probe found.
  pub probe_loop-IsProbing :
      (signals : List Signal) (c : Chance) (w : Site)
      → HasConfig uid cfg w.cache
      → Keeps c.during
      → IsSteady signals
      → IsProbing (last_chance c signals) (probe_loop out runner uid cfg c signals w)
  unfolding probe_loop
  probe_loop-IsProbing signals c w h kept steady =
      signals-IsProbing signals c (probe_once out runner uid cfg c w) steady
        (probe_once-IsProbing c w h kept)

  abbrev pub OnlyTicks : List Signal → Type 0
  OnlyTicks [] = Unit
  OnlyTicks (tick between c ∷ rest) = OnlyTicks rest
  OnlyTicks (cancelled between ∷ rest) = ⊥

  -- The loop still runs, or it has left no probe of its config behind.
  abbrev pub IsTidy : Site × Bool → Type 0
  IsTidy (w, on) = (on ≡ true) ⊎ (lookup uid w.checker.running ≢ some cfg)

  finish-IsTidy :
      (prev_status : String) (result : ProbeResult) (w : Site)
      → IsTidy (finish_probe out uid cfg prev_status result w)
  finish-IsTidy prev_status result w = elim (finish_probe-exact out uid cfg prev_status result w) [
    | inl (s, found, config, stored, kept) ↦ inl stored
    | inr (other, stored, discarded) ↦ inr discarded.forgotten
  ]

  probe_once-IsTidy : (c : Chance) (w : Site) → IsTidy (probe_once out runner uid cfg c w)
  unfolding probe_if_current
  probe_once-IsTidy c w =
      let (prev_status, current) = health_status_if_current uid (some cfg) w.cache in
      if_either IsTidy current _ _
        (finish-IsTidy prev_status (run_probe runner c.net cfg) (c.during w))
        (inr (forget_probe-forgotten uid cfg w.checker).0)

  signals-IsTidy :
      (signals : List Signal) (r : Site × Bool)
      → OnlyTicks signals
      → IsTidy r
      → IsTidy (go_on r (λ v. on_signals out runner uid cfg signals v))
  unfolding on_signals
  signals-IsTidy signals (w, false) ticks h = h
  signals-IsTidy [] (w, true) ticks h = h
  signals-IsTidy (tick between d ∷ rest) (w, true) ticks h =
      signals-IsTidy rest (probe_once out runner uid cfg d (between w)) ticks
        (probe_once-IsTidy d (between w))
  signals-IsTidy (cancelled between ∷ rest) (w, true) ticks h = elim ticks [ ]

  -- A probe loop that returns without being cancelled, since its config is no longer that of the
  -- service, leaves no running probe of that config under the UID, whatever the rest of the program
  -- did; so the next reconciliation starts the probe again if the config is back.
  pub probe_loop-IsTidy :
      (signals : List Signal) (c : Chance) (w : Site)
      → OnlyTicks signals
      → IsTidy (probe_loop out runner uid cfg c signals w)
  unfolding probe_loop
  probe_loop-IsTidy signals c w ticks =
      signals-IsTidy signals (probe_once out runner uid cfg c w) ticks (probe_once-IsTidy c w)
