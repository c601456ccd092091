-- ===== src/Health/Loops.antt =====
-- internal/health/checker.go: probeLoop and Start, the two loops that tickers drive. What a `select`
-- sees, one round after the other, is a list; a list that is used up leaves the loop waiting.
pub mod Probing
pub mod Following
use nebari_landing.Base.{
  String, Bool, true, false, Option, none, some, List, [], ◌∷◌, if◌then◌else◌, ℤ, pos, ltb_ℤ,
  duration_of_seconds,
}
use nebari_landing.Probe.{HealthCheckConfig}
use nebari_landing.Health.{Outputs, Network, Site, probe_if_current, reconcile, stop_all}

-- The interval of `probeLoop`, in nanoseconds, where `fallback` is the checker's own.
unfoldable pub loop_interval : ℤ → HealthCheckConfig → ℤ
loop_interval fallback cfg =
    let interval = duration_of_seconds cfg.interval_seconds in
    if ltb_ℤ (pos 0) interval then interval else fallback

-- One probe: what the network answers, and what the rest of the program does meanwhile.
pub record Chance : Type 0 where
  pub net : Network
  pub during : Site → Site

-- What `probeLoop` waits for, behind what the rest of the program did.
pub data Signal : Type 0 where
  tick : (Site → Site) → Chance → Signal
  cancelled : (Site → Site) → Signal

abbrev pub go_on : Site × Bool → (Site → Site × Bool) → Site × Bool
go_on (w, true) rest = rest w
go_on (w, false) rest = (w, false)

module _ (out : Outputs) (runner : Bool) (uid : String) (cfg : HealthCheckConfig) where
  abbrev pub probe_once : Chance → Site → Site × Bool
  probe_once c w = probe_if_current out runner c.net uid cfg c.during w

  -- The loop behind the ticker; the Boolean says that it has not returned.
  unfoldable pub on_signals : List Signal → Site → Site × Bool
  on_signals [] w = (w, true)
  on_signals (tick between c ∷ rest) w = go_on (probe_once c (between w)) (λ v. on_signals rest v)
  on_signals (cancelled between ∷ rest) w = (between w, false)

  -- `probeLoop`
  unfoldable pub probe_loop : Chance → List Signal → Site → Site × Bool
  probe_loop c signals w = go_on (probe_once c w) (λ v. on_signals signals v)

-- What `Start` waits for.
pub data Pulse : Type 0 where
  elapsed : (Site → Site) → Pulse
  stopped : (Site → Site) → Pulse

abbrev pub reconcile_site : Site → Site
reconcile_site w = record w { checker = reconcile w.cache w.checker }

unfoldable pub on_pulses : List Pulse → Site → Site × Bool
on_pulses [] w = (w, true)
on_pulses (elapsed between ∷ rest) w = on_pulses rest (reconcile_site (between w))
on_pulses (stopped between ∷ rest) w =
    let v = between w in (record v { checker = stop_all v.checker }, false)

-- `Start`, with the checker's interval in nanoseconds. `none` is the panic of `time.NewTicker`, which
-- takes no interval below one.
unfoldable pub start_checker : ℤ → List Pulse → Site → Option (Site × Bool)
start_checker interval pulses w =
    let v = reconcile_site w in if ltb_ℤ (pos 0) interval then some (on_pulses pulses v) else none
