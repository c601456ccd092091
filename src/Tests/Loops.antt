-- ===== src/Tests/Loops.antt =====
-- Runs of the loops: the checker, one probe loop, and the first fetch of the keys.
use nebari_landing.Base.{
  ℕ, zero, suc, String, ◌≡◌, ◌≢◌, ◌⊎◌, inl, inr, refl, Bool, true, false, Option, none, some, List,
  [], ◌∷◌, lookup, arith, ℤ, duration_of_seconds, pos, ◌≤ℤ◌, ◌<ℤ◌, ◌<◌, ◌+◌,
}
use nebari_landing.Cache.{get}
use nebari_landing.Health.{Site}
use nebari_landing.Health.Loops.{
  Chance, Signal, tick, Pulse, elapsed, stopped, probe_loop, start_checker,
}
use nebari_landing.Health.Loops.Probing.{IsProbing, IsTidy, probe_loop-IsProbing, probe_loop-IsTidy}
use nebari_landing.Health.Loops.Following.{Follows, start_checker-Follows}
use nebari_landing.Auth.{Validator, Jwk, new_validator}
use nebari_landing.Auth.Starting.{Round, init_loop}
use nebari_landing.Auth.Starting.Ending.{IsSettled, Ends, schedule, init_loop-IsSettled}
use nebari_landing.Tests.Samples.{web_cache, web_config, web_entry}
use nebari_landing.Tests.Cache.{web_cache-IsKeyed}
use nebari_landing.Tests.Health.{site, outputs, net}
use nebari_landing.Tests.Auth.{decode, key_set, second}

-- Keycloak is away for two attempts, and answers from the third one on.
abbrev rounds : ℕ → Round
rounds zero = record { halts = false; now = second; reply = none }
rounds (suc zero) = record { halts = false; now = second; reply = some [] }
rounds (suc (suc n)) = record { halts = false; now = second; reply = some key_set }

third : Ends decode (rounds 2)
unfolding nebari_landing.Auth.load_keys nebari_landing.Auth.parse_key nebari_landing.Base.insert
third = inr refl

init_loop-IsSettled_example :
    IsSettled decode rounds
      (schedule (2000000000 ∷ 4000000000 ∷ 8000000000 ∷ 16000000000 ∷ []))
      (new_validator "https://kc.example" "nebari")
      2
      (init_loop decode 0 rounds (new_validator "https://kc.example" "nebari"))
init_loop-IsSettled_example =
    init_loop-IsSettled decode 0 rounds (new_validator "https://kc.example" "nebari") 2
      (omega arith) third

abbrev chance : Chance
chance = record { net = net; during = λ w. w }

abbrev signals : List Signal
signals = tick (λ w. w) chance ∷ tick (λ w. record w { events = [] }) chance ∷ []

probe_loop-IsProbing_example :
    IsProbing outputs false "u1" web_config chance
      (probe_loop outputs false "u1" web_config chance signals site)
unfolding get lookup
probe_loop-IsProbing_example =
    probe_loop-IsProbing outputs false "u1" web_config signals chance site (web_entry, refl, refl)
      (λ w h. h) ((λ w h. h), (λ w h. h), ((λ w h. h), (λ w h. h), tt))

-- The service goes between the second and the third probe.
abbrev leaving : List Signal
leaving =
    tick (λ w. w) chance
    ∷ tick (λ w. record w { cache = record web_cache { services = [] } }) chance
    ∷ []

probe_loop-IsTidy_example :
    IsTidy outputs false "u1" web_config
      (probe_loop outputs false "u1" web_config chance leaving site)
probe_loop-IsTidy_example = probe_loop-IsTidy outputs false "u1" web_config leaving chance site tt

abbrev pulses : List Pulse
pulses = elapsed (λ w. w) ∷ stopped (λ w. w) ∷ []

start_checker-Follows_example :
    ((duration_of_seconds (pos 30) ≤ℤ pos 0)
      × ((pos 30 ≤ℤ pos 0) ⊎ (pos 9223372036 <ℤ pos 30))
      × (start_checker (duration_of_seconds (pos 30)) pulses site ≡ none))
    ⊎ ((pos 0 <ℤ duration_of_seconds (pos 30))
        × ((r : Site × Bool) × (start_checker (duration_of_seconds (pos 30)) pulses site ≡ some r)
            × Follows r))
start_checker-Follows_example =
    start_checker-Follows (pos 30) pulses site web_cache-IsKeyed ((λ w v. v), (tt, tt))

-- HEALTH_INTERVAL=9300000000, about 295 years, panics.
too_long_test : start_checker (duration_of_seconds (pos 9300000000)) pulses site ≡ none
unfolding duration_of_seconds start_checker
too_long_test = refl
