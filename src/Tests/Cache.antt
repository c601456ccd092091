-- ===== src/Tests/Cache.antt =====
-- Runs of the cache.
use nebari_landing.Base.{
  arith, String, ◌≡◌, subst, ◌↔◌, refl, Bool, true, false, none, some, List, [], ◌∷◌, Memᴰ, str_eq,
  if◌then◌else◌, is_blank, pos, values,
}
use nebari_landing.Probe.{build_config, clamp_seconds}
use nebari_landing.Probe.Timing.{clamp_seconds_within}
use nebari_landing.Cache.{
  ServiceInfo, new_cache, add, get, get_all, get_categories, update_health_if_current,
  health_status_if_current, listed, listed_before, HealthStatus,
}
use nebari_landing.Cache.Invariant.{IsKeyed, Call, run, run-new-IsKeyed}
use nebari_landing.Cache.Updates.{update_health_if_current-exact, HasConfig}
use nebari_landing.Base.{IsOrdered, IsAscending, str_ltb}
use nebari_landing.Tests.Samples.{rules, web_app, web_page, web_config, web_cache, up}

add_test : add rules (some web_app) new_cache ≡ web_cache
unfolding add listed nebari_landing.Cache.add_enabled nebari_landing.Base.insert
    nebari_landing.Cache.record_drop build_config nebari_landing.Probe.requested
    nebari_landing.Probe.service_config nebari_landing.Probe.normalize_path
    nebari_landing.Base.has_prefix nebari_landing.Probe.has_control
    nebari_landing.Probe.probe_service nebari_landing.Probe.probe_port
    nebari_landing.Probe.probe_namespace nebari_landing.Probe.target_protection
    nebari_landing.Base.has nebari_landing.Base.has_suffix nebari_landing.Probe.port_protected
    nebari_landing.Base.lookup nebari_landing.Base.decimal nebari_landing.Cache.build_url
    nebari_landing.Cache.preserve_health nebari_landing.Cache.service_of
    nebari_landing.Cache.should_reset_health clamp_seconds nebari_landing.Probe.interval_of
    nebari_landing.Probe.show_int nebari_landing.Probe.target_url nebari_landing.Probe.timeout_of
    nebari_landing.Base.byte_length
add_test = refl

abbrev calls : List Call
calls = Call.adds (some web_app) ∷ Call.updates "u1" up ∷ Call.removes "u2" ∷ []

run_test : run rules new_cache (Call.adds (some web_app) ∷ []) ≡ web_cache
unfolding run nebari_landing.Cache.Invariant.step add
run_test = add_test

pub web_cache-IsKeyed : IsKeyed web_cache
web_cache-IsKeyed = subst IsKeyed run_test (run-new-IsKeyed rules (Call.adds (some web_app) ∷ []))

update_health_if_current-exact_example :
    let (c', stored) = update_health_if_current "u1" (some web_config) up web_cache in
    ((stored ≡ true) ↔ HasConfig "u1" web_config web_cache)
    × ((s : ServiceInfo) (k : String)
        → stored ≡ true
        → get "u1" web_cache ≡ some s
        → get k c'
          ≡ (if str_eq "u1" k then some (record s { health = some up }) else get k web_cache))
    × (stored ≡ false → c' ≡ web_cache)
update_health_if_current-exact_example = update_health_if_current-exact "u1" web_config up web_cache

is_current : (health_status_if_current "u1" (some web_config) web_cache).1 ≡ true
unfolding health_status_if_current nebari_landing.Cache.config_matches nebari_landing.Base.lookup
    nebari_landing.Cache.same_config
is_current = refl

web_listed : listed web_app ≡ some web_page
unfolding listed
web_listed = refl

clamp_seconds_within_example : clamp_seconds (pos 60) (pos 30) (pos 10) (pos 300) ≡ pos 60
clamp_seconds_within_example =
    clamp_seconds_within (pos 60) (pos 30) (pos 10) (pos 300) (omega arith) (omega arith)
      (omega arith)
