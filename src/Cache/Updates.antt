-- ===== src/Cache/Updates.antt =====
-- What `Add`, `Remove` and the health updates do to each entry.
use nebari_landing.Base.{
  String, ◌≡◌, ◌∙◌, refl, ap, ◌↔◌, ◌⊎◌, inl, inr, true, false, Option, none, some, arith, eq_iff,
  eq_refl, if◌then◌else◌, Bool-cases, Option-cases, str_eq, lookup, lookup-insert, lookup-delete,
  eq_ℤ_iff,
}
use nebari_landing.App.{App, LandingPage}
use nebari_landing.Probe.{TargetRules, HealthCheckConfig, build_config}
use nebari_landing.Cache.{
  HealthStatus, ServiceInfo, ServiceCache, get, remove, record_drop, preserve_health,
  should_reset_health, unknown_health, service_of, add_enabled, listed, add, set_health,
  update_health, same_config, config_matches, health_status_if_current, update_health_if_current,
}
use nebari_landing.Cache.Invariant.{services-record_drop}

-- `Remove` forgets one UID, and the reason remembered for it, and nothing else.
pub get-remove :
    (uid k : String) (c : ServiceCache)
    → (get k (remove uid c) ≡ (if str_eq uid k then none else get k c))
      × (lookup k (remove uid c).drop_reasons
          ≡ (if str_eq uid k then none else lookup k c.drop_reasons))
unfolding get remove
get-remove uid k c = (lookup-delete uid k c.services, lookup-delete uid k c.drop_reasons)

pub same_config_iff : (a b : HealthCheckConfig) → (same_config a b ≡ true) ↔ (a ≡ b)
unfolding same_config
same_config_iff a b = (
  (λ h. ground (
    arith,
    eq_iff a.probe_url b.probe_url,
    eq_ℤ_iff a.interval_seconds b.interval_seconds,
    eq_ℤ_iff a.timeout_seconds b.timeout_seconds,
  )),
  (λ e. rw e (ground (arith, eq_refl b.probe_url))),
)

-- The config under which `uid` stands in the cache.
abbrev pub HasConfig : String → HealthCheckConfig → ServiceCache → Type 0
HasConfig uid cfg c = (s : ServiceInfo) × (get uid c ≡ some s) × (s.health_check_config ≡ some cfg)

entry_matches_iff :
    (o : Option ServiceInfo) (cfg : HealthCheckConfig)
    → (config_matches o (some cfg) ≡ true)
      ↔ ((s : ServiceInfo) × (o ≡ some s) × (s.health_check_config ≡ some cfg))
unfolding config_matches
entry_matches_iff none cfg = ((λ h. cc), (λ (s, e, h). cc))
entry_matches_iff (some s) cfg = elim (Option-cases s.health_check_config) [
  | inl n ↦ ((λ h. cc (rw n at h)), (λ (t, e, h). ground arith))
  | inr (g, n) ↦ (
    (λ h. (s, refl, n ∙ ap some ((same_config_iff g cfg).0 (rw n at h)))),
    (λ (t, e, h). rw n ((same_config_iff g cfg).1 (ground arith))),
  )
]

stored_entry :
    (uid k : String) (status : HealthStatus) (s : ServiceInfo) (c : ServiceCache)
    → get uid c ≡ some s
    → get k (update_health uid status c)
      ≡ (if str_eq uid k then some (record s { health = some status }) else get k c)
unfolding get update_health set_health
stored_entry uid k status s c e =
    rw (e, update_health) (lookup-insert uid k (record s { health = some status }) c.services)

-- `UpdateHealthIfCurrent` reports that it stored exactly when the cache still holds the service
-- under this config. It then sets the health of that service and leaves every other field of it and
-- every other service alone; otherwise, so for a probe whose config was replaced or whose service
-- was removed meanwhile, the cache stays as it is.
pub update_health_if_current-exact :
    (uid : String) (cfg : HealthCheckConfig) (status : HealthStatus) (c : ServiceCache)
    → let (c', stored) = update_health_if_current uid (some cfg) status c in
      ((stored ≡ true) ↔ HasConfig uid cfg c)
      × ((s : ServiceInfo) (k : String)
          → stored ≡ true
          → get uid c ≡ some s
          → get k c' ≡ (if str_eq uid k then some (record s { health = some status }) else get k c))
      × (stored ≡ false → c' ≡ c)
unfolding get update_health_if_current
update_health_if_current-exact uid cfg status c =
    elim (Bool-cases (config_matches (lookup uid c.services) (some cfg))) [
      | inl m ↦ rw m (
        ((λ h. (entry_matches_iff (lookup uid c.services) cfg).0 m), (λ h. refl)),
        (λ s k h e. stored_entry uid k status s c e),
        (λ h. cc),
      )
      | inr m ↦ rw m (
        ((λ h. cc), (λ h. cc ((entry_matches_iff (lookup uid c.services) cfg).1 h, m))),
        (λ s k h e. cc),
        (λ h. refl),
      )
    ]

current-HasConfig :
    (uid : String) (cfg : HealthCheckConfig) (c : ServiceCache)
    → (health_status_if_current uid (some cfg) c).1 ≡ true
    → HasConfig uid cfg c
unfolding health_status_if_current get
current-HasConfig uid cfg c h = (entry_matches_iff (lookup uid c.services) cfg).0 (ground arith)

pub HasConfig-current :
    (uid : String) (cfg : HealthCheckConfig) (c : ServiceCache)
    → HasConfig uid cfg c
    → (health_status_if_current uid (some cfg) c).1 ≡ true
unfolding health_status_if_current get
HasConfig-current uid cfg c h =
    let m : config_matches (lookup uid c.services) (some cfg) ≡ true =
      (entry_matches_iff (lookup uid c.services) cfg).1 h in
    rw m refl

add_of_listed :
    (rules : TargetRules) (a : App) (lp : LandingPage) (c : ServiceCache)
    → listed a ≡ some lp
    → add rules (some a) c ≡ add_enabled rules a lp c
unfolding add
add_of_listed rules a lp c e = rw (e, add)

read_current :
    (uid : String) (cfg : HealthCheckConfig) (h : HealthStatus) (s : ServiceInfo) (c : ServiceCache)
    → get uid c ≡ some (record s { health = some h })
    → s.health_check_config ≡ some cfg
    → health_status_if_current uid (some cfg) c ≡ (h.status, true)
unfolding health_status_if_current get config_matches
read_current uid cfg h s c e g = rw (e, g, (same_config_iff cfg cfg).1 refl) refl

-- The two halves of a probe agree: with nothing changed since the config was read as current, the
-- result is stored, and the status that is read next is the one stored.
pub health_status-update :
    (uid : String) (cfg : HealthCheckConfig) (status : HealthStatus) (c : ServiceCache)
    → (health_status_if_current uid (some cfg) c).1 ≡ true
    → let (c', stored) = update_health_if_current uid (some cfg) status c in
      (stored ≡ true) × (health_status_if_current uid (some cfg) c' ≡ (status.status, true))
health_status-update uid cfg status c h =
    let (exact, writes, _) = update_health_if_current-exact uid cfg status c in
    let (s, e, g) = current-HasConfig uid cfg c h in
    let stored = exact.1 (s, e, g) in
    (
      stored,
      read_current uid cfg status s (update_health_if_current uid (some cfg) status c).0
          (writes s uid stored e
            ∙ ap (λ b. if b then some (record s { health = some status }) else get uid c)
                (eq_refl uid))
          g,
    )

-- The entry that `Add` stores for an app that is to be listed.
abbrev pub add_result : TargetRules → App → LandingPage → ServiceCache → ServiceInfo
add_result rules a lp c =
    service_of a lp
      (if should_reset_health a.uid (build_config rules a).0 c
        then unknown_health
        else preserve_health a.uid c)
      (build_config rules a).0

get-record_drop :
    (k : String) (a : App) (reason : String) (c : ServiceCache)
    → get k (record_drop a reason c) ≡ get k c
unfolding get
get-record_drop k a reason c = ap (lookup k) (services-record_drop a reason c)

get-add_enabled :
    (rules : TargetRules) (a : App) (lp : LandingPage) (c : ServiceCache) (k : String)
    → get k (add_enabled rules a lp c)
      ≡ (if str_eq a.uid k then some (add_result rules a lp c) else get k c)
unfolding add_enabled get should_reset_health preserve_health
get-add_enabled rules a lp c k =
    rw (services-record_drop a (build_config rules a).1 c) (lookup-insert a.uid k _ c.services)

-- What the next entry of a UID carries over from the last one.
pub record IsCarried (before : Option ServiceInfo) (cfg : Option HealthCheckConfig)
    (after : ServiceInfo) : Type 0 where
  pub new_entry : before ≡ none → after.health ≡ some unknown_health
  pub lost_check :
      (s : ServiceInfo) (g : HealthCheckConfig)
      → before ≡ some s
      → s.health_check_config ≡ some g
      → cfg ≡ none
      → after.health ≡ some unknown_health
  pub kept :
      (s : ServiceInfo) (h : HealthStatus)
      → before ≡ some s
      → s.health ≡ some h
      → (s.health_check_config ≡ none) ⊎ ((g : HealthCheckConfig) × (cfg ≡ some g))
      → after.health ≡ some h

add_result-IsCarried :
    (rules : TargetRules) (a : App) (lp : LandingPage) (c : ServiceCache)
    → IsCarried (get a.uid c) (build_config rules a).0 (add_result rules a lp c)
unfolding service_of should_reset_health preserve_health get
add_result-IsCarried rules a lp c = record {
  new_entry = λ e. ground arith;
  lost_check = λ s g e h n. ground arith;
  kept = λ s h e p q. ground arith;
}

-- `Add` of a listed app stores one entry, under the app's UID, with the app's config; every other
-- entry stays. A new entry starts with health "unknown", an entry that loses its check falls back
-- to "unknown", and any other entry keeps the health it had.
pub get-add :
    (rules : TargetRules) (a : App) (lp : LandingPage) (c : ServiceCache)
    → listed a ≡ some lp
    → (s : ServiceInfo) × ((k : String)
        → get k (add rules (some a) c) ≡ (if str_eq a.uid k then some s else get k c))
      × (s.uid ≡ a.uid)
      × (s.health_check_config ≡ (build_config rules a).0)
      × IsCarried (get a.uid c) (build_config rules a).0 s
unfolding service_of
get-add rules a lp c e = (
  add_result rules a lp c,
  (λ k. ap (get k) (add_of_listed rules a lp c e) ∙ get-add_enabled rules a lp c k),
  refl,
  refl,
  add_result-IsCarried rules a lp c,
)

pub get-add_self :
    (rules : TargetRules) (a : App) (lp : LandingPage) (c : ServiceCache)
    → listed a ≡ some lp
    → get a.uid (add rules (some a) c) ≡ some (add_result rules a lp c)
get-add_self rules a lp c e =
    ap (get a.uid) (add_of_listed rules a lp c e)
    ∙ get-add_enabled rules a lp c a.uid
    ∙ ap (λ b. if b then some (add_result rules a lp c) else get a.uid c) (eq_refl a.uid)

-- `Add` of an app that is not to be listed removes its UID, like `Remove`.
pub add-unlisted :
    (rules : TargetRules) (a : App) (c : ServiceCache)
    → listed a ≡ none
    → add rules (some a) c ≡ remove a.uid c
unfolding add
add-unlisted rules a c e = rw (e, add)
