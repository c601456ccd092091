-- ===== src/Cache/Invariant.antt =====
-- What holds of the cache after every operation.
use nebari_landing.Base.{
  String, ◌≡◌, ◌∙◌, sym, ap, subst, inl, inr, Option, none, some, List, [], ◌∷◌, arith, eq_iff,
  Option-cases, lookup, insert, Distinct, lookup-insert, lookup-delete, insert-Distinct,
  delete-Distinct,
}
use nebari_landing.App.{App, LandingPage}
use nebari_landing.Probe.{TargetRules, HealthCheckConfig, build_config}
use nebari_landing.Cache.{
  HealthStatus, ServiceInfo, ServiceCache, new_cache, remove, record_drop, service_of, add_enabled,
  listed, add, set_health, update_health, update_health_if_current,
}

-- The map has each UID once, and every service stands under its own UID.
pub record IsKeyed (c : ServiceCache) : Type 0 where
  pub distinct : Distinct c.services
  pub own_uid : (k : String) (s : ServiceInfo) → lookup k c.services ≡ some s → s.uid ≡ k

pub new_cache-IsKeyed : IsKeyed new_cache
unfolding lookup
new_cache-IsKeyed = record { distinct = tt; own_uid = λ k s h. cc }

remove-IsKeyed : (uid : String) (c : ServiceCache) → IsKeyed c → IsKeyed (remove uid c)
unfolding remove
remove-IsKeyed uid c v = record {
  distinct = delete-Distinct uid c.services v.distinct;
  own_uid = λ k s h. ground (arith, lookup-delete uid k c.services, v.own_uid k s);
}

pub services-record_drop :
    (a : App) (reason : String) (c : ServiceCache) → (record_drop a reason c).services ≡ c.services
unfolding record_drop
services-record_drop a reason c = ground arith

insert-IsKeyed :
    (s : ServiceInfo) (c : ServiceCache)
    → IsKeyed c
    → IsKeyed (record c { services = insert s.uid s c.services })
insert-IsKeyed s c v = record {
  distinct = insert-Distinct s.uid s c.services v.distinct;
  own_uid =
      λ k t h. ground (arith, lookup-insert s.uid k s c.services, v.own_uid k t, eq_iff s.uid k);
}

record_drop-IsKeyed :
    (a : App) (reason : String) (c : ServiceCache) → IsKeyed c → IsKeyed (record_drop a reason c)
record_drop-IsKeyed a reason c v = record {
  distinct = rw (services-record_drop a reason c) v.distinct;
  own_uid = λ k s h. v.own_uid k s (ap (lookup k) (sym (services-record_drop a reason c)) ∙ h);
}

add_enabled-IsKeyed :
    (rules : TargetRules) (a : App) (lp : LandingPage) (c : ServiceCache)
    → IsKeyed c
    → IsKeyed (add_enabled rules a lp c)
unfolding add_enabled service_of
add_enabled-IsKeyed rules a lp c v =
    insert-IsKeyed _ _ (record_drop-IsKeyed a (build_config rules a).1 c v)

add-IsKeyed :
    (rules : TargetRules) (a : Option App) (c : ServiceCache) → IsKeyed c → IsKeyed (add rules a c)
unfolding add
add-IsKeyed rules none c v = v
add-IsKeyed rules (some a) c v = elim (Option-cases (listed a)) [
  | inl e ↦ rw (e, add) (remove-IsKeyed a.uid c v)
  | inr (lp, e) ↦ rw (e, add) (add_enabled-IsKeyed rules a lp c v)
]

update_health-IsKeyed :
    (uid : String) (status : HealthStatus) (c : ServiceCache)
    → IsKeyed c
    → IsKeyed (update_health uid status c)
unfolding update_health set_health
update_health-IsKeyed uid status c v = elim (Option-cases (lookup uid c.services)) [
  | inl e ↦ rw (e, update_health) v
  | inr (s, e) ↦
      rw (e, update_health)
        (subst
          (λ k.
            IsKeyed
              (record c { services = insert k (record s { health = some status }) c.services }))
          (v.own_uid uid s e) (insert-IsKeyed (record s { health = some status }) c v))
]

-- The calls that change the cache.
pub data Call : Type 0 where
  adds : Option App → Call
  removes : String → Call
  updates : String → HealthStatus → Call
  updates_if : String → Option HealthCheckConfig → HealthStatus → Call

unfoldable pub step : TargetRules → ServiceCache → Call → ServiceCache
step rules c (adds a) = add rules a c
step rules c (removes uid) = remove uid c
step rules c (updates uid status) = update_health uid status c
step rules c (updates_if uid cfg status) = (update_health_if_current uid cfg status c).0

unfoldable pub run : TargetRules → ServiceCache → List Call → ServiceCache
run rules c [] = c
run rules c (call ∷ rest) = run rules (step rules c call) rest

pub step-IsKeyed :
    (rules : TargetRules) (c : ServiceCache) (call : Call) → IsKeyed c → IsKeyed (step rules c call)
unfolding step update_health_if_current
step-IsKeyed rules c (adds a) v = add-IsKeyed rules a c v
step-IsKeyed rules c (removes uid) v = remove-IsKeyed uid c v
step-IsKeyed rules c (updates uid status) v = update_health-IsKeyed uid status c v
step-IsKeyed rules c (updates_if uid cfg status) v =
    grind (arith, update_health-IsKeyed uid status c v)

run-IsKeyed :
    (rules : TargetRules) (c : ServiceCache) (calls : List Call)
    → IsKeyed c
    → IsKeyed (run rules c calls)
unfolding run
run-IsKeyed rules c [] v = v
run-IsKeyed rules c (call ∷ rest) v =
    run-IsKeyed rules (step rules c call) rest (step-IsKeyed rules c call v)

-- Whatever calls were made on a new cache, in any order, each UID stands in it at most once, and
-- each service stands under its own UID.
pub run-new-IsKeyed :
    (rules : TargetRules) (calls : List Call) → IsKeyed (run rules new_cache calls)
run-new-IsKeyed rules calls = run-IsKeyed rules new_cache calls new_cache-IsKeyed
