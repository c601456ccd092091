-- ===== src/Health/Reconcile.antt =====
-- `reconcile`: which probes run after it.
use nebari_landing.Base.{
  String, ◌≡◌, ◌∙◌, refl, sym, ap, subst, inl, inr, Bool, true, false, ◌||◌, Option, none, some,
  List, [], ◌∷◌, Memᴰ, arith, eq_iff, if◌then◌else◌, Bool-cases, Option-cases, str_eq, has,
  Memᴰ→has, keep, GoMap, lookup, delete, lookup-insert, lookup-delete,
}
use nebari_landing.Probe.{HealthCheckConfig}
use nebari_landing.Cache.{ServiceInfo, ServiceCache, get, get_all, same_config}
use nebari_landing.Cache.Invariant.{IsKeyed}
use nebari_landing.Cache.Updates.{same_config_iff}
use nebari_landing.Cache.Listing.{get_all-lists}
use nebari_landing.Health.{
  Running, start_probe, cancel_probe, replace_probe, ensure_probe, start_probes, active_uids,
  stop_others, reconcile,
}

pub lookup-keep {ℓ} :
    {V : Type ℓ} (p : String → Bool) (k : String) (m : GoMap V)
    → lookup k (keep (λ (e : String × V). p e.0) m) ≡ (if p k then lookup k m else none)
unfolding lookup keep
lookup-keep p k [] = ground arith
lookup-keep p k ((j, v) ∷ m) = ground (arith, lookup-keep p k m, eq_iff j k)

lookup-replace_probe :
    (uid k : String) (cfg : HealthCheckConfig) (o : Option HealthCheckConfig) (h : Running)
    → lookup uid h.running ≡ o
    → lookup k (replace_probe uid cfg o h).running
      ≡ (if str_eq uid k then some cfg else lookup k h.running)
unfolding start_probe cancel_probe
lookup-replace_probe uid k cfg none h e = lookup-insert uid k cfg h.running
lookup-replace_probe uid k cfg (some old) h e = elim (Bool-cases (same_config old cfg)) [
  | inl q ↦ rw q (kept ((same_config_iff old cfg).0 q))
  | inr q ↦ rw q (
      lookup-insert uid k cfg (delete uid h.running)
      ∙ ground (arith, lookup-delete uid k h.running))
]
  where
    kept : old ≡ cfg → lookup k h.running ≡ (if str_eq uid k then some cfg else lookup k h.running)
    kept q = elim (Bool-cases (str_eq uid k)) [
      | inl s ↦ rw s (ap (λ j. lookup j h.running) (sym ((eq_iff uid k).0 s)) ∙ e ∙ ap some q)
      | inr s ↦ rw s refl
    ]

combine :
    (k uid : String) (later : Bool) (cfg : HealthCheckConfig)
    (o before mid after : Option HealthCheckConfig)
    → after ≡ (if later then o else mid)
    → mid ≡ (if str_eq uid k then some cfg else before)
    → (uid ≡ k → some cfg ≡ o)
    → after ≡ (if str_eq k uid || later then o else before)
combine k uid true cfg o before mid after a b c = ground arith
combine k uid false cfg o before mid after a b c = elim (Bool-cases (str_eq uid k)) [
  | inl e ↦ a ∙ b ∙ rw (e, (eq_iff k uid).1 (sym ((eq_iff uid k).0 e))) (c ((eq_iff uid k).0 e))
  | inr e ↦ a ∙ b ∙ ground (arith, eq_iff k uid, eq_iff uid k)
]

lookup-ensure_probe :
    (uid k : String) (cfg : HealthCheckConfig) (h : Running)
    → lookup k (ensure_probe uid cfg h).running
      ≡ (if str_eq uid k then some cfg else lookup k h.running)
unfolding ensure_probe
lookup-ensure_probe uid k cfg h = lookup-replace_probe uid k cfg (lookup uid h.running) h refl

-- The config of `k` after the loop, where `o` is the config of every service of that UID.
lookup-start_probes :
    (l : List ServiceInfo) (h : Running) (k : String) (o : Option HealthCheckConfig)
    → ((s : ServiceInfo) → Memᴰ s l → s.uid ≡ k → s.health_check_config ≡ o)
    → lookup k (start_probes l h).running
      ≡ (if has k (active_uids l) then o else lookup k h.running)
unfolding start_probes active_uids has
lookup-start_probes [] h k o u = refl
lookup-start_probes (s ∷ l) h k o u = elim (Option-cases s.health_check_config) [
  | inl e ↦ rw e (lookup-start_probes l h k o λ t m. u t (Memᴰ.tail m))
  | inr (cfg, e) ↦ rw e (
      combine k s.uid (has k (active_uids l)) cfg o _ (lookup k (ensure_probe s.uid cfg h).running)
        _ (lookup-start_probes l (ensure_probe s.uid cfg h) k o λ t m. u t (Memᴰ.tail m))
        (lookup-ensure_probe s.uid k cfg h) (λ q. sym e ∙ u s (Memᴰ.head refl) q))
]

Memᴰ-active_uids :
    (l : List ServiceInfo) (s : ServiceInfo) (cfg : HealthCheckConfig)
    → Memᴰ s l
    → s.health_check_config ≡ some cfg
    → Memᴰ s.uid (active_uids l)
unfolding active_uids
Memᴰ-active_uids [] s cfg m e = elim m [ ]
Memᴰ-active_uids (t ∷ l) s cfg (Memᴰ.head p) e =
    rw (sym (ap (λ x. x.health_check_config) p) ∙ e, active_uids) (Memᴰ.head (ap (λ x. x.uid) p))
Memᴰ-active_uids (t ∷ l) s cfg (Memᴰ.tail m) e = elim (Option-cases t.health_check_config) [
  | inl q ↦ rw (q, active_uids) (Memᴰ-active_uids l s cfg m e)
  | inr (g, q) ↦ rw (q, active_uids) (Memᴰ.tail (Memᴰ-active_uids l s cfg m e))
]

-- The config under which the cache holds a service.
abbrev pub config_in : Option ServiceInfo → Option HealthCheckConfig
config_in none = none
config_in (some s) = s.health_check_config

same_entry :
    (o : Option ServiceInfo) (s : ServiceInfo) → o ≡ some s → s.health_check_config ≡ config_in o
same_entry none s e = cc
same_entry (some t) s e = cc

-- A service with a config that `Get` finds is one of the active ones.
active_of_get :
    (k : String) (c : ServiceCache) (s : ServiceInfo) (cfg : HealthCheckConfig)
    → IsKeyed c
    → get k c ≡ some s
    → s.health_check_config ≡ some cfg
    → has k (active_uids (get_all c)) ≡ true
unfolding get
active_of_get k c s cfg v e q =
    let own = v.own_uid k s e in
    subst (λ j. has j (active_uids (get_all c)) ≡ true) own
      (Memᴰ→has s.uid (active_uids (get_all c)) (
        Memᴰ-active_uids (get_all c) s cfg
          (((get_all-lists c v).1 s).1 (ap (λ j. lookup j c.services) own ∙ e)) q))

only_active :
    (k : String) (c : ServiceCache) (o : Option ServiceInfo)
    → IsKeyed c
    → get k c ≡ o
    → (if has k (active_uids (get_all c)) then config_in o else none) ≡ config_in o
only_active k c none v e = ground arith
only_active k c (some s) v e = elim (Option-cases s.health_check_config) [
  | inl q ↦ rw q (ground arith)
  | inr (cfg, q) ↦ rw (active_of_get k c s cfg v e q) refl
]

listed_config :
    (k : String) (c : ServiceCache)
    → IsKeyed c
    → (s : ServiceInfo) → Memᴰ s (get_all c)
    → s.uid ≡ k
    → s.health_check_config ≡ config_in (get k c)
listed_config k c v s m e =
    same_entry (get k c) s (ap (λ j. get j c) (sym e) ∙ ((get_all-lists c v).1 s).0 m)

-- After `reconcile`, whatever probes ran before, the probe that runs for a UID is the one of the
-- config under which the cache holds that UID, and none runs where the cache has no config.
pub reconcile-running :
    (c : ServiceCache) (h : Running)
    → IsKeyed c
    → (k : String) → lookup k (reconcile c h).running ≡ config_in (get k c)
unfolding reconcile stop_others
reconcile-running c h v k =
    lookup-keep (λ uid. has uid (active_uids (get_all c))) k (start_probes (get_all c) h).running
    ∙ ap (λ o. if has k (active_uids (get_all c)) then o else none)
        (lookup-start_probes (get_all c) h k (config_in (get k c)) (listed_config k c v))
    ∙ settle (has k (active_uids (get_all c))) (config_in (get k c)) (lookup k h.running)
        (only_active k c (get k c) v refl)
  where
    settle :
        (b : Bool) (o q : Option HealthCheckConfig)
        → (if b then o else none) ≡ o
        → (if b then (if b then o else q) else none) ≡ o
    settle true o q e = e
    settle false o q e = e
