-- ===== src/Watcher/Bystanders.antt =====
-- internal/watcher/watcher.go: the entries of the cache that are none of the watcher's objects.
use nebari_landing.Base.{
  String, ◌≡◌, ◌∙◌, refl, ap, Bool, true, false, Option, none, some, List, [], ◌∷◌, Bool-cases,
  &&-split, inl, inr, if◌then◌else◌, if_passed, str_eq,
}
use nebari_landing.Probe.{TargetRules}
use nebari_landing.Cache.{get}
use nebari_landing.Cache.Updates.{get-remove}
use nebari_landing.Watcher.Reading.{Objects, lp_enabled}
use nebari_landing.Watcher.{
  as_unstructured, Outlets, Watcher, store_app, arrive, add_object, on_add, modify, update_object,
  on_update, forget, delete_object, on_delete, sync_objects, sync_initial, crosses, refresh, resync,
  resync_cross_namespace_apps,
}
use nebari_landing.Watcher.Following.{
  store_app-entries, arrive-cache, modify-cache, refresh-cache, forget-cache,
}
use nebari_landing.Watcher.Cluster.{Event, added, updated, deleted, granted, handle, run}

module _ (outlets : Outlets) (rules : TargetRules) (K : Objects) (k : String) where
  -- No object of the list has the UID `k`.
  abbrev pub Lacks : List K.Obj → Type 0
  Lacks [] = Unit
  Lacks (o ∷ l) = (str_eq (K.uid o) k ≡ false) × Lacks l

  abbrev pub FoundLacks : Option K.Obj → Type 0
  FoundLacks none = Unit
  FoundLacks (some o) = str_eq (K.uid o) k ≡ false

  abbrev pub ListingLacks : Option (List K.Obj) → Type 0
  ListingLacks none = Unit
  ListingLacks (some l) = Lacks l

  -- The event is about no object with the UID `k`.
  abbrev pub Spares : Event outlets rules K → Type 0
  Spares (added grants d) = FoundLacks (as_unstructured d)
  Spares (updated grants d) = FoundLacks (as_unstructured d)
  Spares (deleted d) = FoundLacks (as_unstructured d)
  Spares (granted grants l) = ListingLacks l

  abbrev pub AllSpare : List (Event outlets rules K) → Type 0
  AllSpare [] = Unit
  AllSpare (e ∷ rest) = Spares e × AllSpare rest

  -- The entry of `k` is the same before and after.
  abbrev Same : Watcher → Watcher → Type 0
  Same w v = get k v.cache ≡ get k w.cache

  -- A step that is taken under a test.
  if-Same : (b : Bool) (w v : Watcher) → (b ≡ true → Same w v) → Same w (if b then v else w)
  if-Same true w v h = h refl
  if-Same false w v h = refl

  module _ (grants : String → Option (List K.Value)) where
    store_app-Same :
        (o : K.Obj) (w : Watcher)
        → lp_enabled K o ≡ true
        → str_eq (K.uid o) k ≡ false
        → Same w (store_app outlets rules K grants o w)
    store_app-Same o w on other =
        let (s, entries) = store_app-entries outlets rules K grants o w on in
        entries k ∙ if_passed (str_eq (K.uid o) k) (some s) (get k w.cache) other

    -- A step that leaves the cache of `store_app` spares `k`.
    stored-Same :
        (o : K.Obj) (w v : Watcher)
        → v.cache ≡ (store_app outlets rules K grants o w).cache
        → lp_enabled K o ≡ true
        → str_eq (K.uid o) k ≡ false
        → Same w v
    stored-Same o w v e on other = ap (get k) e ∙ store_app-Same o w on other

    add_object-Same :
        (found : Option K.Obj) (w : Watcher)
        → FoundLacks found
        → Same w (add_object outlets rules K grants found w)
    add_object-Same none w h = refl
    add_object-Same (some o) w h =
        if-Same (lp_enabled K o) w (arrive outlets rules K grants o w) (λ on.
          stored-Same o w (arrive outlets rules K grants o w)
            (arrive-cache outlets rules K grants o w) on h)

    forget-Same :
        (uid : String) (w : Watcher) → str_eq uid k ≡ false → Same w (forget outlets uid w)
    forget-Same uid w h =
        ap (get k) (forget-cache outlets uid w)
        ∙ ((get-remove uid k w.cache).0 ∙ if_passed (str_eq uid k) none (get k w.cache) h)

    update_object-Same :
        (found : Option K.Obj) (w : Watcher)
        → FoundLacks found
        → Same w (update_object outlets rules K grants found w)
    update_object-Same none w h = refl
    update_object-Same (some o) w h = elim (Bool-cases (lp_enabled K o)) [
      | inl on ↦ rw on (
          stored-Same o w (modify outlets rules K grants o w)
            (modify-cache outlets rules K grants o w) on h)
      | inr off ↦ rw off (forget-Same (K.uid o) w h)
    ]

    delete_object-Same :
        (found : Option K.Obj) (w : Watcher)
        → FoundLacks found
        → Same w (delete_object outlets rules K grants found w)
    delete_object-Same none w h = refl
    delete_object-Same (some o) w h = forget-Same (K.uid o) w h

    sync_objects-Same :
        (l : List K.Obj) (w : Watcher) → Lacks l → Same w (sync_objects outlets rules K grants l w)
    unfolding sync_objects
    sync_objects-Same [] w h = refl
    sync_objects-Same (o ∷ l) w h =
        sync_objects-Same l _ h.1
        ∙ if-Same (lp_enabled K o) w (store_app outlets rules K grants o w)
            (λ on. store_app-Same o w on h.0)

    resync-Same :
        (l : List K.Obj) (w : Watcher) → Lacks l → Same w (resync outlets rules K grants l w)
    unfolding resync
    resync-Same [] w h = refl
    resync-Same (o ∷ l) w h =
        resync-Same l _ h.1
        ∙ if-Same (crosses outlets rules K grants o) w (refresh outlets rules K grants o w) (λ c.
          stored-Same o w (refresh outlets rules K grants o w)
            (refresh-cache outlets rules K grants o w) (&&-split _ _ c).0 h.0)

  handle-Same :
      (e : Event outlets rules K) (w : Watcher) → Spares e → Same w (handle outlets rules K e w)
  unfolding on_add on_update on_delete resync_cross_namespace_apps
  handle-Same (added grants d) w h = add_object-Same grants (as_unstructured d) w h
  handle-Same (updated grants d) w h = update_object-Same grants (as_unstructured d) w h
  handle-Same (deleted d) w h = delete_object-Same (λ n. none) (as_unstructured d) w h
  handle-Same (granted grants none) w h = refl
  handle-Same (granted grants (some l)) w h = resync-Same grants l w h

  run-Same :
      (events : List (Event outlets rules K)) (w : Watcher)
      → AllSpare events
      → Same w (run outlets rules K events w)
  unfolding run
  run-Same [] w h = refl
  run-Same (e ∷ rest) w h = run-Same rest (handle outlets rules K e w) h.1 ∙ handle-Same e w h.0

  -- Where neither the first listing nor any event is about an object with the UID `k`, the watcher
  -- leaves the entry of `k` in the cache exactly as it found it.
  pub run-sync_initial_keeps :
      (grants : String → Option (List K.Value)) (l : List K.Obj)
      (events : List (Event outlets rules K)) (w : Watcher)
      → Lacks l
      → AllSpare events
      → get k (run outlets rules K events (sync_initial outlets rules K grants l w)).cache
        ≡ get k w.cache
  unfolding sync_initial
  run-sync_initial_keeps grants l events w h spared =
      run-Same events (sync_initial outlets rules K grants l w) spared
      ∙ sync_objects-Same grants l _ h
