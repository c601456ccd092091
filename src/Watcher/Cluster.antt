-- ===== src/Watcher/Cluster.antt =====
-- internal/watcher/watcher.go: a run of the watcher, from the first listing on, against what the
-- cluster said about each object.
use nebari_landing.Base.{
  String, ◌≡◌, ◌∙◌, refl, ap, Bool, not, ◌&&◌, ◌||◌, Option, none, some, List, [], ◌∷◌, map, inl,
  inr, Bool-cases, &&-split, is_some, if◌then◌else◌, str_eq,
}
use nebari_landing.Probe.{TargetRules}
use nebari_landing.Cache.{get}
use nebari_landing.Watcher.Reading.{Objects}
use nebari_landing.Watcher.{
  Delivered, as_unstructured, Outlets, Watcher, store_app, arrive, add_object, on_add,
  update_object, on_update, delete_object, on_delete, sync_objects, sync_initial, crosses, refresh,
  resync, resync_cross_namespace_apps,
}
use nebari_landing.Watcher.Following.{
  shows, turns, shown_by, turned_by, arrive-cache, refresh-cache, forget-present, store_app-present,
}

module _ (outlets : Outlets) (rules : TargetRules) (K : Objects) where
  abbrev pub Grants : Type 0
  Grants = String → Option (List K.Value)

  -- What the informers deliver, and how the grants stand then. `granted` is a change of a
  -- ReferenceGrant, with the listing of the objects that follows it, `none` where that fails.
  pub data Event : Type 0 where
    added : Grants → Delivered K.Obj → Event
    updated : Grants → Delivered K.Obj → Event
    deleted : Delivered K.Obj → Event
    granted : Grants → Option (List K.Obj) → Event

  abbrev pub handle : Event → Watcher → Watcher
  handle (added grants d) w = on_add outlets rules K grants d w
  handle (updated grants d) w = on_update outlets rules K grants d w
  handle (deleted d) w = on_delete outlets rules K (λ n. none) d w
  handle (granted grants l) w = resync_cross_namespace_apps outlets rules K grants l w

  unfoldable pub run : List Event → Watcher → Watcher
  run [] w = w
  run (e ∷ rest) w = run rest (handle e w)

  -- What the cluster said about a UID: whether it is to be listed, given that before.
  abbrev by_object : (K.Obj → Bool → Bool) → Option K.Obj → Bool → Bool
  by_object f none before = before
  by_object f (some o) before = f o before

  abbrev pub listed_all : List K.Obj → String → Bool → Bool
  listed_all [] k before = before
  listed_all (o ∷ rest) k before = listed_all rest k (shows outlets rules K (λ n. none) o k before)

  abbrev pub crossed_all : List K.Obj → String → Bool → Bool
  crossed_all [] k before = before
  crossed_all (o ∷ rest) k before =
      crossed_all rest k
        (if crosses outlets rules K (λ n. none) o then str_eq (K.uid o) k || before else before)

  abbrev crossed_if : Option (List K.Obj) → String → Bool → Bool
  crossed_if none k before = before
  crossed_if (some l) k before = crossed_all l k before

  abbrev pub said : Event → String → Bool → Bool
  said (added grants d) k before =
      by_object (λ o. shows outlets rules K grants o k) (as_unstructured d) before
  said (updated grants d) k before =
      by_object (λ o. turns outlets rules K grants o k) (as_unstructured d) before
  said (deleted d) k before =
      by_object (λ o b. not (str_eq (K.uid o) k) && b) (as_unstructured d) before
  said (granted grants l) k before = crossed_if l k before

  unfoldable pub replay : List Event → String → Bool → Bool
  replay [] k before = before
  replay (e ∷ rest) k before = replay rest k (said e k before)

  abbrev pub holds : String → Watcher → Bool
  holds k w = is_some (get k w.cache)

  add_object-said :
      (grants : Grants) (found : Option K.Obj) (k : String) (w : Watcher)
      → holds k (add_object outlets rules K grants found w)
        ≡ by_object (λ o. shows outlets rules K grants o k) found (holds k w)
  add_object-said grants none k w = refl
  add_object-said grants (some o) k w =
      shown_by outlets rules K grants o k w (arrive outlets rules K grants o w)
        (λ on. arrive-cache outlets rules K grants o w)

  update_object-said :
      (grants : Grants) (found : Option K.Obj) (k : String) (w : Watcher)
      → holds k (update_object outlets rules K grants found w)
        ≡ by_object (λ o. turns outlets rules K grants o k) found (holds k w)
  update_object-said grants none k w = refl
  update_object-said grants (some o) k w = turned_by outlets rules K grants o k w

  delete_object-said :
      (found : Option K.Obj) (k : String) (w : Watcher)
      → holds k (delete_object outlets rules K (λ n. none) found w)
        ≡ by_object (λ o b. not (str_eq (K.uid o) k) && b) found (holds k w)
  delete_object-said none k w = refl
  delete_object-said (some o) k w = forget-present outlets rules K (λ n. none) (K.uid o) w k

  refreshed :
      (grants : Grants) (o : K.Obj) (k : String) (w : Watcher)
      → holds k (if crosses outlets rules K grants o then refresh outlets rules K grants o w else w)
        ≡ (if crosses outlets rules K grants o then str_eq (K.uid o) k || holds k w else holds k w)
  refreshed grants o k w = elim (Bool-cases (crosses outlets rules K grants o)) [
    | inl c ↦ rw c (
        ap (λ v. is_some (get k v)) (refresh-cache outlets rules K grants o w)
        ∙ store_app-present outlets rules K grants o w k (&&-split _ _ c).0)
    | inr c ↦ rw c refl
  ]

  resync-said :
      (grants : Grants) (l : List K.Obj) (k : String) (w : Watcher)
      → holds k (resync outlets rules K grants l w) ≡ crossed_all l k (holds k w)
  unfolding resync
  resync-said grants [] k w = refl
  resync-said grants (o ∷ rest) k w =
      resync-said grants rest k _ ∙ ap (crossed_all rest k) (refreshed grants o k w)

  handle-said : (e : Event) (k : String) (w : Watcher) → holds k (handle e w) ≡ said e k (holds k w)
  unfolding on_add on_update on_delete resync_cross_namespace_apps
  handle-said (added grants d) k w = add_object-said grants (as_unstructured d) k w
  handle-said (updated grants d) k w = update_object-said grants (as_unstructured d) k w
  handle-said (deleted d) k w = delete_object-said (as_unstructured d) k w
  handle-said (granted grants none) k w = refl
  handle-said (granted grants (some l)) k w = resync-said grants l k w

  sync_objects-said :
      (grants : Grants) (l : List K.Obj) (k : String) (w : Watcher)
      → holds k (sync_objects outlets rules K grants l w) ≡ listed_all l k (holds k w)
  unfolding sync_objects
  sync_objects-said grants [] k w = refl
  sync_objects-said grants (o ∷ rest) k w =
      sync_objects-said grants rest k _
      ∙ ap (listed_all rest k) (
          shown_by outlets rules K grants o k w (store_app outlets rules K grants o w) (λ on. refl))

  run-said :
      (events : List Event) (k : String) (w : Watcher)
      → holds k (run events w) ≡ replay events k (holds k w)
  unfolding run replay
  run-said [] k w = refl
  run-said (e ∷ rest) k w = run-said rest k (handle e w) ∙ ap (replay rest k) (handle-said e k w)

  -- The cache follows the cluster: after the first listing and any sequence of events, a UID is in
  -- the cache exactly if the listing and the events, replayed on it, say so: an object with its
  -- landing page enabled puts it there, an update that disables the page and a deletion take it
  -- away, and a change of a grant puts back only objects that are listed then.
  pub run-sync_initial_follows :
      (grants : Grants) (l : List K.Obj) (events : List Event) (k : String) (w : Watcher)
      → is_some (get k (run events (sync_initial outlets rules K grants l w)).cache)
        ≡ replay events k (listed_all l k (is_some (get k w.cache)))
  unfolding sync_initial
  run-sync_initial_follows grants l events k w =
      run-said events k (sync_initial outlets rules K grants l w)
      ∙ ap (replay events k)
          (sync_objects-said grants l k (record w { initial_uids = map K.uid l }))
