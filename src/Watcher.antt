-- ===== src/Watcher.antt =====
-- internal/watcher/watcher.go: how the events of the cluster reach the cache, the published events and
-- the notifications. client-go and the accessors of unstructured objects are parameters.
pub mod Reading
pub mod Following
pub mod Cluster
pub mod Bystanders
pub mod Notifying
use nebari_landing.Base.{
  String, Bool, true, false, not, ◌&&◌, ◌||◌, Option, none, some, List, [], ◌∷◌, ◌++◌, map,
  if◌then◌else◌, str_eq, is_blank, has, ◌+++◌, ℤ, pos,
}
use nebari_landing.App.{App}
use nebari_landing.Probe.{TargetRules}
use nebari_landing.Cache.{ServiceInfo, ServiceCache, add, remove, get, icon_url}
use nebari_landing.Notification.{Notification, Draft}
use nebari_landing.Watcher.Reading.{Objects, lp_enabled, service_namespace_of, to_app}

-- What an informer hands to a handler: an object, a tombstone (`DeletedFinalStateUnknown`) with what it
-- holds, or something else.
pub data Delivered (Obj : Type 0) : Type 0 where
  object : Obj → Delivered Obj
  tombstone : Option Obj → Delivered Obj
  unknown : Delivered Obj

-- `asUnstructured`
unfoldable pub as_unstructured : {Obj : Type 0} → Delivered Obj → Option Obj
as_unstructured (object o) = some o
as_unstructured (tombstone o) = o
as_unstructured unknown = none

-- What the watcher is connected to. `create_draft` is the store's method with what it answers,
-- `none` where there is no store.
pub record Outlets : Type 0 where
  pub publisher : Bool
  pub create_draft : Option (Draft → Option Notification)
  pub notif_publisher : Bool

-- `NebariAppWatcher`, with the events it published (a type and a service, which may be nil), the
-- notifications it stored and those it announced.
pub record Watcher : Type 0 where
  pub cache : ServiceCache
  pub initial_uids : List String
  pub published : List (String × Option ServiceInfo)
  pub posted : List Notification
  pub announced : List Notification

module _ (outlets : Outlets) where
  abbrev pub draft_for : Option ServiceInfo → String → String → String → Draft
  draft_for none image title message = record {
    image = image;
    title = title;
    message = message;
    service_uid = "";
    visibility = "";
    required_groups = [];
  }
  draft_for (some s) image title message = record {
    image = image;
    title = title;
    message = message;
    service_uid = s.uid;
    visibility = s.visibility;
    required_groups = s.required_groups;
  }

  abbrev pub posted_as : Option Notification → Watcher → Watcher
  posted_as none w = w
  posted_as (some n) w = record w {
    posted = w.posted ++ n ∷ [];
    announced = if outlets.notif_publisher then w.announced ++ n ∷ [] else w.announced;
  }

  abbrev pub post_draft : Option (Draft → Option Notification) → Draft → Watcher → Watcher
  post_draft none d w = w
  post_draft (some create) d w = posted_as (create d) w

  -- `postNotif`
  unfoldable pub post_notif : Option ServiceInfo → String → String → String → Watcher → Watcher
  post_notif s image title message w =
      post_draft outlets.create_draft (draft_for s image title message) w

  -- `Publish`, where there is a publisher.
  unfoldable pub publish : String → Option ServiceInfo → Watcher → Watcher
  publish kind s w =
      if outlets.publisher then record w { published = w.published ++ (kind, s) ∷ [] } else w

  abbrev pub display_name_of : ServiceInfo → String
  display_name_of s = if is_blank s.display_name then s.name else s.display_name

  abbrev pub arrival_name : String → Option ServiceInfo → String
  arrival_name name none = name
  arrival_name name (some s) = if is_blank s.display_name then name else s.display_name

  abbrev pub arrival_icon : Option ServiceInfo → String
  arrival_icon none = ""
  arrival_icon (some s) = icon_url s

  -- The notification of a service that was not there at the start.
  unfoldable pub announce_arrival : String → Option ServiceInfo → Watcher → Watcher
  announce_arrival name s w =
      post_notif s (arrival_icon s) (arrival_name name s +++ " is now available")
        (arrival_name name s +++ " has been added to Nebari and is ready to use.") w

  -- What follows the removal of a service that was in the cache.
  abbrev pub after_removal : Option ServiceInfo → Watcher → Watcher
  after_removal none w = w
  after_removal (some s) w =
      post_notif (some s) (icon_url s) (display_name_of s +++ " has been removed")
        (display_name_of s +++ " is no longer available on this Nebari deployment.")
        (publish "deleted" (some s) w)

  -- The common end of `onUpdate` without a landing page and of `onDelete`.
  unfoldable pub forget : String → Watcher → Watcher
  forget uid w = after_removal (get uid w.cache) (record w { cache = remove uid w.cache })

  abbrev pub publish_known : Option ServiceInfo → Watcher → Watcher
  publish_known none w = w
  publish_known (some s) w = publish "modified" (some s) w

  -- `grants` lists the ReferenceGrants of a namespace at the time of the event.
  module _ (rules : TargetRules) (K : Objects) (grants : String → Option (List K.Value)) where
    -- `w.cache.Add(w.toApp(ctx, u))`
    unfoldable pub store_app : K.Obj → Watcher → Watcher
    store_app o w = record w { cache = add rules (some (to_app K grants o)) w.cache }

    abbrev pub arrive : K.Obj → Watcher → Watcher
    arrive o w =
        let stored = store_app o w in
        let shown = publish "added" (get (K.uid o) stored.cache) stored in
        if has (K.uid o) w.initial_uids
        then shown
        else announce_arrival (K.name o) (get (K.uid o) stored.cache) shown

    abbrev pub add_object : Option K.Obj → Watcher → Watcher
    add_object none w = w
    add_object (some o) w = if lp_enabled K o then arrive o w else w

    -- `onAdd`
    unfoldable pub on_add : Delivered K.Obj → Watcher → Watcher
    on_add d w = add_object (as_unstructured d) w

    abbrev pub modify : K.Obj → Watcher → Watcher
    modify o w =
        let stored = store_app o w in publish "modified" (get (K.uid o) stored.cache) stored

    abbrev pub update_object : Option K.Obj → Watcher → Watcher
    update_object none w = w
    update_object (some o) w = if lp_enabled K o then modify o w else forget (K.uid o) w

    -- `onUpdate`
    unfoldable pub on_update : Delivered K.Obj → Watcher → Watcher
    on_update d w = update_object (as_unstructured d) w

    abbrev pub delete_object : Option K.Obj → Watcher → Watcher
    delete_object none w = w
    delete_object (some o) w = forget (K.uid o) w

    -- `onDelete`
    unfoldable pub on_delete : Delivered K.Obj → Watcher → Watcher
    on_delete d w = delete_object (as_unstructured d) w

    unfoldable pub sync_objects : List K.Obj → Watcher → Watcher
    sync_objects [] w = w
    sync_objects (o ∷ rest) w = sync_objects rest (if lp_enabled K o then store_app o w else w)

    -- `syncInitial`, on the objects that the first listing returned.
    unfoldable pub sync_initial : List K.Obj → Watcher → Watcher
    sync_initial l w = sync_objects l (record w { initial_uids = map K.uid l })

    -- An object whose Service is in another namespace.
    abbrev pub crosses : K.Obj → Bool
    crosses o =
        lp_enabled K o
        && not (
            is_blank (service_namespace_of K o)
            || str_eq (service_namespace_of K o) (K.namespace o))

    abbrev pub refresh : K.Obj → Watcher → Watcher
    refresh o w = let stored = store_app o w in publish_known (get (K.uid o) stored.cache) stored

    unfoldable pub resync : List K.Obj → Watcher → Watcher
    resync [] w = w
    resync (o ∷ rest) w = resync rest (if crosses o then refresh o w else w)

    -- `resyncCrossNamespaceApps`; `none` where the listing fails.
    unfoldable pub resync_cross_namespace_apps : Option (List K.Obj) → Watcher → Watcher
    resync_cross_namespace_apps none w = w
    resync_cross_namespace_apps (some l) w = resync l w
