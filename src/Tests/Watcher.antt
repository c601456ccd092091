-- ===== src/Tests/Watcher.antt =====
-- A run of the watcher on two objects.
use nebari_landing.Base.{
  String, ◌≡◌, refl, Bool, true, false, Option, none, some, List, [], ◌∷◌, is_some, str_eq,
  if◌then◌else◌,
}
use nebari_landing.Grant.{Fields}
use nebari_landing.Cache.{get, new_cache}
use nebari_landing.Notification.{notification_of}
use nebari_landing.Watcher.Notifying.{PostsFor, subject, events-post}
use nebari_landing.Watcher.{
  Delivered, object, tombstone, unknown, as_unstructured, Outlets, Watcher, sync_initial, on_add,
  on_update, on_delete,
}
use nebari_landing.Watcher.Reading.{Objects}
use nebari_landing.Watcher.Cluster.{
  Event, added, updated, deleted, run, replay, listed_all, run-sync_initial_follows,
}
use nebari_landing.Tests.Samples.{rules}

-- An object: its UID, and whether its landing page is enabled.
abbrev pub Obj : Type 0
Obj = String × Bool

abbrev last : List String → String
last [] = ""
last (x ∷ []) = x
last (x ∷ y ∷ l) = last (y ∷ l)

abbrev page_flag : List String → Obj → Option Bool
page_flag path (uid, enabled) = if str_eq (last path) "enabled" then some enabled else none

abbrev no_fields : Fields String
no_fields = record { spec_slice = λ s v. none; is_map = λ v. false; text = λ s v. "" }

abbrev pub objects : Objects
objects = record {
  Obj = Obj;
  Value = String;
  fields = no_fields;
  uid = λ o. o.0;
  name = λ o. o.0;
  namespace = λ o. "apps";
  text = λ path o. "";
  flag = page_flag;
  number = λ path o. none;
  texts = λ path o. none;
}

abbrev outlets : Outlets
outlets = record {
  publisher = true;
  create_draft = some (λ d. some (notification_of "n-1" 5 d));
  notif_publisher = true;
}

abbrev start : Watcher
start = record { cache = new_cache; initial_uids = []; published = []; posted = []; announced = [] }

abbrev no_grants : String → Option (List String)
no_grants n = none

-- The second object arrives, the first one's page is turned off, and the second one is deleted.
abbrev events : List (Event outlets rules objects)
events =
    added no_grants (object ("b", true))
    ∷ updated no_grants (object ("a", false))
    ∷ added no_grants unknown
    ∷ deleted (tombstone (some ("b", true)))
    ∷ updated no_grants (object ("a", true))
    ∷ []

replay_test :
    replay outlets rules objects events "a"
      (listed_all outlets rules objects (("a", true) ∷ []) "a" false)
    ≡ true
unfolding replay nebari_landing.Watcher.as_unstructured nebari_landing.Watcher.Reading.lp_enabled
replay_test = refl

run-sync_initial_follows_example :
    is_some (
      get "b"
        (run outlets rules objects events
          (sync_initial outlets rules objects no_grants (("a", true) ∷ []) start)).cache)
    ≡ replay outlets rules objects events "b"
        (listed_all outlets rules objects (("a", true) ∷ []) "b" (is_some (get "b" new_cache)))
run-sync_initial_follows_example =
    run-sync_initial_follows outlets rules objects no_grants (("a", true) ∷ []) events "b" start

abbrev arriving : Delivered Obj
arriving = object ("b", true)

events-post_example :
    PostsFor outlets
      (subject outlets rules objects no_grants
        (as_unstructured arriving)
        (on_add outlets rules objects no_grants arriving start).cache)
      []
      (on_add outlets rules objects no_grants arriving start).posted
    × PostsFor outlets
        (subject outlets rules objects no_grants (as_unstructured arriving) new_cache)
        []
        (on_update outlets rules objects no_grants arriving start).posted
    × PostsFor outlets
        (subject outlets rules objects no_grants (as_unstructured arriving) new_cache)
        []
        (on_delete outlets rules objects no_grants arriving start).posted
events-post_example = events-post outlets rules objects no_grants arriving start
