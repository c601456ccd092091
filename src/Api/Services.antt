-- ===== src/Api/Services.antt =====
-- internal/api/handlers.go: the routes that read services, and the identity of a caller.
pub mod Listing
pub mod Single
use nebari_landing.Base.{
  ℕ, suc, ◌+◌, String, Bool, true, false, Option, none, some, List, [], ◌∷◌, map, if◌then◌else◌,
  str_eq, is_blank, has, keep, is_some,
}
use nebari_landing.Access.{Claims, can_access_service}
use nebari_landing.Cache.{ServiceInfo, ServiceCache, get, get_all, get_categories}
use nebari_landing.Redis.{Redis}
use nebari_landing.Pins.{get_pins}
use nebari_landing.Api.Views.{ServiceView, CallerIdentity, to_service_view}
use nebari_landing.Api.{
  Request, Moment, Libraries, Handler, World, Response, Body, services, service, categories,
  healthy, identity, debug, aborted, refuse, reply, warmup, Caller, warming, rejected, caller,
  claims_of, is_authenticated, text_or, extract,
}

module _ (R : Redis) (lib : Libraries) (h : Handler) (m : Moment) where
  abbrev pub pins_or_none : World R → R.Db × Option (List String) → World R × List String
  pins_or_none w (d, none) = (record w { db = d }, [])
  pins_or_none w (d, some uids) = (record w { db = d }, uids)

  abbrev pub pins_of : String → World R → World R × List String
  pins_of username w =
      if is_blank username then (w, []) else pins_or_none w (get_pins R username w.db)

  abbrev pub pins_for : Bool → Option Claims → World R → World R × List String
  pins_for true (some c) w =
      if h.pin_store then pins_of (text_or c.preferred_username c.subject) w else (w, [])
  pins_for _ _ w = (w, [])

  -- `callerPinnedUIDs`, as the list of the keys of its map.
  unfoldable pub caller_pinned_uids : Option Claims → Bool → World R → World R × List String
  caller_pinned_uids claims authenticated w = pins_for authenticated claims w

  -- The loop over the services: those that the caller may see, as views.
  unfoldable pub visible : Option Claims → Bool → List String → List ServiceInfo → List ServiceView
  visible claims authenticated pinned l =
      map (λ s. to_service_view s (has s.uid pinned))
        (keep (λ s. can_access_service s authenticated claims) l)

  abbrev pub list_for : World R × Caller → World R × Response
  list_for (w, warming) = (w, warmup)
  list_for (w, c) =
      let found = caller_pinned_uids (claims_of c) (is_authenticated c) w in
      (
        found.0,
        reply (services (visible (claims_of c) (is_authenticated c) found.1 (get_all w.cache))),
      )

  -- `handleGetServices`
  unfoldable pub handle_get_services : Request → World R → World R × Response
  handle_get_services r w =
      if str_eq r.method "GET" then list_for (extract R lib h m r w) else (w, refuse 405)

  abbrev pub show_for : ServiceInfo → String → World R × Caller → World R × Response
  show_for s uid (w, warming) = (w, warmup)
  show_for s uid (w, c) =
      let found = caller_pinned_uids (claims_of c) (is_authenticated c) w in
      if can_access_service s (is_authenticated c) (claims_of c)
      then (found.0, reply (service (to_service_view s (has uid found.1))))
      else (w, refuse 403)

  abbrev pub show_cached : Option ServiceInfo → String → Request → World R → World R × Response
  show_cached none uid r w = (w, refuse 404)
  show_cached (some s) uid r w = show_for s uid (extract R lib h m r w)

  -- `handleGetServiceByUID`
  unfoldable pub handle_get_service_by_uid : String → Request → World R → World R × Response
  handle_get_service_by_uid uid r w =
      if str_eq r.method "GET" then show_cached (get uid w.cache) uid r w else (w, refuse 405)

  -- `handleGetCategories`
  unfoldable pub handle_get_categories : Request → World R → World R × Response
  handle_get_categories r w =
      if str_eq r.method "GET"
      then (w, reply (categories (get_categories w.cache)))
      else (w, refuse 405)

  -- `handleHealth`
  unfoldable pub handle_health : Request → World R → World R × Response
  handle_health r w = (w, reply healthy)

  abbrev pub nobody : CallerIdentity
  nobody = record { authenticated = false; username = ""; email = ""; name = ""; groups = [] }

  abbrev pub identity_of : Claims → CallerIdentity
  identity_of c = record {
    authenticated = true;
    username = text_or c.preferred_username c.subject;
    email = c.email;
    name = c.name;
    groups = c.groups;
  }

  abbrev pub identity_for : Caller → Response
  identity_for warming = warmup
  identity_for (caller (some c) true) = reply (identity (identity_of c))
  identity_for (caller none true) = record { status = 0; body = aborted }
  identity_for _ = reply (identity nobody)

  -- `handleCallerIdentity`
  unfoldable pub handle_caller_identity : Request → World R → World R × Response
  handle_caller_identity r w =
      let found = extract R lib h m r w in
      if str_eq r.method "GET" then (found.0, identity_for found.1) else (w, refuse 405)
