-- ===== src/Api/Notices.antt =====
-- internal/api/handlers.go: the routes of notifications.
pub mod Filtering
use nebari_landing.Base.{
  ℕ, ℤ, String, Bool, true, false, not, ◌||◌, ◌&&◌, Option, none, some, List, [], ◌∷◌, ◌++◌, ◌⊎◌,
  inl, inr, map, if◌then◌else◌, str_eq, is_blank, keep, trim_prefix, split_slash,
}
use nebari_landing.Access.{Claims, can_access_policy}
use nebari_landing.Hub.{publish_notification}
use nebari_landing.Redis.{Redis}
use nebari_landing.Notification.{Notification}
use nebari_landing.Notification.Store.{
  Found, found, not_found, store_error, create, list_notifications, mark_read, read_set,
}
use nebari_landing.Api.Views.{NotificationItem, item_of}
use nebari_landing.Api.{
  Request, Moment, Libraries, Handler, World, Response, Body, nothing, notices, notice, refuse,
  reply, warmup, Caller, warming, rejected, caller, claims_of, is_authenticated, extract,
  require_auth, require_admin, with_claims,
}

-- How long a notification is kept, in nanoseconds, which `NewStore` is given.
module _ (R : Redis) (lib : Libraries) (h : Handler) (m : Moment) (retention : ℤ) where
  abbrev pub groups_if : Bool → Option Claims → List String
  groups_if true (some c) = c.groups
  groups_if _ _ = []

  -- The test of the loop: a notification of a service is shown to those who may see the service.
  unfoldable pub shown_to : Option Claims → Bool → Notification → Bool
  shown_to claims authenticated n =
      is_blank n.service_uid
      || can_access_policy n.visibility authenticated n.required_groups
          (groups_if authenticated claims)

  abbrev pub read_or_none : World R → R.Db × Option (List String) → World R × List String
  read_or_none w (d, none) = (record w { db = d }, [])
  read_or_none w (d, some ids) = (record w { db = d }, ids)

  -- The marks that are looked up: those of the token's `preferred_username`.
  abbrev pub marks_for : Bool → Option Claims → World R → World R × List String
  marks_for true (some c) w =
      if is_blank c.preferred_username
      then (w, [])
      else read_or_none w (read_set lib.clock lib.groups R c.preferred_username w.db)
  marks_for _ _ w = (w, [])

  unfoldable pub items :
      Option Claims → Bool → List String → List Notification → List NotificationItem
  items claims authenticated read l =
      map (λ n. item_of read (lib.show_time n.created_at) n)
        (keep (shown_to claims authenticated) l)

  abbrev pub notices_for : List Notification → World R × Caller → World R × Response
  notices_for l (w, warming) = (w, warmup)
  notices_for l (w, c) =
      let read = marks_for (is_authenticated c) (claims_of c) w in
      (read.0, reply (notices (items (claims_of c) (is_authenticated c) read.1 l)))

  abbrev pub list_notices :
      Request → World R → R.Db × Option (List Notification) → World R × Response
  list_notices r w (d, none) = (record w { db = d }, refuse 500)
  list_notices r w (d, some l) = notices_for l (extract R lib h m r (record w { db = d }))

  -- `handleGetNotifications`
  unfoldable pub handle_get_notifications : Request → World R → World R × Response
  handle_get_notifications r w =
      if str_eq r.method "GET"
      then (if h.notification_store
          then list_notices r w (list_notifications lib.clock lib.groups R w.db)
          else (w, reply (notices [])))
      else (w, refuse 405)

  abbrev pub marked_as : World R → R.Db × Found Unit → World R × Response
  marked_as w (d, found u) = (record w { db = d }, record { status = 204; body = nothing })
  marked_as w (d, not_found) = (record w { db = d }, refuse 404)
  marked_as w (d, store_error) = (record w { db = d }, refuse 500)

  abbrev pub mark_for : String → Claims → World R → World R × Response
  mark_for id c w = marked_as w (mark_read lib.clock lib.groups R c.preferred_username id w.db)

  abbrev pub notification_sub : String × Option String → Request → World R → World R × Response
  notification_sub (id, none) r w = (w, refuse 400)
  notification_sub (id, some action) r w =
      if is_blank id
      then (w, refuse 400)
      else if not (str_eq action "read")
      then (w, refuse 404)
      else if not (str_eq r.method "PUT")
      then (w, refuse 405)
      else with_claims R lib h m (require_auth R lib h m r w) (mark_for id)

  -- `handleNotificationSub`
  unfoldable pub handle_notification_sub : Request → World R → World R × Response
  handle_notification_sub r w =
      if h.notification_store
      then notification_sub (split_slash (trim_prefix r.path "/api/v1/notifications/")) r w
      else (w, refuse 501)

  abbrev pub publish_if : Bool → Notification → World R → World R
  publish_if true n w = record w {
    published = w.published ++ publish_notification lib.events n ∷ [];
  }
  publish_if false n w = w

  abbrev pub created_as : World R → R.Db × Option Notification → World R × Response
  created_as w (d, none) = (record w { db = d }, refuse 500)
  created_as w (d, some n) =
      (publish_if h.hub n (record w { db = d }), record { status = 201; body = notice n })

  abbrev pub create_notice : Option (String × String × String) → World R → World R × Response
  create_notice none w = (w, refuse 400)
  create_notice (some (image, title, message)) w =
      if is_blank title || is_blank message
      then (w, refuse 400)
      else created_as w
          (create lib.clock lib.groups R retention m.fresh_id m.now image title message w.db)

  -- `handleAdminCreateNotification`
  unfoldable pub handle_admin_create_notification : Request → World R → World R × Response
  handle_admin_create_notification r w =
      if not h.notification_store
      then (w, refuse 501)
      else if not (str_eq r.method "POST")
      then (w, refuse 405)
      else with_claims R lib h m (require_admin R lib h m r w)
          (λ c v. create_notice (lib.read_notice r.body) v)
