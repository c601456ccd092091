-- ===== src/Tests/Notices.antt =====
-- A listing of the notifications that a store holds.
use nebari_landing.Base.{ℕ, String, ◌≡◌, refl, true, Option, some, List, [], ◌∷◌, pos}
use nebari_landing.Notification.Store.{list_notifications}
use nebari_landing.Api.{Request, Handler, World, caller, extract, reply, notices}
use nebari_landing.Api.Views.{NotificationItem}
use nebari_landing.Api.Notices.{handle_get_notifications}
use nebari_landing.Api.Notices.Filtering.{IsListing, handle_get_notifications-lists}
use nebari_landing.Api.Routing.{with_notification_store}
use nebari_landing.Tests.Memory.{memory}
use nebari_landing.Tests.Samples.{staff_claims}
use nebari_landing.Tests.Stores.{clock, groups_json, noted, with_note}
use nebari_landing.Tests.Api.{libraries, moment, world, request_to, for_caller}

abbrev with_notices : Handler
with_notices = with_notification_store (for_caller staff_claims)

abbrev noted_world : World memory
noted_world = record world { db = with_note }

list_test : list_notifications clock groups_json memory with_note ≡ (with_note, some (noted ∷ []))
unfolding list_notifications nebari_landing.Notification.Store.fetch_all
    nebari_landing.Notification.Store.readable nebari_landing.Notification.Store.notif_from_hash
    nebari_landing.Redis.newest_first nebari_landing.Base.insertion_sort
    nebari_landing.Notification.Store.create_draft nebari_landing.Notification.Store.encode_groups
    nebari_landing.Notification.notification_of nebari_landing.Redis.effects
    nebari_landing.Notification.Store.draft_commands nebari_landing.Redis.effect
    nebari_landing.Redis.write nebari_landing.Redis.put_all
    nebari_landing.Notification.Store.notif_fields nebari_landing.Base.insert
    nebari_landing.Notification.Store.decode_groups nebari_landing.Base.lookup
    nebari_landing.Base.drop_prefix
list_test = refl

abbrev get_notices : Request
get_notices = request_to "GET" "/api/v1/notifications"

noticed :
    extract memory libraries with_notices moment get_notices noted_world
    ≡ (noted_world, caller (some staff_claims) true)
unfolding extract
noticed = refl

handle_get_notifications-lists_example :
    (shown : List NotificationItem) × ((handle_get_notifications memory libraries with_notices
        moment
        (pos 9)
        get_notices
        noted_world).1
      ≡ reply (notices shown))
    × IsListing memory libraries with_notices moment
        (pos 9)
        noted_world
        (caller (some staff_claims) true)
        (noted ∷ [])
        shown
handle_get_notifications-lists_example =
    handle_get_notifications-lists memory libraries with_notices moment (pos 9) get_notices
      noted_world noted_world with_note (noted ∷ []) (caller (some staff_claims) true) refl refl
      list_test noticed (λ e. cc e)
