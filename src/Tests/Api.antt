-- ===== src/Tests/Api.antt =====
-- Requests to the handlers, on a server in memory.
use nebari_landing.Base.{
  pos, ℕ, ◌+++◌, ◌*◌, ◌<◌, String, Bool, true, false, Option, none, some, List, [], ◌∷◌, ◌++◌, ◌≡◌,
  ◌≢◌, ◌⊎◌, inl, inr, ◌↔◌, refl, sym, ap, subst, map, ◌||◌, is_blank, str_eq, has, has_prefix, Memᴰ,
  IsOrdered,
}
use nebari_landing.Access.{
  Claims, Principal, principal_from_claims, can_access_service, principal_can_access,
}
use nebari_landing.Cache.{ServiceInfo, ServiceCache, get, listed_before}
use nebari_landing.Hub.{proxy_of}
use nebari_landing.Notification.{Notification}
use nebari_landing.Requests.{AccessRequest}
use nebari_landing.Api.Views.{ServiceView, to_service_view}
use nebari_landing.Api.{
  Request, Moment, Libraries, Handler, World, Response, Body, service, services, reply, Caller,
  warming, caller, claims_of, is_authenticated, extract, require_auth,
}
use nebari_landing.Auth.{Validator}
use nebari_landing.Api.Bearer.{Bears, extract-Bears}
use nebari_landing.Api.Services.{handle_get_services, handle_get_service_by_uid}
use nebari_landing.Api.Services.Listing.{MaySee, handle_get_services-lists}
use nebari_landing.Api.Services.Single.{handle_get_service_by_uid-listed}
use nebari_landing.Api.Notices.{handle_admin_create_notification, shown_to}
use nebari_landing.Api.Asking.{handle_admin_list_access_requests, handle_admin_access_request_sub}
use nebari_landing.Api.Asking.Guards.{NotAdmin, Denied, handle_admin-Denied}
use nebari_landing.Api.Asking.Granting.{Grants, handle_admin_access_request_sub-Grants}
use nebari_landing.Api.Socket.{handle_ws, upgrade}
use nebari_landing.Api.Socket.Sessions.{ByToken, ByTicket, handle_ws-authenticated}
use nebari_landing.Api.Socket.Agreement.{handle_ws-sees}
use nebari_landing.Api.Debug.{shown_headers}
use nebari_landing.Api.Debug.Redaction.{shown_headers-hides}
use nebari_landing.Api.Routing.{new_handler, with_claims_extractor, with_access_request_store}
use nebari_landing.Tests.Memory.{memory}
use nebari_landing.Tests.Samples.{web_entry, web_cache, staff_claims, guest_claims, codec}
use nebari_landing.Tests.Auth.{loaded, waiting, read, second}
use nebari_landing.Tests.Cache.{web_cache-IsKeyed}
use nebari_landing.Tests.Stores.{clock, groups_json, claims_json, asked}

abbrev pub libraries : Libraries
libraries = record {
  tokens = read;
  clock = clock;
  groups = groups_json;
  tickets = claims_json;
  events = codec;
  read_message = λ s. some s;
  read_notice = λ s. none;
  show_time = λ t. "";
  equal_fold = str_eq;
}

abbrev pub moment : Moment
moment = record { now = 79 * second; fresh_id = "id-9"; bytes = none; waiting = waiting }

abbrev pub world : World memory
world = record {
  validator = some loaded;
  cache = web_cache;
  db = asked;
  published = [];
  memberships = [];
}

abbrev pub request_to : String → String → Request
request_to method path = record {
  method = method;
  path = path;
  authorization = "Bearer jwt";
  headers = ("Authorization", "Bearer jwt" ∷ []) ∷ [];
  origin = "";
  status = "";
  ticket = "";
  content_length = 0;
  body = "";
}

abbrev pub bare : Handler
bare = with_access_request_store (new_handler true true true)

-- A handler of tests, whose callers are the given ones.
abbrev pub for_caller : Claims → Handler
for_caller c = with_claims_extractor (λ r. (some c, true)) bare

abbrev pub get_services : Request
get_services = request_to "GET" "/api/v1/services"

known_test :
    (extract memory libraries (for_caller staff_claims) moment get_services world).1
    ≡ caller (some staff_claims) true
unfolding extract
known_test = refl

known : (extract memory libraries (for_caller staff_claims) moment get_services world).1 ≢ warming
known e = cc (known_test, e)

handle_get_services-lists_example :
    (l : List ServiceInfo) × (pinned : List String) × ((handle_get_services memory libraries
        (for_caller staff_claims)
        moment
        get_services
        world).1
      ≡ reply (services (map (λ s. to_service_view s (has s.uid pinned)) l)))
    × IsOrdered listed_before l
    × ((s : ServiceInfo)
        → Memᴰ s l ↔ (
            (get s.uid web_cache ≡ some s)
            × MaySee
                (is_authenticated
                  (extract memory libraries (for_caller staff_claims) moment get_services world).1)
                (claims_of
                  (extract memory libraries (for_caller staff_claims) moment get_services world).1)
                s))
handle_get_services-lists_example =
    handle_get_services-lists memory libraries (for_caller staff_claims) moment get_services world
      refl web_cache-IsKeyed known

abbrev web_view : ServiceView
web_view = to_service_view web_entry false

listing_test :
    (handle_get_services memory libraries (for_caller staff_claims) moment get_services world).1
    ≡ reply (services (web_view ∷ []))
unfolding handle_get_services extract nebari_landing.Api.Services.visible nebari_landing.Base.keep
    nebari_landing.Cache.get_all nebari_landing.Base.insertion_sort nebari_landing.Base.values
    can_access_service nebari_landing.Access.can_access_policy
    nebari_landing.Access.has_required_groups nebari_landing.Base.any
    nebari_landing.Access.group_matches nebari_landing.Base.trim_prefix has
    nebari_landing.Api.Services.caller_pinned_uids new_handler nebari_landing.Pins.get_pins
    to_service_view nebari_landing.Base.insert_sorted nebari_landing.Base.drop_prefix
    nebari_landing.Requests.create nebari_landing.Redis.effects
    nebari_landing.Requests.create_commands nebari_landing.Redis.effect
    nebari_landing.Requests.new_request
listing_test = refl

handle_get_service_by_uid-listed_example :
    ((handle_get_service_by_uid memory libraries
        (for_caller staff_claims)
        moment
        "u1"
        get_services
        world).1
      ≡ reply (service web_view))
    ↔ (Memᴰ web_view (web_view ∷ []) × (◌≡◌ {A = String} web_view.id "u1"))
handle_get_service_by_uid-listed_example =
    handle_get_service_by_uid-listed memory libraries (for_caller staff_claims) moment get_services
      world "u1" (web_view ∷ []) web_view refl web_cache-IsKeyed listing_test

abbrev ws_request : Request
ws_request = request_to "GET" "/api/v1/ws"

abbrev staff : Principal
staff = principal_from_claims (some staff_claims)

ws_test :
    (handle_ws memory libraries bare moment ws_request world).1
    ≡ upgrade memory libraries bare moment staff (some 1000)
unfolding handle_ws new_handler require_auth nebari_landing.Base.byte_length
    nebari_landing.Base.split_on nebari_landing.Validation.validate_token
    nebari_landing.Validation.key_for nebari_landing.Base.lookup nebari_landing.Validation.serve_key
    nebari_landing.Validation.expected_issuer nebari_landing.Auth.new_validator
    nebari_landing.Auth.start_refresh nebari_landing.Base.trim_suffix
    nebari_landing.Access.exp_from_claims
ws_test = refl

handle_ws-authenticated_example :
    (staff.authenticated ≡ true)
    × (ByToken memory libraries bare moment ws_request world staff (some 1000)
        ⊎ ByTicket memory libraries bare moment ws_request world staff (some 1000))
unfolding new_handler
handle_ws-authenticated_example =
    handle_ws-authenticated memory libraries bare moment ws_request world staff (some 1000) refl
      (λ e. cc e) refl ws_test

handle_ws-sees_example :
    ((s : ServiceInfo)
      → principal_can_access s staff
        ≡ can_access_service s
            (is_authenticated (extract memory libraries bare moment ws_request world).1)
            (claims_of (extract memory libraries bare moment ws_request world).1))
    × ((n : Notification)
        → (is_blank n.service_uid || principal_can_access (proxy_of n) staff)
          ≡ shown_to memory libraries bare moment
              (pos 0)
              (claims_of (extract memory libraries bare moment ws_request world).1)
              (is_authenticated (extract memory libraries bare moment ws_request world).1)
              n)
unfolding new_handler
handle_ws-sees_example =
    handle_ws-sees memory libraries bare moment ws_request world staff (some 1000) refl (λ e. cc e)
      refl refl ws_test

abbrev approve : Request
approve = request_to "PUT" "/api/v1/admin/access-requests/id-1/approve"

guest_found :
    (c : Claims)
    → (require_auth memory libraries (for_caller guest_claims) moment approve world).1 ≡ inr c
    → guest_claims ≡ c
unfolding require_auth
guest_found c e = cc e

guest_NotAdmin : NotAdmin memory libraries (for_caller guest_claims) moment approve world
guest_NotAdmin c g e mem same =
    no_groups (subst (λ (k : Claims). Memᴰ g k.groups) (sym (guest_found c e)) mem)
  where
    no_groups : Memᴰ {A = String} g [] → ⊥
    no_groups n = elim n [ ]

handle_admin-Denied_example :
    Denied memory libraries (for_caller guest_claims) moment world (
      handle_admin_list_access_requests memory libraries
        (for_caller guest_claims)
        moment
        approve
        world)
    × Denied memory libraries (for_caller guest_claims) moment world (
        handle_admin_access_request_sub memory libraries
          (for_caller guest_claims)
          moment
          approve
          world)
    × Denied memory libraries (for_caller guest_claims) moment world (
        handle_admin_create_notification memory libraries
          (for_caller guest_claims)
          moment
          (pos 9)
          approve
          world)
handle_admin-Denied_example =
    handle_admin-Denied memory libraries (for_caller guest_claims) moment (pos 9) approve world
      guest_NotAdmin

handle_admin_access_request_sub-Grants_example :
    Grants memory libraries (for_caller staff_claims) moment world (
      handle_admin_access_request_sub memory libraries
        (for_caller staff_claims)
        moment
        approve
        world)
handle_admin_access_request_sub-Grants_example =
    handle_admin_access_request_sub-Grants memory libraries (for_caller staff_claims) moment approve
      world

bearer_test :
    (extract memory libraries bare moment ws_request world).1 ≡ caller (some staff_claims) true
unfolding extract new_handler require_auth nebari_landing.Base.byte_length
    nebari_landing.Base.split_on nebari_landing.Validation.validate_token
    nebari_landing.Validation.key_for nebari_landing.Base.lookup nebari_landing.Validation.serve_key
    nebari_landing.Validation.expected_issuer nebari_landing.Auth.new_validator
    nebari_landing.Auth.start_refresh nebari_landing.Base.trim_suffix
    nebari_landing.Access.exp_from_claims
bearer_test = refl

extract-Bears_example :
    (v : Validator) × (world.validator ≡ some v)
    × Bears memory libraries bare moment ws_request.authorization v staff_claims
unfolding new_handler
extract-Bears_example =
    extract-Bears memory libraries bare moment ws_request world staff_claims refl bearer_test

-- Two tokens of the same length.
abbrev header_of : String → List (String × List String)
header_of token = ("Accept", "a" ∷ "b" ∷ []) ∷ ("Authorization", ("Bearer " +++ token) ∷ []) ∷ []

shown_headers-hides_example :
    shown_headers str_eq (header_of "jwt") ≡ shown_headers str_eq (header_of "key")
unfolding nebari_landing.Api.Debug.join_values nebari_landing.Base.byte_length
shown_headers-hides_example = shown_headers-hides str_eq (header_of "jwt") (header_of "key") (
  refl,
  inl refl,
  (
    refl,
    inr (
      refl,
      (
        "Bearer",
        "jwt",
        "key",
        (refl, (refl, (refl, (refl, (refl, (refl, tt)))))),
        refl,
        refl,
        refl,
      ),
    ),
    tt,
  ),
)

shown_test :
    shown_headers str_eq (header_of "jwt")
    ≡ ("Accept", "a, b") ∷ ("Authorization", "Bearer [REDACTED, 3 bytes]") ∷ []
unfolding shown_headers nebari_landing.Api.Debug.join_values nebari_landing.Api.Debug.split_space
    nebari_landing.Base.byte_length nebari_landing.Base.decimal
shown_test = refl
