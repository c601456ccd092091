-- ===== src/Api/Routing.antt =====
-- internal/api/handlers.go: the routes, the CORS middleware around them, and the handler's options.
pub mod Origins
use nebari_landing.Base.{
  ℕ, ℤ, ◌==◌, String, Bool, true, false, not, ◌||◌, ◌&&◌, Option, none, some, List, [], ◌∷◌,
  if◌then◌else◌, str_eq, is_blank, has, has_prefix, trim_prefix, split_slash,
}
use nebari_landing.Access.{Claims}
use nebari_landing.Redis.{Redis}
use nebari_landing.Api.{
  Request, Moment, Libraries, Handler, World, Response, nothing, refuse, reply,
}
use nebari_landing.Api.Services.{
  handle_get_services, handle_get_service_by_uid, handle_get_categories, handle_health,
  handle_caller_identity,
}
use nebari_landing.Api.Debug.{handle_debug}
use nebari_landing.Api.Notices.{
  handle_get_notifications, handle_notification_sub, handle_admin_create_notification,
}
use nebari_landing.Api.Asking.{
  handle_request_access, handle_admin_list_access_requests, handle_admin_access_request_sub,
}
use nebari_landing.Api.Pinning.{handle_get_pins, handle_pin_by_uid}
use nebari_landing.Api.Socket.{handle_ws, handle_ws_ticket}

-- `NewHandler`, for a hub and a pin store that may be nil, before its options.
unfoldable pub new_handler : Bool → Bool → Bool → Handler
new_handler enable_auth hub pin_store = record {
  enable_auth = enable_auth;
  extractor = none;
  hub = hub;
  pin_store = pin_store;
  request_store = false;
  notification_store = false;
  ticket_store = false;
  keycloak = false;
  admin_group = "admin";
  allowed_origins = "*" ∷ [];
  debug_mode = false;
  docs_enabled = false;
}

-- `WithAccessRequestStore`, of a store that is not nil, and so on.
abbrev pub with_access_request_store : Handler → Handler
with_access_request_store h = record h { request_store = true }

abbrev pub with_admin_group : String → Handler → Handler
with_admin_group group h = record h { admin_group = group }

abbrev pub with_notification_store : Handler → Handler
with_notification_store h = record h { notification_store = true }

abbrev pub with_keycloak_admin_client : Handler → Handler
with_keycloak_admin_client h = record h { keycloak = true }

-- An empty list of origins leaves the default.
unfoldable pub with_allowed_origins : List String → Handler → Handler
with_allowed_origins [] h = h
with_allowed_origins (o ∷ origins) h = record h { allowed_origins = o ∷ origins }

abbrev pub with_debug_mode : Handler → Handler
with_debug_mode h = record h { debug_mode = true }

abbrev pub with_docs_enabled : Handler → Handler
with_docs_enabled h = record h { docs_enabled = true }

abbrev pub with_ws_ticket_store : Handler → Handler
with_ws_ticket_store h = record h { ticket_store = true }

abbrev pub with_claims_extractor : (Request → Option Claims × Bool) → Handler → Handler
with_claims_extractor f h = record h { extractor = some f }

-- The CORS headers that depend on the origin: `Access-Control-Allow-Origin`, and whether `Vary` is added.
pub record Cors : Type 0 where
  pub allow_origin : Option String
  pub vary : Bool

-- `allowAll`
unfoldable pub allow_all : List String → Bool
allow_all (o ∷ []) = str_eq o "*"
allow_all _ = false

-- The headers that `corsMiddleware` sets.
unfoldable pub cors_headers : List String → String → Cors
cors_headers allowed origin =
    if allow_all allowed
    then record { allow_origin = some "*"; vary = false }
    else if not (is_blank origin) && has origin allowed
    then record { allow_origin = some origin; vary = true }
    else record { allow_origin = none; vary = false }

-- The routes; `docs` answers those of the generated document. `retention` belongs to the store of
-- notifications.
module _ (R : Redis) (lib : Libraries) (h : Handler) (m : Moment) (retention : ℤ)
    (docs : Request → Response) where
  abbrev pub services_sub : String × Option String → Request → World R → World R × Response
  services_sub (uid, none) r w =
      if is_blank uid then (w, refuse 400) else handle_get_service_by_uid R lib h m uid r w
  services_sub (uid, some action) r w =
      if is_blank uid
      then (w, refuse 400)
      else if str_eq action "request_access"
      then handle_request_access R lib h m uid r w
      else (w, refuse 404)

  -- `handleServicesSub`
  unfoldable pub handle_services_sub : Request → World R → World R × Response
  handle_services_sub r w = services_sub (split_slash (trim_prefix r.path "/api/v1/services/")) r w

  -- The patterns that end in a slash stand for all paths below them.
  abbrev pub route_below : Request → World R → World R × Response
  route_below r w =
      if has_prefix r.path "/api/v1/services/"
      then handle_services_sub r w
      else if has_prefix r.path "/api/v1/notifications/"
      then handle_notification_sub R lib h m retention r w
      else if has_prefix r.path "/api/v1/pins/"
      then handle_pin_by_uid R lib h m r w
      else if has_prefix r.path "/api/v1/admin/access-requests/"
      then handle_admin_access_request_sub R lib h m r w
      else (w, refuse 404)

  -- The patterns that exist only with a hub, in debug mode, or with the document enabled.
  abbrev pub route_optional : Request → World R → World R × Response
  route_optional r w =
      if h.hub && str_eq r.path "/api/v1/ws"
      then handle_ws R lib h m r w
      else if h.hub && str_eq r.path "/api/v1/ws-ticket"
      then handle_ws_ticket R lib h m r w
      else if h.debug_mode && str_eq r.path "/api/v1/debug"
      then handle_debug R lib h m r w
      else if h.docs_enabled
          && (str_eq r.path "/api/v1/docs/openapi.json" || str_eq r.path "/api/v1/docs")
      then (w, docs r)
      else route_below r w

  -- `Routes`
  unfoldable pub route : Request → World R → World R × Response
  route r w =
      if str_eq r.path "/api/v1/services"
      then handle_get_services R lib h m r w
      else if str_eq r.path "/api/v1/categories"
      then handle_get_categories R lib h m r w
      else if str_eq r.path "/api/v1/health"
      then handle_health R lib h m r w
      else if str_eq r.path "/api/v1/notifications"
      then handle_get_notifications R lib h m retention r w
      else if str_eq r.path "/api/v1/caller-identity"
      then handle_caller_identity R lib h m r w
      else if str_eq r.path "/api/v1/pins"
      then handle_get_pins R lib h m r w
      else if str_eq r.path "/api/v1/admin/access-requests"
      then handle_admin_list_access_requests R lib h m r w
      else if str_eq r.path "/api/v1/admin/notifications"
      then handle_admin_create_notification R lib h m retention r w
      else route_optional r w

  -- `corsMiddleware` around the routes: a preflight is answered by itself.
  unfoldable pub serve : Request → World R → World R × Cors × Response
  serve r w =
      let headers = cors_headers h.allowed_origins r.origin in
      let answer = route r w in
      if str_eq r.method "OPTIONS"
      then (w, headers, reply nothing)
      else (answer.0, headers, answer.1)
