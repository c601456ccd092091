-- ===== src/Api/Asking.antt =====
-- internal/api/handlers.go: asking for access to a service, and what an administrator answers.
pub mod Guards
pub mod Granting
use nebari_landing.Base.{
  ℕ, ◌==◌, String, Bool, true, false, not, ◌||◌, Option, none, some, List, [], ◌∷◌, ◌++◌, ◌⊎◌, inl,
  inr, map, if◌then◌else◌, str_eq, is_blank, trim_prefix, split_slash,
}
use nebari_landing.Access.{Claims}
use nebari_landing.Cache.{ServiceInfo, get}
use nebari_landing.Redis.{Redis}
use nebari_landing.Requests.{
  AccessRequest, Outcome, done, duplicate_pending, not_found, store_error, new_request, create,
  list_all, list_pending, update_status, status_approved, status_denied,
}
use nebari_landing.Api.{
  Request, Moment, Libraries, Handler, World, Response, request, requests, refuse, reply, text_or,
  require_auth, require_admin, with_claims,
}

module _ (R : Redis) (lib : Libraries) (h : Handler) (m : Moment) where
  abbrev pub asked : World R → R.Db × Outcome → World R × Response
  asked w (d, done req) = (record w { db = d }, record { status = 202; body = request req })
  asked w (d, duplicate_pending) = (record w { db = d }, refuse 409)
  asked w (d, _) = (record w { db = d }, refuse 500)

  abbrev pub ask : ServiceInfo → Claims → Option String → World R → World R × Response
  ask s c none w = (w, refuse 400)
  ask s c (some message) w = asked w (
      create lib.clock R
        (new_request m.fresh_id m.now s.uid s.name (text_or c.preferred_username c.subject) c.email
          message)
        w.db)

  -- The message of the body, where there is a body; `none` where it cannot be decoded.
  abbrev pub message_of : Request → Option String
  message_of r = if r.content_length == 0 then some "" else lib.read_message r.body

  abbrev pub ask_for : Option ServiceInfo → Request → Claims → World R → World R × Response
  ask_for none r c w = (w, refuse 404)
  ask_for (some s) r c w = if s.static then (w, refuse 403) else ask s c (message_of r) w

  -- `handleRequestAccess`
  unfoldable pub handle_request_access : String → Request → World R → World R × Response
  handle_request_access uid r w =
      if not (str_eq r.method "POST")
      then (w, refuse 405)
      else if not h.request_store
      then (w, refuse 501)
      else with_claims R lib h m (require_auth R lib h m r w)
          (λ c v. ask_for (get uid v.cache) r c v)

  abbrev pub listed : World R → R.Db × Option (List AccessRequest) → World R × Response
  listed w (d, none) = (record w { db = d }, refuse 500)
  listed w (d, some l) = (record w { db = d }, reply (requests l))

  abbrev pub list_requests : Request → World R → World R × Response
  list_requests r w =
      if str_eq r.status "pending"
      then listed w (list_pending lib.clock R w.db)
      else listed w (list_all lib.clock R w.db)

  -- `handleAdminListAccessRequests`
  unfoldable pub handle_admin_list_access_requests : Request → World R → World R × Response
  handle_admin_list_access_requests r w =
      if not (str_eq r.method "GET")
      then (w, refuse 405)
      else if not h.request_store
      then (w, refuse 501)
      else with_claims R lib h m (require_admin R lib h m r w) (λ c v. list_requests r v)

  abbrev pub groups_to_join : Option ServiceInfo → List String
  groups_to_join none = []
  groups_to_join (some s) = if s.static then [] else s.required_groups

  -- `applyKeycloakGroupMembership`: the calls of `AddUserToGroup`, whose errors are only logged.
  unfoldable pub apply_keycloak_group_membership : AccessRequest → World R → World R
  apply_keycloak_group_membership req w =
      if h.keycloak
      then record w {
        memberships =
            w.memberships
            ++ map (λ group. (req.user_id, group)) (groups_to_join (get req.service_uid w.cache));
      }
      else w

  abbrev pub updated : String → World R → R.Db × Outcome → World R × Response
  updated status w (d, done req) = (
    (if str_eq status status_approved
        then apply_keycloak_group_membership req (record w { db = d })
        else record w { db = d }),
    reply (request req),
  )
  updated status w (d, not_found) = (record w { db = d }, refuse 404)
  updated status w (d, _) = (record w { db = d }, refuse 500)

  abbrev pub resolve : String → String → Request → Claims → World R → World R × Response
  resolve id status r c w =
      if str_eq r.method "PUT"
      then updated status w
          (update_status lib.clock R m.now id status (text_or c.preferred_username c.subject) w.db)
      else (w, refuse 405)

  abbrev pub resolve_by : String → String → Request → Claims → World R → World R × Response
  resolve_by id action r c w =
      if str_eq action "approve"
      then resolve id status_approved r c w
      else if str_eq action "deny"
      then resolve id status_denied r c w
      else (w, refuse 404)

  abbrev pub access_request_sub :
      String × Option String → Request → Claims → World R → World R × Response
  access_request_sub (id, none) r c w = (w, refuse 400)
  access_request_sub (id, some action) r c w =
      if is_blank id || is_blank action then (w, refuse 400) else resolve_by id action r c w

  -- `handleAdminAccessRequestSub`
  unfoldable pub handle_admin_access_request_sub : Request → World R → World R × Response
  handle_admin_access_request_sub r w =
      if h.request_store
      then with_claims R lib h m (require_admin R lib h m r w)
          (access_request_sub (split_slash (trim_prefix r.path "/api/v1/admin/access-requests/")) r)
      else (w, refuse 501)
