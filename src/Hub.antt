-- ===== src/Hub.antt =====
-- internal/websocket/hub.go: the connected clients of one replica and the fan-out of events to them.
-- encoding/json is the parameter `Codec`. A write to a connection succeeds or fails as the network
-- has it, which is the argument `writes`, one for each frame; `sent` is the log of the frames that were written.
pub mod Delivery
pub mod Events
pub mod Filtering
pub mod Privacy
use nebari_landing.Base.{
  ℕ, String, Bool, true, false, not, ◌&&◌, ◌||◌, Option, none, some, List, [], ◌∷◌, ◌++◌, ◌==◌,
  if◌then◌else◌, str_eq, is_blank, any, keep, length, ltb, ◌-◌, pos,
}
use nebari_landing.Cache.{ServiceInfo}
use nebari_landing.Access.{Principal}
use nebari_landing.Notification.{Notification}

-- `client`; the connection is known by a number.
pub record Client : Type 0 where
  pub conn : ℕ
  pub principal : Principal

-- `ServiceAccessPolicy`
abbrev pub AccessPolicy : Type 0
AccessPolicy = ServiceInfo → Principal → Bool

-- `Hub`; `none` is the nil policy, `warned` the state of `nilPolicyWarn`.
pub record Hub : Type 0 where
  pub clients : List Client
  pub policy : Option AccessPolicy
  pub warned : Bool
  pub sent : List (ℕ × String)
  pub closed : List ℕ

-- What encoding/json reads from a frame, `none` where it fails, and what it writes. The inner
-- `Option` of a decoded event is the pointer, which a frame may leave out.
pub record Codec : Type 0 where
  pub envelope_type : String → Option String
  pub service_event : String → Option (Option ServiceInfo)
  pub notification_event : String → Option (Option Notification)
  pub service_frame : String → Option ServiceInfo → String
  pub notification_frame : Notification → String

abbrev pub event_added : String
event_added = "added"

abbrev pub event_modified : String
event_modified = "modified"

abbrev pub event_deleted : String
event_deleted = "deleted"

abbrev pub event_notification_create : String
event_notification_create = "notification.created"

-- `NewHub`
abbrev pub new_hub : Hub
new_hub = record { clients = []; policy = none; warned = false; sent = []; closed = [] }

-- `SetAccessPolicy`
unfoldable pub set_access_policy : AccessPolicy → Hub → Hub
set_access_policy p h = record h { policy = some p }

-- `drop`
unfoldable pub drop : Client → Hub → Hub
drop c h =
    if any (λ d. d.conn == c.conn) h.clients
    then record h {
      clients = keep (λ d. not (d.conn == c.conn)) h.clients;
      closed = c.conn ∷ h.closed;
    }
    else h

-- `writeOrDrop`
unfoldable pub write_or_drop : (Client → Bool) → String → Client → Hub → Hub
write_or_drop writes raw c h =
    if writes c then record h { sent = h.sent ++ (c.conn, raw) ∷ [] } else drop c h

-- The loop over the snapshot of the clients; `allowed` is the test before the write.
unfoldable pub deliver : (Client → Bool) → String → (Client → Bool) → List Client → Hub → Hub
deliver writes raw allowed [] h = h
deliver writes raw allowed (c ∷ rest) h =
    deliver writes raw allowed rest (if allowed c then write_or_drop writes raw c h else h)

-- `policy != nil && !policy.CanAccessService(service, c.principal)` skips the client.
abbrev pub allows : Option AccessPolicy → ServiceInfo → Client → Bool
allows none service c = true
allows (some p) service c = p service c.principal

warn_if_nil : Option AccessPolicy → Hub → Hub
warn_if_nil none h = record h { warned = true }
warn_if_nil (some p) h = h

-- `broadcastService`
unfoldable pub broadcast_service : (Client → Bool) → ServiceInfo → String → Hub → Hub
unfolding warn_if_nil
broadcast_service writes service raw h =
    deliver writes raw (allows h.policy service) h.clients (warn_if_nil h.policy h)

-- The `ServiceInfo` that `broadcastNotification` synthesizes.
unfoldable pub proxy_of : Notification → ServiceInfo
proxy_of n = record {
  uid = n.service_uid;
  name = "";
  namespace = "";
  display_name = "";
  description = "";
  url = "";
  icon = "";
  icon_light = "";
  icon_dark = "";
  category = "";
  priority = pos 0;
  visibility = n.visibility;
  required_groups = n.required_groups;
  health = none;
  health_check_config = none;
  static = false;
}

-- `broadcastAll`
unfoldable pub broadcast_all : (Client → Bool) → String → Hub → Hub
broadcast_all writes raw h = deliver writes raw (λ c. true) h.clients h

-- `broadcastNotification`
unfoldable pub broadcast_notification : (Client → Bool) → Notification → String → Hub → Hub
unfolding warn_if_nil
broadcast_notification writes n raw h =
    if is_blank n.service_uid
    then deliver writes raw (λ c. true) h.clients h
    else deliver writes raw (allows h.policy (proxy_of n)) h.clients (warn_if_nil h.policy h)

-- A frame whose type is one of the three service events.
abbrev pub is_service_type : String → Bool
is_service_type t = str_eq t event_added || (str_eq t event_modified || str_eq t event_deleted)

dispatch_service : (Client → Bool) → Option (Option ServiceInfo) → String → Hub → Hub
dispatch_service writes none raw h = h
dispatch_service writes (some none) raw h = h
dispatch_service writes (some (some service)) raw h = broadcast_service writes service raw h

dispatch_notification : (Client → Bool) → Option (Option Notification) → String → Hub → Hub
dispatch_notification writes none raw h = h
dispatch_notification writes (some none) raw h = h
dispatch_notification writes (some (some n)) raw h = broadcast_notification writes n raw h

dispatch_type : Codec → (Client → Bool) → Option String → String → Hub → Hub
dispatch_type codec writes none raw h = h
dispatch_type codec writes (some t) raw h =
    if is_service_type t
    then dispatch_service writes (codec.service_event raw) raw h
    else if str_eq t event_notification_create
    then dispatch_notification writes (codec.notification_event raw) raw h
    else broadcast_all writes raw h

-- `dispatch`
unfoldable pub dispatch : Codec → (Client → Bool) → String → Hub → Hub
unfolding dispatch_type dispatch_service dispatch_notification
dispatch codec writes raw h = dispatch_type codec writes (codec.envelope_type raw) raw h

-- The registration in `ServeWS`.
unfoldable pub register : Client → Hub → Hub
register c h = record h { clients = h.clients ++ c ∷ [] }

-- What happens to the hub in time: a message of the channel, with the outcome of each write of its
-- frame; a connection that `ServeWS` opens; and one that its read loop ends.
pub data Happening : Type 0 where
  message : (Client → Bool) → String → Happening
  opened : Client → Happening
  ended : Client → Happening

abbrev pub happen : Codec → Happening → Hub → Hub
happen codec (message writes raw) h = dispatch codec writes raw h
happen codec (opened c) h = register c h
happen codec (ended c) h = drop c h

-- `subscribe`: the loop over the messages of the channel, between which connections come and go. A
-- connection that opens while a frame is written is not in its snapshot, so it comes behind it.
unfoldable pub subscribe : Codec → List Happening → Hub → Hub
subscribe codec [] h = h
subscribe codec (x ∷ rest) h = subscribe codec rest (happen codec x h)

-- The switch of `Publish`.
unfoldable pub event_type : String → String
event_type t =
    if str_eq t "added"
    then event_added
    else if str_eq t "modified"
    then event_modified
    else if str_eq t "deleted"
    then event_deleted
    else event_modified

-- `Publish`: the frame that goes to the channel.
unfoldable pub publish : Codec → String → Option ServiceInfo → String
publish codec t service = codec.service_frame (event_type t) service

-- `PublishNotification`
unfoldable pub publish_notification : Codec → Notification → String
publish_notification codec n = codec.notification_frame n

-- The session timer in `ServeWS`: how long it runs, `none` where none is installed.
unfoldable pub session_timer : ℕ → Option ℕ → Option ℕ
session_timer now none = none
session_timer now (some end) = if ltb now end then some (end - now) else none

-- `ClientCount`
unfoldable pub client_count : Hub → ℕ
client_count h = length h.clients
