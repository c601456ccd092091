-- ===== src/Api/Views.antt =====
-- internal/api/handlers.go: the views of services, notifications and callers that clients read.
use nebari_landing.Base.{
  ℕ, String, Bool, Option, none, some, List, [], ◌∷◌, ◌⊎◌, if◌then◌else◌, is_blank, has,
}
use nebari_landing.Access.{Claims}
use nebari_landing.Auth.Stats.{Stats}
use nebari_landing.Cache.{ServiceInfo, HealthStatus}
use nebari_landing.Notification.{Notification}

-- `ServiceView`
pub record ServiceView : Type 0 where
  pub id : String
  pub name : String
  pub status : String
  pub description : String
  pub category : List String
  pub pinned : Bool
  pub image : String
  pub image_light : String
  pub image_dark : String
  pub url : String

abbrev pub status_of : Option HealthStatus → String
status_of none = "unknown"
status_of (some health) = health.status

-- `toServiceView`
unfoldable pub to_service_view : ServiceInfo → Bool → ServiceView
to_service_view s pinned = record {
  id = s.uid;
  name = if is_blank s.display_name then s.name else s.display_name;
  status = status_of s.health;
  description = s.description;
  category = if is_blank s.category then [] else s.category ∷ [];
  pinned = pinned;
  image = s.icon;
  image_light = s.icon_light;
  image_dark = s.icon_dark;
  url = s.url;
}

-- `NotificationItem`
pub record NotificationItem : Type 0 where
  pub id : String
  pub image : String
  pub title : String
  pub message : String
  pub read : Bool
  pub created_at : String

-- The item that `handleGetNotifications` appends.
unfoldable pub item_of : List String → String → Notification → NotificationItem
item_of read_ids created n = record {
  id = n.id;
  image = n.image;
  title = n.title;
  message = n.message;
  read = has n.id read_ids;
  created_at = created;
}

-- `CallerIdentityResponse`
pub record CallerIdentity : Type 0 where
  pub authenticated : Bool
  pub username : String
  pub email : String
  pub name : String
  pub groups : List String

-- Why the debug answer calls a caller unauthenticated: the texts of `validation_error`, of which
-- `failed` stands for the error of the validation, and `unexplained` for none.
pub data Reason : Type 0 where
  disabled : Reason
  unconfigured : Reason
  failed : Reason
  no_header : Reason
  bad_format : Reason
  unexplained : Reason

-- `DebugAuthInfo`; the caller, where there is one, or else the reason.
pub record DebugAuth : Type 0 where
  pub enabled : Bool
  pub validator_configured : Bool
  pub caller : Claims ⊎ Reason
  pub validator : Option Stats

-- `DebugResponse`, with the numbers of services: all, the public ones, the others that the caller
-- sees, and the hidden ones.
pub record DebugInfo : Type 0 where
  pub method : String
  pub path : String
  pub headers : List (String × String)
  pub auth : DebugAuth
  pub counts : ℕ × ℕ × ℕ × ℕ
