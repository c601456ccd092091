-- ===== src/Notification.antt =====
-- internal/notifications/store.go, the record and the draft that the other packages pass around.
pub mod Store
use nebari_landing.Base.{ℕ, String, List}

-- `Notification`; a time is a number of nanoseconds.
pub record Notification : Type 0 where
  pub id : String
  pub image : String
  pub title : String
  pub message : String
  pub created_at : ℕ
  pub service_uid : String
  pub visibility : String
  pub required_groups : List String

-- `Draft`
pub record Draft : Type 0 where
  pub image : String
  pub title : String
  pub message : String
  pub service_uid : String
  pub visibility : String
  pub required_groups : List String

-- The notification that `CreateDraft` builds, at a time and under a fresh id.
unfoldable pub notification_of : String → ℕ → Draft → Notification
notification_of id now d = record {
  id = id;
  image = d.image;
  title = d.title;
  message = d.message;
  created_at = now;
  service_uid = d.service_uid;
  visibility = d.visibility;
  required_groups = d.required_groups;
}
