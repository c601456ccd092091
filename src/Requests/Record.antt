-- ===== src/Requests/Record.antt =====
-- internal/accessrequests/store.go: the record, its keys, and its form as a Redis hash.
use nebari_landing.Base.{
  ℕ, ◌/◌, String, Option, none, some, List, [], ◌∷◌, ◌+++◌, if◌then◌else◌, is_blank, GoMap, lookup,
}
use nebari_landing.Redis.{Command, hset, zadd}

-- `time.Time.Format` and `time.Parse` with RFC3339Nano; a time is a number of nanoseconds.
pub record Clock : Type 0 where
  pub format : ℕ → String
  pub parse : String → Option ℕ

abbrev pub status_pending : String
status_pending = "pending"

abbrev pub status_approved : String
status_approved = "approved"

abbrev pub status_denied : String
status_denied = "denied"

-- `AccessRequest`
pub record AccessRequest : Type 0 where
  pub id : String
  pub service_uid : String
  pub service_name : String
  pub user_id : String
  pub user_email : String
  pub message : String
  pub status : String
  pub requested_at : ℕ
  pub resolved_at : Option ℕ
  pub resolved_by : String

-- What `Create`, `Get` and `UpdateStatus` return: the request, `ErrDuplicatePending`,
-- `ErrNotFound`, or another error.
pub data Outcome : Type 0 where
  done : AccessRequest → Outcome
  duplicate_pending : Outcome
  not_found : Outcome
  store_error : Outcome

abbrev pub all_key : String
all_key = "nebari:ar:all"

abbrev pub pending_key : String
pending_key = "nebari:ar:pending"

abbrev pub request_key : String → String
request_key id = "nebari:ar:" +++ id

abbrev pub user_key : String → String
user_key user_id = "nebari:ar:user:" +++ user_id

abbrev pub dedup_key : String → String → String
dedup_key user_id svc_uid = "nebari:ar:dedup:" +++ (user_id +++ (":" +++ svc_uid))

-- `f[key]` of a Go map, "" where the key is absent.
abbrev pub text_of : Option String → String
text_of none = ""
text_of (some s) = s

abbrev pub field : String → GoMap String → String
field key f = text_of (lookup key f)

-- The request that `Create` builds.
unfoldable pub new_request : String → ℕ → String → String → String → String → String → AccessRequest
new_request id now service_uid service_name user_id user_email message = record {
  id = id;
  service_uid = service_uid;
  service_name = service_name;
  user_id = user_id;
  user_email = user_email;
  message = message;
  status = status_pending;
  requested_at = now;
  resolved_at = none;
  resolved_by = "";
}

abbrev unix_milli : ℕ → ℕ
unix_milli t = t / 1000000

module _ (clock : Clock) where
  -- The commands of `Create`'s pipeline.
  unfoldable pub create_commands : AccessRequest → List Command
  create_commands req =
      let score = unix_milli req.requested_at in
      hset (request_key req.id) (
        ("id", req.id)
        ∷ ("serviceUID", req.service_uid)
        ∷ ("serviceName", req.service_name)
        ∷ ("userID", req.user_id)
        ∷ ("userEmail", req.user_email)
        ∷ ("message", req.message)
        ∷ ("status", req.status)
        ∷ ("requestedAt", clock.format req.requested_at)
        ∷ [])
      ∷ zadd all_key score req.id
      ∷ zadd pending_key score req.id
      ∷ zadd (user_key req.user_id) score req.id
      ∷ []

  abbrev from_times : GoMap String → Option ℕ → Option (Option ℕ) → Option AccessRequest
  from_times f none resolved = none
  from_times f (some requested) none = none
  from_times f (some requested) (some resolved) = some (record {
    id = field "id" f;
    service_uid = field "serviceUID" f;
    service_name = field "serviceName" f;
    user_id = field "userID" f;
    user_email = field "userEmail" f;
    message = field "message" f;
    status = field "status" f;
    requested_at = requested;
    resolved_at = resolved;
    resolved_by = field "resolvedBy" f;
  })

  abbrev present : Option ℕ → Option (Option ℕ)
  present none = none
  present (some t) = some (some t)

  -- `resolvedAt` is read only where it is not empty.
  abbrev parse_resolved : String → Option (Option ℕ)
  parse_resolved s = if is_blank s then some none else present (clock.parse s)

  -- `arFromHash`
  unfoldable pub from_hash : GoMap String → Option AccessRequest
  from_hash f =
      from_times f (clock.parse (field "requestedAt" f)) (parse_resolved (field "resolvedAt" f))
