-- ===== src/Notification/Store.antt =====
-- internal/notifications/store.go: the notifications and what each user has read. Redis, the text form
-- of a time and encoding/json on a list of groups are parameters; the fresh id and the time of a
-- call are arguments.
pub mod RoundTrip
use nebari_landing.Base.{
  ℕ, ℤ, ◌/◌, String, Bool, true, false, Option, none, some, List, [], ◌∷◌, ◌+++◌, if◌then◌else◌,
  is_blank, GoMap, lookup,
}
use nebari_landing.Redis.{Redis, Command, hset, zadd, sadd, expire}
use nebari_landing.Requests.{Clock, field}
use nebari_landing.Notification.{Notification, Draft, notification_of}

-- encoding/json on a list of texts, `none` where it fails.
pub record GroupsJson : Type 0 where
  pub marshal : List String → Option String
  pub unmarshal : String → Option (List String)

abbrev pub notif_key : String → String
notif_key id = "nebari:notif:" +++ id

abbrev pub notif_index_key : String
notif_index_key = "nebari:notifs"

abbrev pub reads_key : String → String
reads_key user_id = "nebari:reads:" +++ user_id

-- What `Get` and `MarkRead` return: a value, `ErrNotFound`, or another error.
pub data Found (A : Type 0) : Type 0 where
  found : A → Found A
  not_found : Found A
  store_error : Found A

-- The draft of `Create`: no source service.
unfoldable pub broadcast_draft : String → String → String → Draft
broadcast_draft image title message = record {
  image = image;
  title = title;
  message = message;
  service_uid = "";
  visibility = "";
  required_groups = [];
}

module _ (clock : Clock) (json : GroupsJson) where
  -- `encodeGroups`
  unfoldable pub encode_groups : List String → Option String
  encode_groups [] = some ""
  encode_groups (g ∷ groups) = json.marshal (g ∷ groups)

  -- `decodeGroups`
  unfoldable pub decode_groups : String → Option (List String)
  decode_groups s = if is_blank s then some [] else json.unmarshal s

  -- The fields of the hash that `CreateDraft` writes.
  unfoldable pub notif_fields : Notification → String → GoMap String
  notif_fields n groups =
      ("id", n.id)
      ∷ ("image", n.image)
      ∷ ("title", n.title)
      ∷ ("message", n.message)
      ∷ ("createdAt", clock.format n.created_at)
      ∷ ("serviceUid", n.service_uid)
      ∷ ("visibility", n.visibility)
      ∷ ("requiredGroups", groups)
      ∷ []

  -- The retention is in nanoseconds; go-redis sends EXPIRE in seconds, one for a part of a second.
  unfoldable pub draft_commands : ℤ → Notification → String → List Command
  draft_commands retention n groups =
      hset (notif_key n.id) (notif_fields n groups)
      ∷ expire (notif_key n.id) retention
      ∷ zadd notif_index_key (n.created_at / 1000000) n.id
      ∷ []

  abbrev pub from_parts : GoMap String → Option ℕ → Option (List String) → Option Notification
  from_parts f none groups = none
  from_parts f (some created) none = none
  from_parts f (some created) (some groups) = some (record {
    id = field "id" f;
    image = field "image" f;
    title = field "title" f;
    message = field "message" f;
    created_at = created;
    service_uid = field "serviceUid" f;
    visibility = field "visibility" f;
    required_groups = groups;
  })

  -- `notifFromHash`
  unfoldable pub notif_from_hash : GoMap String → Option Notification
  notif_from_hash f =
      from_parts f (clock.parse (field "createdAt" f)) (decode_groups (field "requiredGroups" f))

  abbrev pub add_readable : Option Notification → List Notification → List Notification
  add_readable none rest = rest
  add_readable (some n) rest = n ∷ rest

  -- The loop over the hashes, which skips those that are absent or cannot be read.
  unfoldable pub readable : List (GoMap String) → List Notification
  readable [] = []
  readable ([] ∷ rest) = readable rest
  readable ((x ∷ f) ∷ rest) = add_readable (notif_from_hash (x ∷ f)) (readable rest)

  module _ (R : Redis) where
    abbrev pub drafted : Notification → R.Db × Bool → R.Db × Option Notification
    drafted n (d, true) = (d, some n)
    drafted n (d, false) = (d, none)

    abbrev pub draft_encoded : ℤ → Notification → Option String → R.Db → R.Db × Option Notification
    draft_encoded retention n none d = (d, none)
    draft_encoded retention n (some groups) d =
        drafted n (R.pipeline (draft_commands retention n groups) d)

    -- `CreateDraft`, under a fresh id and at a time, `none` where it returns an error.
    unfoldable pub create_draft : ℤ → String → ℕ → Draft → R.Db → R.Db × Option Notification
    create_draft retention id now draft d =
        let n = notification_of id now draft in
        draft_encoded retention n (encode_groups n.required_groups) d

    -- `Create`
    unfoldable pub create :
        ℤ → String → ℕ → String → String → String → R.Db → R.Db × Option Notification
    create retention id now image title message d =
        create_draft retention id now (broadcast_draft image title message) d

    abbrev pub parsed : Option Notification → Found Notification
    parsed none = store_error
    parsed (some n) = found n

    abbrev pub fetched : Option (GoMap String) → Found Notification
    fetched none = store_error
    fetched (some []) = not_found
    fetched (some (x ∷ f)) = parsed (notif_from_hash (x ∷ f))

    -- `Get`
    unfoldable pub get_notification : String → R.Db → R.Db × Found Notification
    get_notification id d = let reply = R.hgetall (notif_key id) d in (reply.0, fetched reply.1)

    abbrev pub both :
        Option (GoMap String) → Option (List (GoMap String)) → Option (List (GoMap String))
    both none more = none
    both (some f) none = none
    both (some f) (some more) = some (f ∷ more)

    -- The pipeline of reads in `List`: the first error of a command is the error of all.
    unfoldable pub fetch_all : List String → R.Db → R.Db × Option (List (GoMap String))
    fetch_all [] d = (d, some [])
    fetch_all (id ∷ rest) d =
        let first = R.hgetall (notif_key id) d in
        let more = fetch_all rest first.0 in (more.0, both first.1 more.1)

    abbrev pub list_fetched :
        R.Db × Option (List (GoMap String)) → R.Db × Option (List Notification)
    list_fetched (d, none) = (d, none)
    list_fetched (d, some hashes) = (d, some (readable hashes))

    abbrev pub list_ids : R.Db × Option (List String) → R.Db × Option (List Notification)
    list_ids (d, none) = (d, none)
    list_ids (d, some []) = (d, some [])
    list_ids (d, some (id ∷ ids)) = list_fetched (fetch_all (id ∷ ids) d)

    -- `List`, `none` where it returns an error.
    unfoldable pub list_notifications : R.Db → R.Db × Option (List Notification)
    list_notifications d = list_ids (R.zrange_rev notif_index_key d)

    abbrev pub marked : R.Db × Bool → R.Db × Found Unit
    marked (d, true) = (d, found tt)
    marked (d, false) = (d, store_error)

    abbrev pub mark_existing : String → String → R.Db × Option Bool → R.Db × Found Unit
    mark_existing user_id id (d, none) = (d, store_error)
    mark_existing user_id id (d, some false) = (d, not_found)
    mark_existing user_id id (d, some true) =
        marked (R.pipeline (sadd (reads_key user_id) id ∷ []) d)

    -- `MarkRead`
    unfoldable pub mark_read : String → String → R.Db → R.Db × Found Unit
    mark_read user_id id d = mark_existing user_id id (R.exists (notif_key id) d)

    -- `ReadSet`, as the list of its keys, `none` where it returns an error.
    unfoldable pub read_set : String → R.Db → R.Db × Option (List String)
    read_set user_id d = R.smembers (reads_key user_id) d
