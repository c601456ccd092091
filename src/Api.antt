-- ===== src/Api.antt =====
-- internal/api/handlers.go: the handler, what it reads of a request, what it answers, and who the
-- caller of a request is.
pub mod Views
pub mod Frame
pub mod Bearer
pub mod Services
pub mod Debug
pub mod Notices
pub mod Asking
pub mod Pinning
pub mod Socket
pub mod Routing
use nebari_landing.Base.{
  ℕ, ◌+◌, ◌*◌, String, Bool, true, false, not, Option, none, some, List, [], ◌∷◌, ◌⊎◌, inl, inr,
  if◌then◌else◌, str_eq, is_blank, ltb, byte_length, split_on,
}
use nebari_landing.Access.{Claims, Principal, is_admin}
use nebari_landing.Auth.{Validator}
use nebari_landing.Validation.{Refusal, not_ready, Token, Waiting, validate_token}
use nebari_landing.Cache.{ServiceInfo, ServiceCache}
use nebari_landing.Hub.{Codec}
use nebari_landing.Redis.{Redis}
use nebari_landing.Requests.{Clock, AccessRequest}
use nebari_landing.Notification.{Notification}
use nebari_landing.Notification.Store.{GroupsJson}
use nebari_landing.Tickets.{TicketJson}
use nebari_landing.Api.Views.{ServiceView, NotificationItem, CallerIdentity, DebugInfo}

-- What a handler reads of an `http.Request`: an absent header or query parameter is "". `headers`
-- is the whole of the header, which only the debug answer reads.
pub record Request : Type 0 where
  pub method : String
  pub path : String
  pub authorization : String
  pub headers : List (String × List String)
  pub origin : String
  pub status : String
  pub ticket : String
  pub content_length : ℕ
  pub body : String

-- What is drawn or read off a clock while a request is served: the time, a fresh id, the bytes of
-- crypto/rand, and what happens while the validator waits for its keys.
pub record Moment : Type 0 where
  pub now : ℕ
  pub fresh_id : String
  pub bytes : Option (List ℕ)
  pub waiting : Waiting

-- The libraries: the token library, encoding/json on each type, and the text forms of a time. A
-- body that cannot be decoded is `none`.
pub record Libraries : Type 0 where
  pub tokens : String → Option Token
  pub clock : Clock
  pub groups : GroupsJson
  pub tickets : TicketJson
  pub events : Codec
  pub read_message : String → Option String
  pub read_notice : String → Option (String × String × String)
  pub show_time : ℕ → String
  pub equal_fold : String → String → Bool

-- `Handler`, without the parts that change. A store, the hub or the Keycloak client that is nil is
-- `false`. `extractor` is the `claimsExtractor` of tests.
pub record Handler : Type 0 where
  pub enable_auth : Bool
  pub extractor : Option (Request → Option Claims × Bool)
  pub hub : Bool
  pub pin_store : Bool
  pub request_store : Bool
  pub notification_store : Bool
  pub ticket_store : Bool
  pub keycloak : Bool
  pub admin_group : String
  pub allowed_origins : List String
  pub debug_mode : Bool
  pub docs_enabled : Bool

-- The parts that change: the validator, if there is one, the cache, the server with its connection,
-- the frames published so far, and the calls of `AddUserToGroup` (a user and a group).
pub record World (R : Redis) : Type 0 where
  pub validator : Option Validator
  pub cache : ServiceCache
  pub db : R.Db
  pub published : List String
  pub memberships : List (String × String)

-- The body of an answer. `upgraded` is the call of `ServeWS`, with the end of the session if it has
-- one, and `aborted` a handler that panics, where net/http closes the connection.
pub data Body : Type 0 where
  error_text : Body
  nothing : Body
  services : List ServiceView → Body
  service : ServiceView → Body
  notices : List NotificationItem → Body
  notice : Notification → Body
  request : AccessRequest → Body
  requests : List AccessRequest → Body
  categories : List String → Body
  healthy : Body
  identity : CallerIdentity → Body
  pinned : List ServiceInfo → List String → Body
  issued : String → Body
  upgraded : Principal → Option ℕ → Body
  debug : DebugInfo → Body
  page : String → Body
  aborted : Body

pub record Response : Type 0 where
  pub status : ℕ
  pub body : Body

-- `http.Error` with a status
abbrev pub refuse : ℕ → Response
refuse status = record { status = status; body = error_text }

abbrev pub reply : Body → Response
reply body = record { status = 200; body = body }

-- `writeAuthWarmupResponse`
abbrev pub warmup : Response
warmup = refuse 503

abbrev pub max_header_bytes : ℕ
max_header_bytes = 64 * 1024 + 7

-- What `extractAndValidateJWT` returns: `ErrNotReady`, another error, or no error with the claims, if
-- there are any, and whether the caller is authenticated.
pub data Caller : Type 0 where
  warming : Caller
  rejected : Caller
  caller : Option Claims → Bool → Caller

-- The handlers that go on after another error than `ErrNotReady` have no claims.
abbrev pub claims_of : Caller → Option Claims
claims_of (caller claims authenticated) = claims
claims_of _ = none

abbrev pub is_authenticated : Caller → Bool
is_authenticated (caller claims authenticated) = authenticated
is_authenticated _ = false

abbrev pub text_or : String → String → String
text_or s other = if is_blank s then other else s

-- The `PreferredUsername` that `requireAuth` fills in.
abbrev pub with_username : Claims → Claims
with_username c = record c { preferred_username = text_or c.preferred_username c.subject }

abbrev pub anonymous : Claims
anonymous = record {
  subject = "";
  issuer = "";
  expires_at = none;
  email = "";
  name = "";
  preferred_username = "_anonymous";
  groups = [];
}

module _ (R : Redis) (lib : Libraries) (h : Handler) (m : Moment) where
  abbrev pub validated : World R → Validator × (Refusal ⊎ Claims) → World R × Caller
  validated w (v, inl not_ready) = (record w { validator = some v }, warming)
  validated w (v, inl _) = (record w { validator = some v }, rejected)
  validated w (v, inr claims) = (record w { validator = some v }, caller (some claims) true)

  -- The header must be "Bearer", one space, and a token without spaces.
  abbrev pub extract_parts : World R → Validator → List String → World R × Caller
  extract_parts w v (scheme ∷ token ∷ []) =
      if str_eq scheme "Bearer"
      then validated w (validate_token lib.tokens m.now m.waiting token v)
      else (w, rejected)
  extract_parts w v _ = (w, rejected)

  abbrev pub extract_header : World R → Validator → String → World R × Caller
  extract_header w v header =
      if is_blank header
      then (w, caller none false)
      else if ltb max_header_bytes (byte_length header)
      then (w, rejected)
      else extract_parts w v (split_on 32 header)

  abbrev pub extract_with : Option Validator → Request → World R → World R × Caller
  extract_with none r w = (w, caller none false)
  extract_with (some v) r w =
      if h.enable_auth then extract_header w v r.authorization else (w, caller none false)

  abbrev pub extract_by :
      Option (Request → Option Claims × Bool) → Request → World R → World R × Caller
  extract_by none r w = extract_with w.validator r w
  extract_by (some f) r w = (w, caller (f r).0 (f r).1)

  -- `extractAndValidateJWT`
  unfoldable pub extract : Request → World R → World R × Caller
  extract r w = extract_by h.extractor r w

  abbrev pub identified : Claims → Response ⊎ Claims
  identified c =
      if is_blank (with_username c).preferred_username
      then inl (refuse 401)
      else inr (with_username c)

  abbrev pub require_caller : Caller → Response ⊎ Claims
  require_caller warming = inl warmup
  require_caller rejected = inl (refuse 401)
  require_caller (caller claims false) = inl (refuse 401)
  require_caller (caller none true) = inl (record { status = 0; body = aborted })
  require_caller (caller (some c) true) = identified c

  abbrev pub require_injected : Option Claims × Bool → Response ⊎ Claims
  require_injected (claims, false) = inl (refuse 401)
  require_injected (none, true) = inl (record { status = 0; body = aborted })
  require_injected (some c, true) = inr (with_username c)

  -- The validator must be configured and enabled; otherwise every caller is "_anonymous".
  abbrev pub require_with : Option Validator → Request → World R → World R × (Response ⊎ Claims)
  require_with none r w = (w, inr anonymous)
  require_with (some v) r w =
      if h.enable_auth
      then (let found = extract r w in (found.0, require_caller found.1))
      else (w, inr anonymous)

  abbrev pub require_by :
      Option (Request → Option Claims × Bool) → Request → World R → World R × (Response ⊎ Claims)
  require_by none r w = require_with w.validator r w
  require_by (some f) r w = (w, require_injected (f r))

  -- `requireAuth`
  unfoldable pub require_auth : Request → World R → World R × (Response ⊎ Claims)
  unfolding extract
  require_auth r w = require_by h.extractor r w

  abbrev pub admin_only : Response ⊎ Claims → Response ⊎ Claims
  admin_only (inl response) = inl response
  admin_only (inr c) = if is_admin h.admin_group c then inr c else inl (refuse 403)

  -- `requireAdmin`
  unfoldable pub require_admin : Request → World R → World R × (Response ⊎ Claims)
  require_admin r w = let found = require_auth r w in (found.0, admin_only found.1)

  -- What a handler does with the claims it required.
  abbrev pub with_claims :
      World R × (Response ⊎ Claims) → (Claims → World R → World R × Response) → World R × Response
  with_claims (w, inl response) go = (w, response)
  with_claims (w, inr c) go = go c w
