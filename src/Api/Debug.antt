-- ===== src/Api/Debug.antt =====
-- internal/api/handlers.go, handleDebug: the request as it came in, with its credentials redacted, who
-- the caller is, and how many services there are.
pub mod Redaction
use Prim.Native.String
use nebari_landing.Base.{
  ℕ, suc, String, code, Bool, true, false, not, ◌&&◌, ◌||◌, Option, none, some, List, [], ◌∷◌, map,
  ◌⊎◌, inl, inr, ◌==◌, if◌then◌else◌, str_eq, is_blank, is_some, ◌+++◌, split_on, byte_length,
  decimal,
}
use nebari_landing.Access.{Claims, can_access_service}
use nebari_landing.Auth.{Validator}
use nebari_landing.Auth.Stats.{Stats, stats}
use nebari_landing.Cache.{ServiceInfo, get_all}
use nebari_landing.Redis.{Redis}
use nebari_landing.Api.Views.{
  Reason, disabled, unconfigured, failed, no_header, bad_format, unexplained, DebugAuth, DebugInfo,
}
use nebari_landing.Api.{
  Request, Moment, Libraries, Handler, World, Response, debug, reply, Caller, warming, rejected,
  caller, claims_of, is_authenticated, extract,
}

-- `strings.Join(vals, ", ")`
unfoldable pub join_values : List String → String
join_values [] = ""
join_values (v ∷ []) = v
join_values (v ∷ w ∷ rest) = v +++ ", " +++ join_values (w ∷ rest)

abbrev split_step : Bool → String → String → Option (String × String) → Option (String × String)
split_step true c s rest = some ("", s)
split_step false c s none = none
split_step false c s (some (before, behind)) = some (c +++ before, behind)

-- `strings.SplitN(s, " ", 2)`, where it finds a space.
unfoldable pub split_space : String → Option (String × String)
split_space String.[] = none
split_space (String.◌∷◌ c s) = split_step (code c == 32) (String.◌∷◌ c "") s (split_space s)

abbrev pub redact : String → Option (String × String) → String
redact v none = v
redact v (some (scheme, credentials)) =
    scheme +++ " [REDACTED, " +++ decimal (byte_length credentials) +++ " bytes]"

module _ (equal_fold : String → String → Bool) where
  abbrev pub shown_value : String → String → String
  shown_value k v = if equal_fold k "Authorization" then redact v (split_space v) else v

  abbrev pub shown_header : String × List String → String × String
  shown_header (k, vals) = (k, shown_value k (join_values vals))

  -- The loop over the header.
  unfoldable pub shown_headers : List (String × List String) → List (String × String)
  shown_headers headers = map shown_header headers

-- The counters of `handleDebug`: total, public, private, hidden.
abbrev pub Counts : Type 0
Counts = ℕ × ℕ × ℕ × ℕ

abbrev pub count_one : Bool → Bool → Counts → Counts
count_one true access (total, public, private, hidden) = (suc total, suc public, private, hidden)
count_one false true (total, public, private, hidden) = (suc total, public, suc private, hidden)
count_one false false (total, public, private, hidden) = (suc total, public, private, suc hidden)

unfoldable pub count_services : Option Claims → Bool → List ServiceInfo → Counts → Counts
count_services claims authenticated [] counts = counts
count_services claims authenticated (s ∷ rest) counts =
    count_services claims authenticated rest
      (count_one (str_eq s.visibility "public") (can_access_service s authenticated claims) counts)

abbrev pub bearer_form : List String → Reason
bearer_form (scheme ∷ token ∷ []) = if str_eq scheme "Bearer" then unexplained else bad_format
bearer_form _ = bad_format

abbrev pub header_reason : String → Reason
header_reason header = if is_blank header then no_header else bearer_form (split_on 32 header)

abbrev pub error_reason : Caller → String → Reason
error_reason (caller claims authenticated) header = header_reason header
error_reason _ header = failed

module _ (R : Redis) (lib : Libraries) (h : Handler) (m : Moment) where
  -- The switch over the reasons.
  abbrev pub reason_of : Bool → Caller → Request → Reason
  reason_of configured found r =
      if not h.enable_auth
      then disabled
      else if not configured
      then unconfigured
      else error_reason found r.authorization

  abbrev pub caller_or : Caller → Reason → Claims ⊎ Reason
  caller_or (caller (some c) true) reason = inl c
  caller_or _ reason = inr reason

  -- The statistics, where there is a validator.
  abbrev pub stats_of : Option Validator → Option Validator × Option Stats
  stats_of none = (none, none)
  stats_of (some v) = let (v', s) = stats m.now v in (some v', some s)

  -- `handleDebug`
  unfoldable pub handle_debug : Request → World R → World R × Response
  handle_debug r w =
      let (v, found) = extract R lib h m r w in
      let (validator, shown) = stats_of v.validator in
      let configured = is_some v.validator || is_some h.extractor in
      (
        record v { validator = validator },
        reply (
            debug (record {
              method = r.method;
              path = r.path;
              headers = shown_headers lib.equal_fold r.headers;
              auth = record {
                enabled = h.enable_auth;
                validator_configured = configured;
                caller = caller_or found (reason_of configured found r);
                validator = shown;
              };
              counts =
                  count_services (claims_of found) (is_authenticated found) (get_all v.cache)
                    (0, 0, 0, 0);
            })),
      )
