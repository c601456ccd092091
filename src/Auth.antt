-- ===== src/Auth.antt =====
-- internal/auth/jwt_validator.go: the keys of Keycloak, when they are fetched again, and the key ids
-- that are known to be unknown. A step that holds a lock is one function on the state; base64 and
-- the network are arguments.
pub mod Bounded
pub mod Refresh
pub mod Starting
pub mod Stats
use nebari_landing.Base.{
  ℕ, String, ◌+◌, ◌*◌, ◌-◌, ◌%◌, Bool, true, false, not, ◌&&◌, ◌||◌, Option, none, some, List, [],
  ◌∷◌, ◌⊎◌, inl, inr, if◌then◌else◌, str_eq, ◌+++◌, ltb, leb, length, keep, byte_length,
  trim_suffix, is_blank, GoMap, lookup, insert, delete,
}
use nebari_landing.Access.{Claims}

-- `rsa.PublicKey`
pub record RsaKey : Type 0 where
  pub modulus : ℕ
  pub exponent : ℕ

-- `JWK`; `use` is not read.
pub record Jwk : Type 0 where
  pub kty : String
  pub kid : String
  pub n : String
  pub e : String

-- `JWTValidator`. A time is a number of nanoseconds, and `none` the zero time; `refreshing` says that
-- `refreshCall` is set. Each counter is an `uint64`.
pub record Validator : Type 0 where
  pub keycloak_url : String
  pub issuer_url : String
  pub realm : String
  pub public_keys : GoMap RsaKey
  pub last_fetch : Option ℕ
  pub last_refresh_attempt : Option ℕ
  pub refreshing : Bool
  pub unknown_kids : GoMap ℕ
  pub ready : Bool
  pub refresh_attempts : ℕ
  pub refresh_successes : ℕ
  pub refresh_failures : ℕ
  pub refresh_skipped : ℕ
  pub refresh_coalesced : ℕ
  pub unknown_kid_total : ℕ
  pub unknown_kid_hits : ℕ

-- `Add(1)` on an `atomic.Uint64`.
abbrev pub bump : ℕ → ℕ
bump n = (n + 1) % 18446744073709551616

abbrev pub stale_interval : ℕ
stale_interval = 3600000000000

abbrev pub min_interval : ℕ
min_interval = 60000000000

abbrev pub unknown_ttl : ℕ
unknown_ttl = 300000000000

abbrev pub max_unknown : ℕ
max_unknown = 1024

abbrev pub max_jwt_bytes : ℕ
max_jwt_bytes = 65536

abbrev pub max_kid_bytes : ℕ
max_kid_bytes = 1024

-- `NewJWTValidator`, without the background loop that it starts.
unfoldable pub new_validator : String → String → Validator
new_validator keycloak_url realm = record {
  keycloak_url = trim_suffix keycloak_url "/";
  issuer_url = trim_suffix keycloak_url "/";
  realm = realm;
  public_keys = [];
  last_fetch = none;
  last_refresh_attempt = none;
  refreshing = false;
  unknown_kids = [];
  ready = false;
  refresh_attempts = 0;
  refresh_successes = 0;
  refresh_failures = 0;
  refresh_skipped = 0;
  refresh_coalesced = 0;
  unknown_kid_total = 0;
  unknown_kid_hits = 0;
}

-- `SetIssuerURL`
unfoldable pub set_issuer_url : String → Validator → Validator
set_issuer_url url v = if is_blank url then v else record v { issuer_url = trim_suffix url "/" }

-- `big.Int.SetBytes`
unfoldable pub number_of : ℕ → List ℕ → ℕ
number_of acc [] = acc
number_of acc (b ∷ rest) = number_of (acc * 256 + b) rest

-- The loop over the bytes of the exponent, in an `int` of 64 bits.
unfoldable pub exponent_of : ℕ → List ℕ → ℕ
exponent_of acc [] = acc
exponent_of acc (b ∷ rest) = exponent_of ((acc * 256 + b) % 18446744073709551616) rest

abbrev pub key_of : Option (List ℕ) → Option (List ℕ) → Option RsaKey
key_of none e = none
key_of (some n) none = none
key_of (some n) (some e) = some (record { modulus = number_of 0 n; exponent = exponent_of 0 e })

-- `parseRSAPublicKey`, for the decoder `base64.RawURLEncoding.DecodeString`.
unfoldable pub parse_key : (String → Option (List ℕ)) → Jwk → Option RsaKey
parse_key decode jwk = key_of (decode jwk.n) (decode jwk.e)

abbrev add_key : String → Option RsaKey → GoMap RsaKey → GoMap RsaKey
add_key kid none keys = keys
add_key kid (some key) keys = insert kid key keys

-- The loop over the keys of the set.
unfoldable pub load_keys : (String → Option (List ℕ)) → List Jwk → GoMap RsaKey → GoMap RsaKey
load_keys decode [] keys = keys
load_keys decode (jwk ∷ rest) keys =
    load_keys decode rest
      (if str_eq jwk.kty "RSA" then add_key jwk.kid (parse_key decode jwk) keys else keys)

abbrev pub fail_fetch : Validator → Validator × Bool
fail_fetch v = (record v { refresh_failures = bump v.refresh_failures }, false)

abbrev pub install_keys : ℕ → GoMap RsaKey → Validator → Validator × Bool
install_keys now [] v = fail_fetch v
install_keys now (entry ∷ rest) v = (
  record v {
    public_keys = entry ∷ rest;
    last_fetch = some now;
    unknown_kids = [];
    refresh_successes = bump v.refresh_successes;
  },
  true,
)

abbrev pub take_reply :
    (String → Option (List ℕ)) → ℕ → Option (List Jwk) → Validator → Validator × Bool
take_reply decode now none v = fail_fetch v
take_reply decode now (some keys) v = install_keys now (load_keys decode keys []) v

-- `fetchPublicKeys`: the reply is the key set, or `none` where the request, its status or its decoding
-- fails. The Boolean says that there is no error.
unfoldable pub fetch_keys :
    (String → Option (List ℕ)) → ℕ → Option (List Jwk) → Validator → Validator × Bool
fetch_keys decode now reply v =
    take_reply decode now reply (record v { refresh_attempts = bump v.refresh_attempts })

abbrev pub recent : ℕ → Option ℕ → Bool
recent now none = false
recent now (some t) = ltb (now - t) min_interval

pub data Start : Type 0 where
  joined : Start
  skipped : Start
  started : Start

-- The three ways out of `startPublicKeysRefresh`: one is in flight, the cooldown holds, or it starts.
abbrev pub start_by : Bool → Bool → ℕ → Validator → Validator × Start
start_by true cooling now v = (record v { refresh_coalesced = bump v.refresh_coalesced }, joined)
start_by false true now v = (record v { refresh_skipped = bump v.refresh_skipped }, skipped)
start_by false false now v =
    (record v { last_refresh_attempt = some now; refreshing = true }, started)

-- `startPublicKeysRefresh`
unfoldable pub start_refresh : ℕ → Validator → Validator × Start
start_refresh now v =
    start_by v.refreshing (recent now v.last_refresh_attempt || recent now v.last_fetch) now v

-- The goroutine of a refresh, when its reply has come.
unfoldable pub finish_refresh :
    (String → Option (List ℕ)) → ℕ → Option (List Jwk) → Validator → Validator × Bool
finish_refresh decode now reply v =
    let (v', ok) = fetch_keys decode now reply v in (record v' { refreshing = false }, ok)

-- One attempt of `initLoop`.
unfoldable pub init_attempt :
    (String → Option (List ℕ)) → ℕ → Option (List Jwk) → Validator → Validator
init_attempt decode now reply v =
    let (v', ok) = fetch_keys decode now reply v in if ok then record v' { ready = true } else v'

abbrev pub cached_entry : ℕ → String → Option ℕ → Validator → Validator × Bool
cached_entry now kid none v = (v, false)
cached_entry now kid (some expires_at) v =
    if ltb expires_at now
    then (record v { unknown_kids = delete kid v.unknown_kids }, false)
    else (record v { unknown_kid_hits = bump v.unknown_kid_hits }, true)

-- `unknownKIDCached`
unfoldable pub unknown_cached : ℕ → String → Validator → Validator × Bool
unknown_cached now kid v = cached_entry now kid (lookup kid v.unknown_kids) v

-- `pruneUnknownKIDsLocked`
unfoldable pub prune_unknown : ℕ → GoMap ℕ → GoMap ℕ
prune_unknown now kids = keep (λ (e : String × ℕ). not (ltb e.1 now)) kids

abbrev pub drop_one : GoMap ℕ → GoMap ℕ
drop_one [] = []
drop_one ((kid, t) ∷ rest) = delete kid ((kid, t) ∷ rest)

abbrev pub make_room : GoMap ℕ → GoMap ℕ
make_room kids = if leb max_unknown (length kids) then drop_one kids else kids

-- `rememberUnknownKID`
unfoldable pub remember_unknown : ℕ → String → Validator → Validator
remember_unknown now kid v = record v {
  unknown_kids = insert kid (now + unknown_ttl) (make_room (prune_unknown now v.unknown_kids));
}
