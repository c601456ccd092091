-- ===== src/Validation.antt =====
-- internal/auth/jwt_validator.go, `ValidateToken` and its key function: which tokens are accepted. The
-- token library is an argument; an error is a constructor of `Refusal` in place of its text.
pub mod Known
mod Serving
pub mod Tokens
use nebari_landing.Base.{
  ℕ, String, ◌+◌, ◌*◌, ◌-◌, ◌%◌, Bool, true, false, not, ◌&&◌, ◌||◌, Option, none, some, List, [],
  ◌∷◌, ◌⊎◌, inl, inr, if◌then◌else◌, str_eq, ◌+++◌, ltb, leb, length, keep, byte_length,
  trim_suffix, is_blank, GoMap, lookup, insert, delete,
}
use nebari_landing.Access.{Claims}
use nebari_landing.Auth.{
  RsaKey, Jwk, Validator, bump, stale_interval, min_interval, unknown_ttl, max_unknown,
  max_jwt_bytes, max_kid_bytes, new_validator, set_issuer_url, number_of, exponent_of, key_of,
  parse_key, load_keys, fail_fetch, install_keys, take_reply, fetch_keys, recent, Start, start_by,
  start_refresh, finish_refresh, init_attempt, cached_entry, unknown_cached, prune_unknown,
  drop_one, make_room, remember_unknown, joined, skipped, started,
}

-- Why a token is refused.
pub data Refusal : Type 0 where
  not_ready : Refusal
  too_large : Refusal
  unreadable : Refusal
  wrong_method : Refusal
  no_kid : Refusal
  long_kid : Refusal
  cached_kid : Refusal
  cooldown : Refusal
  refresh_failed : Refusal
  absent_kid : Refusal
  not_verified : Refusal
  wrong_issuer : Refusal

-- What the token library reads from a token: whether its method is RSA, its key id, its claims,
-- which keys its signature verifies under, and whether its times hold at a time, with a leeway.
pub record Token : Type 0 where
  pub rsa : Bool
  pub kid : Option String
  pub claims : Claims
  pub signed_by : RsaKey → Bool
  pub on_time : ℕ → ℕ → Bool

-- What the rest of the program does while a request waits for a refresh, whether that refresh
-- succeeded, and the time then.
pub record Waiting : Type 0 where
  pub await : Validator → Validator × Bool
  pub later : ℕ

abbrev pub clock_leeway : ℕ
clock_leeway = 30000000000

abbrev pub stale : ℕ → Option ℕ → Bool
stale now none = true
stale now (some t) = ltb stale_interval (now - t)

-- The key that is found is used, and a refresh is started where the keys are old.
unfoldable pub serve_key : ℕ → RsaKey → Validator → Validator × (Refusal ⊎ RsaKey)
serve_key now key v = (if stale now v.last_fetch then (start_refresh now v).0 else v, inr key)

abbrev pub found_after : ℕ → String → Option RsaKey → Validator → Validator × (Refusal ⊎ RsaKey)
found_after now kid none v = (remember_unknown now kid v, inl absent_kid)
found_after now kid (some key) v = serve_key now key v

abbrev pub after_wait : ℕ → String → Validator × Bool → Validator × (Refusal ⊎ RsaKey)
after_wait now kid (v, false) = (v, inl refresh_failed)
after_wait now kid (v, true) = found_after now kid (lookup kid v.public_keys) v

-- `refreshPublicKeysIfDue` and what follows it.
abbrev pub after_start : Waiting → String → Validator × Start → Validator × (Refusal ⊎ RsaKey)
after_start w kid (v, skipped) = (v, inl cooldown)
after_start w kid (v, joined) = after_wait w.later kid (w.await v)
after_start w kid (v, started) = after_wait w.later kid (w.await v)

abbrev pub after_cache : ℕ → Waiting → String → Validator × Bool → Validator × (Refusal ⊎ RsaKey)
after_cache now w kid (v, true) = (v, inl cached_kid)
after_cache now w kid (v, false) = after_start w kid (start_refresh now v)

abbrev pub find_key :
    ℕ → Waiting → String → Option RsaKey → Validator → Validator × (Refusal ⊎ RsaKey)
find_key now w kid none v =
    after_cache now w kid
      (unknown_cached now kid (record v { unknown_kid_total = bump v.unknown_kid_total }))
find_key now w kid (some key) v = serve_key now key v

abbrev pub key_of_kid : ℕ → Waiting → Option String → Validator → Validator × (Refusal ⊎ RsaKey)
key_of_kid now w none v = (v, inl no_kid)
key_of_kid now w (some kid) v =
    if ltb max_kid_bytes (byte_length kid)
    then (v, inl long_kid)
    else find_key now w kid (lookup kid v.public_keys) v

-- The key function that `ValidateToken` gives to the library.
unfoldable pub key_for : ℕ → Waiting → Token → Validator → Validator × (Refusal ⊎ RsaKey)
key_for now w token v =
    if not token.rsa then (v, inl wrong_method) else key_of_kid now w token.kid v

-- `expectedIssuer`
unfoldable pub expected_issuer : Validator → String
expected_issuer v = v.issuer_url +++ "/realms/" +++ v.realm

-- The checks behind the key function.
abbrev pub judge : ℕ → Token → Validator × (Refusal ⊎ RsaKey) → Validator × (Refusal ⊎ Claims)
judge now token (v, inl r) = (v, inl r)
judge now token (v, inr key) = (
  v,
  if not (token.signed_by key && token.on_time clock_leeway now)
      then inl not_verified
      else if not (str_eq token.claims.issuer (expected_issuer v))
      then inl wrong_issuer
      else inr token.claims,
)

abbrev pub judge_read : ℕ → Waiting → Option Token → Validator → Validator × (Refusal ⊎ Claims)
judge_read now w none v = (v, inl unreadable)
judge_read now w (some token) v = judge w.later token (key_for now w token v)

-- `ValidateToken`, for the library's reader of tokens.
unfoldable pub validate_token :
    (String → Option Token) → ℕ → Waiting → String → Validator → Validator × (Refusal ⊎ Claims)
validate_token read now w text v =
    if not v.ready
    then (v, inl not_ready)
    else if ltb max_jwt_bytes (byte_length text)
    then (v, inl too_large)
    else judge_read now w (read text) v
