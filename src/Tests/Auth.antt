-- ===== src/Tests/Auth.antt =====
-- Runs of the token validator.
use nebari_landing.Base.{
  ◌↔◌, byte_length, lookup, arith, ◌*◌, ℕ, String, ◌≡◌, ◌≤◌, ◌⊎◌, refl, inl, inr, Bool, true, false,
  Option, none, some, List, [], ◌∷◌, str_eq, ◌==◌, length, if◌then◌else◌,
}
use nebari_landing.Auth.{Validator, RsaKey, Jwk, new_validator, init_attempt, finish_refresh}
use nebari_landing.Validation.Known.{validate_token-known}
use nebari_landing.Validation.{expected_issuer, Token, Waiting, Refusal, validate_token}
use nebari_landing.Auth.Refresh.{
  Step, starts, finishes, tries, remembers, looks_up, IsSpaced, acts, acts-IsSpaced,
}
use nebari_landing.Auth.Bounded.{acts-bounded}
use nebari_landing.Validation.Tokens.{IsAccepted, validate_token-accepts}
use nebari_landing.Tests.Samples.{staff_claims}

-- A decoder for two texts.
abbrev pub decode : String → Option (List ℕ)
decode s =
    if str_eq s "AQAB" then some (1 ∷ 0 ∷ 1 ∷ []) else if str_eq s "Bw" then some (7 ∷ []) else none

abbrev pub key_set : List Jwk
key_set =
    record { kty = "RSA"; kid = "k1"; n = "Bw"; e = "AQAB" }
    ∷ record { kty = "EC"; kid = "k2"; n = "Bw"; e = "AQAB" }
    ∷ []

abbrev pub second : ℕ
second = 1000000000

abbrev steps : List Step
steps =
    tries second (some key_set)
    ∷ starts (20 * second)
    ∷ starts (70 * second)
    ∷ finishes (71 * second) none
    ∷ remembers (72 * second) "k9"
    ∷ starts (90 * second)
    ∷ starts (130 * second)
    ∷ []

starts_test :
    (acts decode steps (new_validator "https://kc.example" "nebari", [])).1
    ≡ 130 * second ∷ 70 * second ∷ []
unfolding acts nebari_landing.Auth.Refresh.act nebari_landing.Auth.start_refresh
    nebari_landing.Auth.remember_unknown finish_refresh nebari_landing.Auth.fetch_keys init_attempt
    nebari_landing.Auth.load_keys nebari_landing.Auth.parse_key nebari_landing.Base.insert
    new_validator
starts_test = refl

acts-IsSpaced_example :
    IsSpaced (acts decode steps (new_validator "https://kc.example" "nebari", [])).1
acts-IsSpaced_example = acts-IsSpaced decode steps "https://kc.example" "nebari"

acts-bounded_example :
    length (acts decode steps (new_validator "https://kc.example" "nebari", [])).0.unknown_kids
    ≤ 1024
acts-bounded_example = acts-bounded decode steps "https://kc.example" "nebari"

-- A reader for one token, which the key of modulus 7 signed.
abbrev pub read : String → Option Token
read s = some (record {
  rsa = true;
  kid = some "k1";
  claims = staff_claims;
  signed_by = λ key. key.modulus == 7;
  on_time = λ leeway now. true;
})

-- The refresh that the request waits for brings the keys.
abbrev pub waiting : Waiting
waiting = record {
  await = λ v. finish_refresh decode (80 * second) (some key_set) v;
  later = 80 * second;
}

abbrev fresh : Validator
fresh = record (new_validator "https://kc.example" "nebari") { ready = true }

accepted : (validate_token read (79 * second) waiting "jwt" fresh).1 ≡ inr staff_claims
unfolding validate_token nebari_landing.Base.byte_length nebari_landing.Validation.key_for
    nebari_landing.Base.lookup new_validator nebari_landing.Auth.unknown_cached
    nebari_landing.Auth.start_refresh finish_refresh nebari_landing.Auth.fetch_keys
    nebari_landing.Auth.load_keys nebari_landing.Auth.parse_key nebari_landing.Base.insert
    nebari_landing.Validation.serve_key nebari_landing.Auth.number_of
    nebari_landing.Validation.expected_issuer nebari_landing.Base.trim_suffix
accepted = refl

not_ready_test :
    (validate_token read 0 waiting "jwt" (new_validator "https://kc.example" "nebari")).1
    ≡ inl Refusal.not_ready
unfolding validate_token new_validator
not_ready_test = refl

validate_token-accepts_example :
    (token : Token) × (kid : String) × (key : RsaKey) × IsAccepted read waiting "jwt" fresh
      (validate_token read (79 * second) waiting "jwt" fresh).0
      staff_claims
      token
      kid
      key
validate_token-accepts_example =
    validate_token-accepts read (79 * second) waiting "jwt" fresh staff_claims accepted

-- The validator after its first fetch.
abbrev pub loaded : Validator
loaded = record fresh { public_keys = ("k1", record { modulus = 7; exponent = 65537 }) ∷ [] }

abbrev token : Token
token = record {
  rsa = true;
  kid = some "k1";
  claims = staff_claims;
  signed_by = λ key. key.modulus == 7;
  on_time = λ leeway now. true;
}

small : byte_length "jwt" ≤ 65536
unfolding byte_length
small = omega arith

short_kid : byte_length "k1" ≤ 1024
unfolding byte_length
short_kid = omega arith

holds_key : lookup "k1" loaded.public_keys ≡ some (record { modulus = 7; exponent = 65537 })
unfolding lookup
holds_key = refl

ready : loaded.ready ≡ true
unfolding new_validator
ready = refl

validate_token-known_example :
    ((validate_token read (79 * second) waiting "jwt" loaded).1 ≡ inr staff_claims) ↔ (
      (◌≡◌ {A = Bool} true true)
      × (◌≡◌ {A = Bool} true true)
      × (staff_claims.issuer ≡ expected_issuer loaded))
validate_token-known_example =
    validate_token-known read (79 * second) waiting "jwt" loaded token "k1"
      (record { modulus = 7; exponent = 65537 }) ready small refl refl refl short_kid holds_key
