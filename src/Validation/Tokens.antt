-- ===== src/Validation/Tokens.antt =====
-- `ValidateToken`: what an accepted token satisfies.
use nebari_landing.Base.{
  ℕ, String, ◌≤◌, ◌≡◌, ◌∙◌, refl, sym, ap, Bool, true, false, not, ◌&&◌, Option, none, some, ◌⊎◌,
  inl, inr, arith, eq_iff, if◌then◌else◌, str_eq, byte_length, ltb, lookup,
}
use nebari_landing.Access.{Claims}
use nebari_landing.Auth.{Validator, RsaKey, max_kid_bytes, max_jwt_bytes}
use nebari_landing.Validation.{
  Token, Waiting, Refusal, key_for, expected_issuer, judge, judge_read, validate_token,
  clock_leeway,
}
use nebari_landing.Validation.Serving.{key_served}

-- The conditions behind an accepted token, where `v` is the validator that the request came to and
-- `v'` the one that it left.
pub record IsAccepted (read : String → Option Token) (w : Waiting) (text : String)
    (v v' : Validator) (claims : Claims) (token : Token) (kid : String) (key : RsaKey)
    : Type 0 where
  pub was_ready : v.ready ≡ true
  pub small : byte_length text ≤ max_jwt_bytes
  pub reads : read text ≡ some token
  pub rsa : token.rsa ≡ true
  pub names_key : token.kid ≡ some kid
  pub short_kid : byte_length kid ≤ max_kid_bytes
  pub current_key : lookup kid v'.public_keys ≡ some key
  pub signed : token.signed_by key ≡ true
  pub on_time : token.on_time clock_leeway w.later ≡ true
  pub issued : token.claims.issuer ≡ expected_issuer v'
  pub returned : token.claims ≡ claims

-- What the checks behind the key function let through.
record IsJudged (now : ℕ) (token : Token) (r : Validator × (Refusal ⊎ RsaKey)) (claims : Claims)
    (key : RsaKey) : Type 0 where
  had_key : r.1 ≡ inr key
  signed : token.signed_by key ≡ true
  on_time : token.on_time clock_leeway now ≡ true
  issued : token.claims.issuer ≡ expected_issuer r.0
  returned : token.claims ≡ claims

claims_inj : (c d : Claims) → ◌≡◌ {A = Refusal ⊎ Claims} (inr c) (inr d) → c ≡ d
claims_inj c d e = cc

pub checks_passed :
    (a b i : Bool) (c d : Claims)
    → ◌≡◌ {A = Refusal ⊎ Claims}
        (if not (a && b)
          then inl Refusal.not_verified
          else if not i
          then inl Refusal.wrong_issuer
          else inr c)
        (inr d)
    → (a ≡ true) × (b ≡ true) × (i ≡ true) × (c ≡ d)
checks_passed true true true c d h = (refl, refl, refl, claims_inj c d h)
checks_passed true true false c d h = cc
checks_passed true false i c d h = cc
checks_passed false b i c d h = cc

judge_passed :
    (now : ℕ) (token : Token) (r : Validator × (Refusal ⊎ RsaKey)) (claims : Claims)
    → (judge now token r).1 ≡ inr claims
    → ((key : RsaKey) × IsJudged now token r claims key) × ((judge now token r).0 ≡ r.0)
judge_passed now token (v, inl f) claims h = cc
judge_passed now token (v, inr key) claims h =
    let (a, b, i, e) =
      checks_passed (token.signed_by key) (token.on_time clock_leeway now)
        (str_eq token.claims.issuer (expected_issuer v)) token.claims claims h in
    (
      (
        key,
        record {
          had_key = refl;
          signed = a;
          on_time = b;
          issued = (eq_iff token.claims.issuer (expected_issuer v)).0 i;
          returned = e;
        },
      ),
      refl,
    )

read_passed :
    (read : String → Option Token) (now : ℕ) (w : Waiting) (text : String) (o : Option Token)
    (v : Validator) (claims : Claims)
    → v.ready ≡ true
    → byte_length text ≤ max_jwt_bytes
    → read text ≡ o
    → (judge_read now w o v).1 ≡ inr claims
    → (token : Token) × (kid : String) × (key : RsaKey) × IsAccepted read w text v
        (judge_read now w o v).0
        claims
        token
        kid
        key
read_passed read now w text none v claims r s e h = cc
read_passed read now w text (some token) v claims r s e h =
    let ((key, j), same) = judge_passed w.later token (key_for now w token v) claims h in
    let (rsa, (kid, names, short, found)) = key_served now w token v key j.had_key in
    (
      token,
      kid,
      key,
      record {
        was_ready = r;
        small = s;
        reads = e;
        rsa = rsa;
        names_key = names;
        short_kid = short;
        current_key = ap (λ x. lookup kid x.public_keys) same ∙ found;
        signed = j.signed;
        on_time = j.on_time;
        issued = j.issued ∙ ap expected_issuer (sym same);
        returned = j.returned;
      },
    )

-- If a token is accepted, with whatever happens while the request waits for a refresh, then the
-- validator was ready, the token is of at most 64 KiB and readable, its method is RSA, its key id of
-- at most 1024 bytes names one of the keys that the validator holds in the end, its signature
-- verifies under that key, its times hold with a leeway of 30 seconds, its issuer is the realm of
-- the configured URL, and the claims that are returned are its own.
pub validate_token-accepts :
    (read : String → Option Token) (now : ℕ) (w : Waiting) (text : String) (v : Validator)
    (claims : Claims)
    → let (v', verdict) = validate_token read now w text v in
      verdict ≡ inr claims
      → (token : Token) × (kid : String) × (key : RsaKey) × IsAccepted read w text v v' claims token
          kid key
unfolding validate_token
validate_token-accepts read now w text v claims h =
    by_guards v.ready (ltb max_jwt_bytes (byte_length text)) refl refl h
  where
    guarded : Bool → Bool → Validator × (Refusal ⊎ Claims)
    guarded a b =
        if not a
        then (v, inl Refusal.not_ready)
        else if b
        then (v, inl Refusal.too_large)
        else judge_read now w (read text) v

    by_guards :
        (a b : Bool)
        → v.ready ≡ a
        → ltb max_jwt_bytes (byte_length text) ≡ b
        → (guarded a b).1 ≡ inr claims
        → (token : Token) × (kid : String) × (key : RsaKey) × IsAccepted read w text v
            (guarded a b).0
            claims
            token
            kid
            key
    by_guards false b e f h = cc
    by_guards true true e f h = cc
    by_guards true false e f h =
        read_passed read now w text (read text) v claims e (ground arith) refl h
