-- ===== src/Validation/Known.antt =====
-- `ValidateToken` for a key that the validator holds: no wait, and a verdict on the token alone.
use nebari_landing.Base.{
  ℕ, String, ◌≤◌, ◌≡◌, ◌∙◌, refl, sym, ap, ◌↔◌, Bool, true, false, not, ◌&&◌, Option, some, ◌⊎◌,
  inl, inr, arith, eq_iff, if◌then◌else◌, str_eq, byte_length, ltb, lookup,
}
use nebari_landing.Access.{Claims}
use nebari_landing.Auth.{Validator, RsaKey, start_refresh, start_by, max_kid_bytes, max_jwt_bytes}
use nebari_landing.Validation.{
  Refusal, Token, Waiting, clock_leeway, stale, serve_key, find_key, key_of_kid, key_for,
  expected_issuer, judge, judge_read, validate_token,
}
use nebari_landing.Validation.Tokens.{checks_passed}

guards_passed :
    {A : Type 0} (a b : Bool) (x y z : A)
    → a ≡ true
    → b ≡ false
    → (if not a then x else if b then y else z) ≡ z
guards_passed true true x y z p q = cc
guards_passed true false x y z p q = refl
guards_passed false b x y z p q = cc

guard_passed : {A : Type 0} (b : Bool) (x z : A) → b ≡ false → (if b then x else z) ≡ z
guard_passed true x z p = cc
guard_passed false x z p = refl

within_limit : (n bound : ℕ) → n ≤ bound → ltb bound n ≡ false
within_limit n bound h = ground arith

issuer-start_by :
    (b r : Bool) (now : ℕ) (v : Validator)
    → expected_issuer (start_by b r now v).0 ≡ expected_issuer v
unfolding expected_issuer
issuer-start_by true r now v = refl
issuer-start_by false true now v = refl
issuer-start_by false false now v = refl

issuer-serve_key :
    (b : Bool) (now : ℕ) (v : Validator)
    → expected_issuer (if b then (start_refresh now v).0 else v) ≡ expected_issuer v
unfolding start_refresh
issuer-serve_key true now v = issuer-start_by _ _ now v
issuer-serve_key false now v = refl

-- The key function finds the key at once.
key_for_known :
    (now : ℕ) (w : Waiting) (token : Token) (kid : String) (key : RsaKey) (v : Validator)
    → token.rsa ≡ true
    → token.kid ≡ some kid
    → byte_length kid ≤ max_kid_bytes
    → lookup kid v.public_keys ≡ some key
    → key_for now w token v ≡ serve_key now key v
unfolding key_for
key_for_known now w token kid key v r k s l =
    ap (λ b. if not b then (v, inl Refusal.wrong_method) else key_of_kid now w token.kid v) r
    ∙ ap (λ o. key_of_kid now w o v) k
    ∙ guard_passed (ltb max_kid_bytes (byte_length kid)) (v, inl Refusal.long_kid) _
        (within_limit (byte_length kid) max_kid_bytes s)
    ∙ ap (λ o. find_key now w kid o v) l

verdict_iff :
    (a b i : Bool) (c : Claims)
    → (◌≡◌ {A = Refusal ⊎ Claims}
        (if not (a && b)
          then inl Refusal.not_verified
          else if not i
          then inl Refusal.wrong_issuer
          else inr c)
        (inr c))
      ↔ ((a ≡ true) × (b ≡ true) × (i ≡ true))
verdict_iff a b i c = (
  (λ h. let (p, q, r, _) = checks_passed a b i c c h in (p, q, r)),
  (λ (p, q, r). rw (p, q, r) refl),
)

-- For a ready validator and a readable RSA token of at most 64 KiB whose key id, of at most 1024
-- bytes, names a key that the validator holds: the token is accepted with its own claims exactly if
-- its signature verifies under that key, its times hold with the leeway, and its issuer is the realm
-- of the configured URL.
pub validate_token-known :
    (read : String → Option Token) (now : ℕ) (w : Waiting) (text : String) (v : Validator)
    (token : Token) (kid : String) (key : RsaKey)
    → v.ready ≡ true
    → byte_length text ≤ max_jwt_bytes
    → read text ≡ some token
    → token.rsa ≡ true
    → token.kid ≡ some kid
    → byte_length kid ≤ max_kid_bytes
    → lookup kid v.public_keys ≡ some key
    → ((validate_token read now w text v).1 ≡ inr token.claims) ↔ (
        (token.signed_by key ≡ true)
        × (token.on_time clock_leeway w.later ≡ true)
        × (token.claims.issuer ≡ expected_issuer v))
unfolding validate_token serve_key
validate_token-known read now w text v token kid key ready small reads rsa named short found =
    let e : validate_token read now w text v ≡ judge w.later token (serve_key now key v) =
      guards_passed v.ready (ltb max_jwt_bytes (byte_length text)) _ _ _ ready
        (within_limit (byte_length text) max_jwt_bytes small)
      ∙ ap (λ o. judge_read now w o v) reads
      ∙ ap (judge w.later token) (key_for_known now w token kid key v rsa named short found) in
    let i = issuer-serve_key (stale now v.last_fetch) now v in
    let v' = if stale now v.last_fetch then (start_refresh now v).0 else v in
    let f =
      verdict_iff (token.signed_by key) (token.on_time clock_leeway w.later)
        (str_eq token.claims.issuer (expected_issuer v')) token.claims in
    let q = eq_iff token.claims.issuer (expected_issuer v') in
    (
      (λ h. let (a, b, c) = f.0 (sym (ap (λ x. x.1) e) ∙ h) in (a, b, q.0 c ∙ i)),
      (λ (a, b, c). ap (λ x. x.1) e ∙ f.1 (a, b, q.1 (c ∙ sym i))),
    )
