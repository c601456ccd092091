-- ===== src/Validation/Serving.antt =====
-- The key function of `ValidateToken`: which keys it serves.
use nebari_landing.Base.{
  ℕ, String, ◌≤◌, ◌≡◌, ◌∙◌, refl, ap, Bool, true, false, not, Option, none, some, ◌⊎◌, inl, inr,
  arith, if◌then◌else◌, Bool-cases, byte_length, ltb, lookup,
}
use nebari_landing.Auth.{
  Validator, RsaKey, Start, joined, skipped, started, start_refresh, start_by, unknown_cached,
  max_kid_bytes, bump,
}
use nebari_landing.Validation.{
  Token, Waiting, Refusal, stale, serve_key, found_after, after_wait, after_start, after_cache,
  find_key, key_of_kid, key_for,
}

keys-start_by :
    (b r : Bool) (now : ℕ) (v : Validator) → (start_by b r now v).0.public_keys ≡ v.public_keys
keys-start_by true r now v = refl
keys-start_by false true now v = refl
keys-start_by false false now v = refl

keys-serve_key :
    (b : Bool) (now : ℕ) (v : Validator)
    → (if b then (start_refresh now v).0 else v).public_keys ≡ v.public_keys
unfolding start_refresh
keys-serve_key true now v = keys-start_by _ _ now v
keys-serve_key false now v = refl

served :
    (now : ℕ) (kid : String) (k key : RsaKey) (v : Validator)
    → lookup kid v.public_keys ≡ some k
    → (serve_key now k v).1 ≡ inr key
    → lookup kid (serve_key now k v).0.public_keys ≡ some key
unfolding serve_key
served now kid k key v e h =
    ap (lookup kid) (keys-serve_key (stale now v.last_fetch) now v) ∙ e ∙ ap some (same h)
  where
    same : ◌≡◌ {A = Refusal ⊎ RsaKey} (inr k) (inr key) → k ≡ key
    same e = cc

found_served :
    (now : ℕ) (kid : String) (o : Option RsaKey) (key : RsaKey) (v : Validator)
    → lookup kid v.public_keys ≡ o
    → (found_after now kid o v).1 ≡ inr key
    → lookup kid (found_after now kid o v).0.public_keys ≡ some key
found_served now kid none key v e h = cc
found_served now kid (some k) key v e h = served now kid k key v e h

wait_served :
    (now : ℕ) (kid : String) (r : Validator × Bool) (key : RsaKey)
    → (after_wait now kid r).1 ≡ inr key
    → lookup kid (after_wait now kid r).0.public_keys ≡ some key
wait_served now kid (v, false) key h = cc
wait_served now kid (v, true) key h = found_served now kid (lookup kid v.public_keys) key v refl h

start_served :
    (w : Waiting) (kid : String) (r : Validator × Start) (key : RsaKey)
    → (after_start w kid r).1 ≡ inr key
    → lookup kid (after_start w kid r).0.public_keys ≡ some key
start_served w kid (v, skipped) key h = cc
start_served w kid (v, joined) key h = wait_served w.later kid (w.await v) key h
start_served w kid (v, started) key h = wait_served w.later kid (w.await v) key h

cache_served :
    (now : ℕ) (w : Waiting) (kid : String) (r : Validator × Bool) (key : RsaKey)
    → (after_cache now w kid r).1 ≡ inr key
    → lookup kid (after_cache now w kid r).0.public_keys ≡ some key
cache_served now w kid (v, true) key h = cc
cache_served now w kid (v, false) key h = start_served w kid (start_refresh now v) key h

find_served :
    (now : ℕ) (w : Waiting) (kid : String) (o : Option RsaKey) (v : Validator) (key : RsaKey)
    → lookup kid v.public_keys ≡ o
    → (find_key now w kid o v).1 ≡ inr key
    → lookup kid (find_key now w kid o v).0.public_keys ≡ some key
find_served now w kid none v key e h =
    cache_served now w kid
      (unknown_cached now kid (record v { unknown_kid_total = bump v.unknown_kid_total })) key h
find_served now w kid (some k) v key e h = served now kid k key v e h

kid_served :
    (now : ℕ) (w : Waiting) (o : Option String) (v : Validator) (key : RsaKey)
    → (key_of_kid now w o v).1 ≡ inr key
    → (kid : String) × (o ≡ some kid)
      × (byte_length kid ≤ max_kid_bytes)
      × (lookup kid (key_of_kid now w o v).0.public_keys ≡ some key)
kid_served now w none v key h = cc
kid_served now w (some kid) v key h = elim (Bool-cases (ltb max_kid_bytes (byte_length kid))) [
  | inl e ↦ cc (rw e at h)
  | inr e ↦ (
    kid,
    refl,
    ground arith,
    rw e (find_served now w kid (lookup kid v.public_keys) v key refl (rw e at h)),
  )
]

pub key_served :
    (now : ℕ) (w : Waiting) (token : Token) (v : Validator) (key : RsaKey)
    → (key_for now w token v).1 ≡ inr key
    → (token.rsa ≡ true)
      × ((kid : String) × (token.kid ≡ some kid)
          × (byte_length kid ≤ max_kid_bytes)
          × (lookup kid (key_for now w token v).0.public_keys ≡ some key))
unfolding key_for
key_served now w token v key h = by_method token.rsa refl h
  where
    by_method :
        (b : Bool)
        → token.rsa ≡ b
        → (if not b then (v, inl Refusal.wrong_method) else key_of_kid now w token.kid v).1
          ≡ inr key
        → (token.rsa ≡ true)
          × ((kid : String) × (token.kid ≡ some kid)
              × (byte_length kid ≤ max_kid_bytes)
              × (lookup kid
                    (if not b
                      then (v, inl Refusal.wrong_method)
                      else key_of_kid now w token.kid v).0.public_keys
                  ≡ some key))
    by_method true e h = (e, kid_served now w token.kid v key h)
    by_method false e h = cc
