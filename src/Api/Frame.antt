-- ===== src/Api/Frame.antt =====
-- internal/api/handlers.go: finding out who the caller is changes the validator at most.
use nebari_landing.Base.{
  if_either, String, ◌≡◌, refl, Bool, true, false, Option, none, some, List, [], ◌∷◌, ◌⊎◌, inl, inr,
  str_eq, is_blank, ltb, byte_length, split_on,
}
use nebari_landing.Access.{Claims}
use nebari_landing.Auth.{Validator}
use nebari_landing.Validation.{
  Refusal, not_ready, too_large, unreadable, wrong_method, no_kid, long_kid, cached_kid, cooldown,
  refresh_failed, absent_kid, not_verified, wrong_issuer, validate_token,
}
use nebari_landing.Redis.{Redis}
use nebari_landing.Api.{
  Request, Moment, Libraries, Handler, World, Response, error_text, aborted, with_username,
  require_injected, Caller, warming, rejected, caller, extract, extract_by, extract_with,
  extract_header, extract_parts, validated, max_header_bytes, require_auth, require_admin,
  require_by, require_with, require_caller,
}

-- The worlds differ in the validator at most.
abbrev pub Same : (R : Redis) → World R → World R → Type 0
Same R w v =
    (v.cache ≡ w.cache)
    × (v.db ≡ w.db)
    × (v.published ≡ w.published)
    × (v.memberships ≡ w.memberships)

-- What a call answers besides, it leaves the world as it was, up to the validator.
abbrev pub Stays : {A : Type 0} (R : Redis) → World R → World R × A → Type 0
Stays R w p = Same R w p.0

module _ (R : Redis) (lib : Libraries) (h : Handler) (m : Moment) where
  validated-Same :
      (w : World R) (p : Validator × (Refusal ⊎ Claims)) → Same R w (validated R lib h m w p).0
  validated-Same w (v, inl not_ready) = (refl, refl, refl, refl)
  validated-Same w (v, inl too_large) = (refl, refl, refl, refl)
  validated-Same w (v, inl unreadable) = (refl, refl, refl, refl)
  validated-Same w (v, inl wrong_method) = (refl, refl, refl, refl)
  validated-Same w (v, inl no_kid) = (refl, refl, refl, refl)
  validated-Same w (v, inl long_kid) = (refl, refl, refl, refl)
  validated-Same w (v, inl cached_kid) = (refl, refl, refl, refl)
  validated-Same w (v, inl cooldown) = (refl, refl, refl, refl)
  validated-Same w (v, inl refresh_failed) = (refl, refl, refl, refl)
  validated-Same w (v, inl absent_kid) = (refl, refl, refl, refl)
  validated-Same w (v, inl not_verified) = (refl, refl, refl, refl)
  validated-Same w (v, inl wrong_issuer) = (refl, refl, refl, refl)
  validated-Same w (v, inr claims) = (refl, refl, refl, refl)

  extract_parts-Same :
      (w : World R) (v : Validator) (parts : List String)
      → Same R w (extract_parts R lib h m w v parts).0
  extract_parts-Same w v [] = (refl, refl, refl, refl)
  extract_parts-Same w v (a ∷ []) = (refl, refl, refl, refl)
  extract_parts-Same w v (a ∷ b ∷ c ∷ l) = (refl, refl, refl, refl)
  extract_parts-Same w v (scheme ∷ token ∷ []) =
      if_either (Stays R w) (str_eq scheme "Bearer") _ _
        (validated-Same w (validate_token lib.tokens m.now m.waiting token v))
        (refl, refl, refl, refl)

  extract_header-Same :
      (w : World R) (v : Validator) (header : String)
      → Same R w (extract_header R lib h m w v header).0
  extract_header-Same w v header =
      if_either (Stays R w) (is_blank header) _ _ (refl, refl, refl, refl)
        (if_either (Stays R w) (ltb max_header_bytes (byte_length header)) _ _
          (refl, refl, refl, refl) (extract_parts-Same w v (split_on 32 header)))

  extract_with-Same :
      (v : Option Validator) (r : Request) (w : World R) → Same R w (extract_with R lib h m v r w).0
  extract_with-Same none r w = (refl, refl, refl, refl)
  extract_with-Same (some v) r w =
      if_either (Stays R w) h.enable_auth _ _ (extract_header-Same w v r.authorization)
        (refl, refl, refl, refl)

  extract_by-Same :
      (f : Option (Request → Option Claims × Bool)) (r : Request) (w : World R)
      → Same R w (extract_by R lib h m f r w).0
  extract_by-Same none r w = extract_with-Same w.validator r w
  extract_by-Same (some f) r w = (refl, refl, refl, refl)

  pub extract-Same : (r : Request) (w : World R) → Same R w (extract R lib h m r w).0
  unfolding extract
  extract-Same r w = extract_by-Same h.extractor r w

  require_with-Same :
      (v : Option Validator) (r : Request) (w : World R) → Same R w (require_with R lib h m v r w).0
  require_with-Same none r w = (refl, refl, refl, refl)
  require_with-Same (some v) r w =
      if_either (Stays R w) h.enable_auth _ _ (extract-Same r w) (refl, refl, refl, refl)

  require_by-Same :
      (f : Option (Request → Option Claims × Bool)) (r : Request) (w : World R)
      → Same R w (require_by R lib h m f r w).0
  require_by-Same none r w = require_with-Same w.validator r w
  require_by-Same (some f) r w = (refl, refl, refl, refl)

  pub require_auth-Same : (r : Request) (w : World R) → Same R w (require_auth R lib h m r w).0
  unfolding require_auth
  require_auth-Same r w = require_by-Same h.extractor r w

  pub require_admin-Same : (r : Request) (w : World R) → Same R w (require_admin R lib h m r w).0
  unfolding require_admin
  require_admin-Same r w = require_auth-Same r w

-- An answer without any content of the program's state.
abbrev pub IsRefused : Response → Type 0
IsRefused response = (response.body ≡ error_text) ⊎ (response.body ≡ aborted)

-- Where claims are required and missing, the answer is a refusal.
abbrev pub Refuses : Response ⊎ Claims → Type 0
Refuses (inl response) = IsRefused response
Refuses (inr c) = Unit

module _ (R : Redis) (lib : Libraries) (h : Handler) (m : Moment) where
  require_caller-Refuses : (c : Caller) → Refuses (require_caller R lib h m c)
  require_caller-Refuses warming = inl refl
  require_caller-Refuses rejected = inl refl
  require_caller-Refuses (caller claims false) = inl refl
  require_caller-Refuses (caller none true) = inr refl
  require_caller-Refuses (caller (some c) true) =
      if_either Refuses (is_blank (with_username c).preferred_username) _ _ (inl refl) tt

  require_injected-Refuses : (f : Option Claims × Bool) → Refuses (require_injected R lib h m f)
  require_injected-Refuses (claims, false) = inl refl
  require_injected-Refuses (none, true) = inr refl
  require_injected-Refuses (some c, true) = tt

  require_with-Refuses :
      (v : Option Validator) (r : Request) (w : World R) → Refuses (require_with R lib h m v r w).1
  require_with-Refuses none r w = tt
  require_with-Refuses (some v) r w =
      if_either {A = World R × (Response ⊎ Claims)} (λ p. Refuses p.1) h.enable_auth _ _
        (require_caller-Refuses (extract R lib h m r w).1) tt

  require_by-Refuses :
      (f : Option (Request → Option Claims × Bool)) (r : Request) (w : World R)
      → Refuses (require_by R lib h m f r w).1
  require_by-Refuses none r w = require_with-Refuses w.validator r w
  require_by-Refuses (some f) r w = require_injected-Refuses (f r)

  pub require_auth-Refuses : (r : Request) (w : World R) → Refuses (require_auth R lib h m r w).1
  unfolding require_auth
  require_auth-Refuses r w = require_by-Refuses h.extractor r w
