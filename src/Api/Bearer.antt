-- ===== src/Api/Bearer.antt =====
-- internal/api/handlers.go with internal/auth/jwt_validator.go: what makes a REST caller authenticated.
use nebari_landing.Base.{
  String, ◌≡◌, ◌∙◌, refl, ap, ◌⊎◌, inl, inr, Bool, true, false, Option, none, some, List, [], ◌∷◌,
  Bool-cases, eq_iff, if◌then◌else◌, str_eq, is_blank, ltb, byte_length, split_on,
}
use nebari_landing.Access.{Claims}
use nebari_landing.Auth.{Validator, RsaKey}
use nebari_landing.Validation.{
  Refusal, not_ready, too_large, unreadable, wrong_method, no_kid, long_kid, cached_kid, cooldown,
  refresh_failed, absent_kid, not_verified, wrong_issuer, Token, validate_token,
}
use nebari_landing.Validation.Tokens.{IsAccepted, validate_token-accepts}
use nebari_landing.Redis.{Redis}
use nebari_landing.Api.{
  Request, Moment, Libraries, Handler, World, caller, extract, extract_by, extract_with,
  extract_header, extract_parts, validated, max_header_bytes,
}

module _ (R : Redis) (lib : Libraries) (h : Handler) (m : Moment) where
  -- The header is "Bearer", one space and a token that the validator accepts with these claims.
  abbrev pub Bears : String → Validator → Claims → Type 0
  Bears header v c =
      (text : String) × (token : Token) × (kid : String) × (key : RsaKey) × (split_on 32 header
        ≡ "Bearer" ∷ text ∷ [])
      × IsAccepted lib.tokens m.waiting text v (validate_token lib.tokens m.now m.waiting text v).0
          c token kid key

  validated-accepted :
      (w : World R) (p : Validator × (Refusal ⊎ Claims)) (c : Claims)
      → (validated R lib h m w p).1 ≡ caller (some c) true
      → p.1 ≡ inr c
  validated-accepted w (v, inl not_ready) c h = cc h
  validated-accepted w (v, inl too_large) c h = cc h
  validated-accepted w (v, inl unreadable) c h = cc h
  validated-accepted w (v, inl wrong_method) c h = cc h
  validated-accepted w (v, inl no_kid) c h = cc h
  validated-accepted w (v, inl long_kid) c h = cc h
  validated-accepted w (v, inl cached_kid) c h = cc h
  validated-accepted w (v, inl cooldown) c h = cc h
  validated-accepted w (v, inl refresh_failed) c h = cc h
  validated-accepted w (v, inl absent_kid) c h = cc h
  validated-accepted w (v, inl not_verified) c h = cc h
  validated-accepted w (v, inl wrong_issuer) c h = cc h
  validated-accepted w (v, inr d) c h = cc h

  extract_parts-Bears :
      (w : World R) (v : Validator) (parts : List String) (header : String) (c : Claims)
      → split_on 32 header ≡ parts
      → (extract_parts R lib h m w v parts).1 ≡ caller (some c) true
      → Bears header v c
  extract_parts-Bears w v [] header c s e = cc e
  extract_parts-Bears w v (a ∷ []) header c s e = cc e
  extract_parts-Bears w v (a ∷ b ∷ d ∷ l) header c s e = cc e
  extract_parts-Bears w v (scheme ∷ text ∷ []) header c s e =
      elim (Bool-cases (str_eq scheme "Bearer")) [
        | inl b ↦
            let got = validated-accepted w _ c (rw b at e) in
            let (token, kid, key, accepted) =
              validate_token-accepts lib.tokens m.now m.waiting text v c got in
            (
              text,
              token,
              kid,
              key,
              s ∙ ap (λ k. k ∷ text ∷ []) ((eq_iff scheme "Bearer").0 b),
              accepted,
            )
        | inr b ↦ cc (rw b at e)
      ]

  extract_header-Bears :
      (w : World R) (v : Validator) (header : String) (c : Claims)
      → (extract_header R lib h m w v header).1 ≡ caller (some c) true
      → Bears header v c
  extract_header-Bears w v header c e = elim (Bool-cases (is_blank header)) [
    | inl b ↦ cc (rw b at e)
    | inr b ↦ elim (Bool-cases (ltb max_header_bytes (byte_length header))) [
      | inl l ↦ cc (rw (b, l) at e)
      | inr l ↦ extract_parts-Bears w v (split_on 32 header) header c refl (rw (b, l) at e)
    ]
  ]

  extract_with-Bears :
      (o : Option Validator) (r : Request) (w : World R) (c : Claims)
      → (extract_with R lib h m o r w).1 ≡ caller (some c) true
      → (v : Validator) × (o ≡ some v) × Bears r.authorization v c
  extract_with-Bears none r w c e = cc e
  extract_with-Bears (some v) r w c e = by_mode h.enable_auth e
    where
      by_mode :
          (on : Bool)
          → (if on then extract_header R lib h m w v r.authorization else (w, caller none false)).1
            ≡ caller (some c) true
          → (u : Validator) × (some v ≡ some u) × Bears r.authorization u c
      by_mode true k = (v, refl, extract_header-Bears w v r.authorization c k)
      by_mode false k = cc k

  extract_by-Bears :
      (f : Option (Request → Option Claims × Bool)) (r : Request) (w : World R) (c : Claims)
      → f ≡ none
      → (extract_by R lib h m f r w).1 ≡ caller (some c) true
      → (v : Validator) × (w.validator ≡ some v) × Bears r.authorization v c
  extract_by-Bears none r w c f e = extract_with-Bears w.validator r w c e
  extract_by-Bears (some g) r w c f e = cc f

  -- Outside tests a REST caller counts as authenticated only by a token: there is a validator, the
  -- Authorization header, split at its spaces, is "Bearer" and one text, the validator accepts that
  -- text as a token, signed under a key that it holds then, and the claims are the token's.
  pub extract-Bears :
      (r : Request) (w : World R) (c : Claims)
      → h.extractor ≡ none
      → (extract R lib h m r w).1 ≡ caller (some c) true
      → (v : Validator) × (w.validator ≡ some v) × Bears r.authorization v c
  unfolding extract
  extract-Bears r w c f e = extract_by-Bears h.extractor r w c f e
