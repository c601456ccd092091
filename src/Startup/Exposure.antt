-- ===== src/Startup/Exposure.antt =====
-- cmd/main.go and internal/api/handlers.go: what a process that is up shows to the outside.
use nebari_landing.Base.{
  ℕ, ℤ, String, ◌≡◌, ◌∙◌, refl, sym, ap, ◌⊎◌, inl, inr, Bool, true, false, not, ◌&&◌, Option, some,
  List, [], ◌∷◌, Memᴰ, if◌then◌else◌, if_either, str_eq, map, is_blank, split_on, trim_space, subst,
  keep, Memᴰ_of_keep, Memᴰ-map,
}
use nebari_landing.Probe.{TargetRules, passed}
use nebari_landing.Static.{Service}
use nebari_landing.Redis.{Redis}
use nebari_landing.Api.{Handler, Request, Response, World, Moment, Libraries, refuse}
use nebari_landing.Api.Routing.{Cors, cors_headers, route, serve}
use nebari_landing.Api.Routing.Origins.{cors_headers-allowed}
use nebari_landing.Startup.Configuration.{Settings, split_origins, all_if_empty}
use nebari_landing.Startup.Wiring.{start_web-IsWired}
use nebari_landing.Startup.{Surroundings, Process, start, web_api}

-- The paths that only a development set-up serves, where it does not.
abbrev pub IsClosed : Bool → Bool → String → Type 0
IsClosed debug_mode enable_docs path =
    ((debug_mode ≡ false) × (path ≡ "/api/v1/debug"))
    ⊎ ((enable_docs ≡ false) × ((path ≡ "/api/v1/docs") ⊎ (path ≡ "/api/v1/docs/openapi.json")))

and_false : (b : Bool) → (b && false) ≡ false
and_false true = refl
and_false false = refl

listed_origin :
    (parts : List String) (origin : String)
    → Memᴰ origin (keep (λ t. not (is_blank t)) (map trim_space parts))
    → (part : String) × Memᴰ part parts × (origin ≡ trim_space part)
listed_origin parts origin mem =
    Memᴰ-map trim_space parts origin (Memᴰ_of_keep _ (map trim_space parts) origin mem).0

by_parts :
    (l : List String) (origin : String)
    → Memᴰ origin (all_if_empty l)
    → ((all_if_empty l ≡ "*" ∷ []) × (origin ≡ "*")) ⊎ Memᴰ origin l
by_parts [] origin (Memᴰ.head e) = inl (refl, e)
by_parts [] origin (Memᴰ.tail mem) = elim mem [ ]
by_parts (o ∷ l) origin mem = inr mem

-- The answer's origin, from what the CORS headers and the configured list say.
by_origin :
    (raw o origin : String)
    → ((split_origins raw ≡ "*" ∷ []) × (o ≡ "*"))
      ⊎ ((o ≡ origin)
          × Memᴰ origin (split_origins raw)
          × ((cors_headers (split_origins raw) origin).vary ≡ true))
    → ((split_origins raw ≡ "*" ∷ []) × (o ≡ "*"))
      ⊎ ((o ≡ origin)
          × ((part : String) × Memᴰ part (split_on b',' raw) × (origin ≡ trim_space part)))
unfolding split_origins
by_origin raw o origin (inl h) = inl h
by_origin raw o origin (inr (e, mem, vary)) =
    elim (by_parts (keep (λ t. not (is_blank t)) (map trim_space (split_on b',' raw))) origin mem) [
      | inl (all, star) ↦ inl (all, e ∙ star)
      | inr kept ↦ inr (e, listed_origin (split_on b',' raw) origin kept)
    ]

module _ (R : Redis) (lib : Libraries) (m : Moment) (retention : ℤ)
    (docs : Request → Response) where
  route-closed :
      (h : Handler) (r : Request) (w : World R)
      → IsClosed h.debug_mode h.docs_enabled r.path
      → route R lib h m retention docs r w ≡ (w, refuse 404)
  unfolding route nebari_landing.Base.has_prefix nebari_landing.Base.drop_prefix
  route-closed h r w (inl (off, e)) = rw (e, off, and_false h.hub, and_false h.docs_enabled) refl
  route-closed h r w (inr (off, inl e)) = rw (e, off, and_false h.hub, and_false h.debug_mode) refl
  route-closed h r w (inr (off, inr e)) = rw (e, off, and_false h.hub, and_false h.debug_mode) refl

  -- A web API that was started without the debug mode, or without the document, answers 404 to
  -- every request for the debug route, or for the routes of the document, that is no preflight, and
  -- does nothing else.
  pub start-closes :
      (rules : TargetRules) (decode : String → Option (List Service × Bool)) (around : Surroundings)
      (s : Settings) (p : Process) (r : Request) (w : World R)
      → start rules decode around s ≡ passed (web_api p)
      → IsClosed s.debug_mode s.enable_docs r.path
      → str_eq r.method "OPTIONS" ≡ false
      → serve R lib p.handler m retention docs r w
        ≡ (w, cors_headers (split_origins s.allowed_origins) r.origin, refuse 404)
  unfolding serve
  start-closes rules decode around s p r w up closed other =
      let c = (start_web-IsWired rules decode around s p up).handler in
      let answered = route-closed p.handler r w (
        subst (λ b. IsClosed b p.handler.docs_enabled r.path) (sym c.debug_mode)
          (subst (λ b. IsClosed s.debug_mode b r.path) (sym c.docs_enabled) closed)) in
      rw (other, answered, c.allowed_origins) refl

  serve-cors :
      (h : Handler) (r : Request) (w : World R)
      → (serve R lib h m retention docs r w).1 ≡ cors_headers h.allowed_origins r.origin
  unfolding serve
  serve-cors h r w =
      if_either (λ (a : World R × Cors × Response). a.1 ≡ cors_headers h.allowed_origins r.origin)
        (str_eq r.method "OPTIONS") _ _ refl refl

  -- An answer of a web API that is up may be read from some origin only if the configured list comes
  -- down to "*", or if it is the origin of the request, and that is, up to the spaces around it, one
  -- of the parts between the commas of the configured list.
  pub start-allows :
      (rules : TargetRules) (decode : String → Option (List Service × Bool)) (around : Surroundings)
      (s : Settings) (p : Process) (r : Request) (w : World R) (o : String)
      → start rules decode around s ≡ passed (web_api p)
      → ((serve R lib p.handler m retention docs r w).1.allow_origin ≡ some o)
      → ((split_origins s.allowed_origins ≡ "*" ∷ []) × (o ≡ "*"))
        ⊎ ((o ≡ r.origin)
            × ((part : String) × Memᴰ part (split_on b',' s.allowed_origins)
                × (r.origin ≡ trim_space part)))
  start-allows rules decode around s p r w o up h =
      let c = (start_web-IsWired rules decode around s p up).handler in
      let sent : (cors_headers (split_origins s.allowed_origins) r.origin).allow_origin ≡ some o =
        ap (λ l. (cors_headers l r.origin).allow_origin) (sym c.allowed_origins)
        ∙ (ap (λ (k : Cors). k.allow_origin) (sym (serve-cors p.handler r w)) ∙ h) in
      by_origin s.allowed_origins o r.origin
        (cors_headers-allowed (split_origins s.allowed_origins) r.origin o sent)
