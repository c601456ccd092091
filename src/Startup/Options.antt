-- ===== src/Startup/Options.antt =====
-- cmd/main.go: what the options of a start make of the handler.
use nebari_landing.Base.{
  String, ◌≡◌, ◌∙◌, refl, ap, Bool, true, false, Option, none, List, [], ◌∷◌, is_some,
}
use nebari_landing.Keycloak.{Config}
use nebari_landing.Api.{Handler}
use nebari_landing.Api.Routing.{
  new_handler, with_access_request_store, with_admin_group, with_notification_store,
  with_keycloak_admin_client, with_allowed_origins, with_debug_mode, with_docs_enabled,
  with_ws_ticket_store,
}
use nebari_landing.Startup.Configuration.{Settings, split_origins, all_if_empty}
use nebari_landing.Startup.{option_if, base_handler, handler_for}

-- An option keeps what none of its cases changes.
option_if-keeps {ℓ} :
    {A : Type ℓ} (field : Handler → A) (option : Handler → Handler) (b : Bool) (h : Handler)
    → ((k : Handler) → field (option k) ≡ field k)
    → field (option_if b option h) ≡ field h
option_if-keeps field option true h e = e h
option_if-keeps field option false h e = refl

option_if-debug_mode :
    (b : Bool) (h : Handler) → h.debug_mode ≡ false → (option_if b with_debug_mode h).debug_mode ≡ b
option_if-debug_mode true h e = refl
option_if-debug_mode false h e = e

option_if-docs_enabled :
    (b : Bool) (h : Handler)
    → h.docs_enabled ≡ false
    → (option_if b with_docs_enabled h).docs_enabled ≡ b
option_if-docs_enabled true h e = refl
option_if-docs_enabled false h e = e

with_split_origins :
    (l : List String) (h : Handler)
    → with_allowed_origins (all_if_empty l) h ≡ record h { allowed_origins = all_if_empty l }
unfolding with_allowed_origins
with_split_origins [] h = refl
with_split_origins (o ∷ l) h = refl

-- The handler of a start does what the settings say.
pub record IsConfigured (s : Settings) (h : Handler) : Type 0 where
  pub enable_auth : h.enable_auth ≡ s.enable_auth
  pub extractor : h.extractor ≡ none
  pub debug_mode : h.debug_mode ≡ s.debug_mode
  pub docs_enabled : h.docs_enabled ≡ s.enable_docs
  pub admin_group : h.admin_group ≡ s.admin_group
  pub allowed_origins : h.allowed_origins ≡ split_origins s.allowed_origins

base_handler-keeps {ℓ} :
    {A : Type ℓ} (field : Handler → A) (s : Settings) (client : Bool)
    → ((o : List String) (k : Handler)
        → field (with_ws_ticket_store (record k { allowed_origins = o })) ≡ field k)
    → ((k : Handler) → field (with_keycloak_admin_client k) ≡ field k)
    → field (base_handler s client)
      ≡ field (
          with_notification_store (
            with_admin_group s.admin_group
              (with_access_request_store (new_handler s.enable_auth true true))))
unfolding split_origins
base_handler-keeps field s client e f =
    ap (λ k. field (with_ws_ticket_store k)) (with_split_origins _ _)
    ∙ (e (split_origins s.allowed_origins) _
        ∙ option_if-keeps field with_keycloak_admin_client client _ f)

-- Neither of the two options of a development set-up changes the field.
switches-keep {ℓ} :
    {A : Type ℓ} (field : Handler → A) (s : Settings) (client : Option Config)
    → ((k : Handler) → field (with_docs_enabled k) ≡ field k)
    → ((k : Handler) → field (with_debug_mode k) ≡ field k)
    → field (handler_for s client) ≡ field (base_handler s (is_some client))
unfolding handler_for
switches-keep field s client e f =
    option_if-keeps field with_docs_enabled s.enable_docs _ e
    ∙ option_if-keeps field with_debug_mode s.debug_mode (base_handler s (is_some client)) f

pub handler_for-IsConfigured :
    (s : Settings) (client : Option Config) → IsConfigured s (handler_for s client)
unfolding handler_for new_handler split_origins
handler_for-IsConfigured s client =
    let c = is_some client in
    let base = base_handler s c in
    record {
      enable_auth =
          switches-keep (λ k. k.enable_auth) s client (λ k. refl) (λ k. refl)
          ∙ base_handler-keeps (λ k. k.enable_auth) s c (λ o k. refl) (λ k. refl);
      extractor =
          switches-keep (λ k. k.extractor) s client (λ k. refl) (λ k. refl)
          ∙ base_handler-keeps (λ k. k.extractor) s c (λ o k. refl) (λ k. refl);
      debug_mode =
          option_if-keeps (λ k. k.debug_mode) with_docs_enabled s.enable_docs _ (λ k. refl)
          ∙ option_if-debug_mode s.debug_mode base
              (base_handler-keeps (λ k. k.debug_mode) s c (λ o k. refl) (λ k. refl));
      docs_enabled = option_if-docs_enabled s.enable_docs _ (
          option_if-keeps (λ k. k.docs_enabled) with_debug_mode s.debug_mode base (λ k. refl)
          ∙ base_handler-keeps (λ k. k.docs_enabled) s c (λ o k. refl) (λ k. refl));
      admin_group =
          switches-keep (λ k. k.admin_group) s client (λ k. refl) (λ k. refl)
          ∙ base_handler-keeps (λ k. k.admin_group) s c (λ o k. refl) (λ k. refl);
      allowed_origins =
          switches-keep (λ k. k.allowed_origins) s client (λ k. refl) (λ k. refl)
          ∙ ap (λ (k : Handler). k.allowed_origins) (with_split_origins _ _);
    }
