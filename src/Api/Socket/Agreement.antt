-- ===== src/Api/Socket/Agreement.antt =====
-- internal/api/handlers.go: a WebSocket is sent what the same request could read by REST.
use nebari_landing.Base.{
  ℕ, ◌≡◌, ◌≢◌, ◌∙◌, pos, refl, sym, ap, Bool, true, false, ◌||◌, Option, none, some, is_some,
  is_blank,
}
use nebari_landing.Access.{
  Claims, Principal, principal_from_claims, can_access_service, principal_can_access,
}
use nebari_landing.Cache.{ServiceInfo}
use nebari_landing.Hub.{proxy_of}
use nebari_landing.Notification.{Notification}
use nebari_landing.Redis.{Redis}
use nebari_landing.Api.{
  Request, Moment, Libraries, Handler, World, Caller, caller, claims_of, is_authenticated,
  with_username, extract,
}
use nebari_landing.Api.Notices.{shown_to}
use nebari_landing.Api.Socket.{upgrade, handle_ws}
use nebari_landing.Api.Socket.Sessions.{require_auth-known, handle_ws-claims}

module _ (R : Redis) (lib : Libraries) (h : Handler) (m : Moment) where
  abbrev seen : ServiceInfo → Caller → Bool
  seen s k = can_access_service s (is_authenticated k) (claims_of k)

  abbrev shown_by : Notification → Caller → Bool
  shown_by n k = shown_to R lib h m (pos 0) (claims_of k) (is_authenticated k) n

  sees :
      (s : ServiceInfo) (d : Claims)
      → principal_can_access s (principal_from_claims (some (with_username d)))
        ≡ seen s (caller (some d) true)
  unfolding principal_can_access principal_from_claims can_access_service
  sees s d = refl

  shown :
      (n : Notification) (d : Claims)
      → (is_blank n.service_uid
          || principal_can_access (proxy_of n) (principal_from_claims (some (with_username d))))
        ≡ shown_by n (caller (some d) true)
  unfolding principal_can_access principal_from_claims shown_to proxy_of
  shown n d = refl

  -- REST and WebSocket agree: where authentication is on and a WebSocket is opened by the token in
  -- the Authorization header, the services and the notifications that its principal may be sent
  -- are exactly those that the listings show to the very same request.
  pub handle_ws-sees :
      (r : Request) (w : World R) (p : Principal) (end : Option ℕ)
      → h.extractor ≡ none
      → w.validator ≢ none
      → h.enable_auth ≡ true
      → is_blank r.authorization ≡ false
      → (handle_ws R lib h m r w).1 ≡ upgrade R lib h m p end
      → ((s : ServiceInfo)
          → principal_can_access s p
            ≡ can_access_service s
                (is_authenticated (extract R lib h m r w).1)
                (claims_of (extract R lib h m r w).1))
        × ((n : Notification)
            → (is_blank n.service_uid || principal_can_access (proxy_of n) p)
              ≡ shown_to R lib h m
                  (pos 0)
                  (claims_of (extract R lib h m r w).1)
                  (is_authenticated (extract R lib h m r w).1)
                  n)
  handle_ws-sees r w p end f v on b e =
      let (c, got, who, until) =
        handle_ws-claims R lib h m r w p end (ap (λ a. a || is_some h.extractor) on) b e in
      let (d, known, named) = require_auth-known R lib h m r w c f v on got in
      let same : p ≡ principal_from_claims (some (with_username d)) =
        who ∙ ap (λ k. principal_from_claims (some k)) named in
      (
        (λ s. ap (principal_can_access s) same ∙ (sees s d ∙ ap (seen s) (sym known))),
        (λ n.
            ap (λ b. is_blank n.service_uid || b) (ap (principal_can_access (proxy_of n)) same)
            ∙ (shown n d ∙ ap (shown_by n) (sym known))),
      )
