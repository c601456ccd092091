-- ===== src/Api/Socket/Sessions.antt =====
-- internal/api/handlers.go: for whom a WebSocket is opened, for how long, and what is sent on it.
use nebari_landing.Base.{
  ℕ, ◌<◌, ◌≡◌, ◌≢◌, ◌∙◌, refl, sym, ap, if_taken, Bool, if◌then◌else◌, ◌⊎◌, inl, inr, true, false,
  not, ◌||◌, ◌&&◌, Option, none, some, arith, Bool-cases, is_blank, is_some, ltb,
}
use nebari_landing.Access.{Claims, Principal, principal_from_claims, exp_from_claims}
use nebari_landing.Auth.{Validator}
use nebari_landing.Redis.{Redis}
use nebari_landing.Tickets.{TicketClaims, Redeemed, redeemed, unknown_ticket, redeem_error, redeem}
use nebari_landing.Api.{
  Request, Moment, Libraries, Handler, World, Response, upgraded, require_auth, with_claims, Caller,
  warming, rejected, caller, with_username, extract, require_by, require_with, require_caller,
  refuse,
}
use nebari_landing.Api.Bearer.{Bears, extract-Bears}
use nebari_landing.Api.Frame.{Refuses, IsRefused, require_auth-Refuses}
use nebari_landing.Api.Socket.{
  upgrade, ticket_principal, open_until, open_redeemed, open_by_claims, handle_ws,
}

module _ (R : Redis) (lib : Libraries) (h : Handler) (m : Moment) where
  -- A session of the claims that the request was required to have.
  abbrev pub ByClaims : Request → World R → Principal → Option ℕ → Type 0
  ByClaims r w p end =
      (c : Claims) × ((require_auth R lib h m r w).1 ≡ inr c)
      × (p ≡ principal_from_claims (some c))
      × (end ≡ c.expires_at)

  -- A session of the claims in the ticket, which is over after a time that is still to come.
  abbrev pub ByTicket : Request → World R → Principal → Option ℕ → Type 0
  ByTicket r w p end =
      (tc : TicketClaims) × (e : ℕ) × ((redeem R lib.tickets r.ticket w.db).1 ≡ redeemed tc)
      × (p ≡ ticket_principal R lib h m tc)
      × (end ≡ some e)
      × (tc.expires_at ≡ some e)
      × (m.now < e)

  open_claims-upgraded :
      (found : World R × (Response ⊎ Claims)) (p : Principal) (end : Option ℕ)
      → (with_claims R lib h m found (open_by_claims R lib h m)).1 ≡ upgrade R lib h m p end
      → Refuses found.1
      → (c : Claims) × (found.1 ≡ inr c)
        × (p ≡ principal_from_claims (some c))
        × (end ≡ c.expires_at)
  unfolding exp_from_claims
  open_claims-upgraded (v, inl response) p end e refused =
      absurd (clash refused (ap (λ (x : Response). x.body) e))
    where
      clash : IsRefused response → response.body ≢ upgraded p end
      clash (inl a) b = cc (a, b)
      clash (inr a) b = cc (a, b)
  open_claims-upgraded (v, inr c) p end e refused = (c, refl, cc e, cc e)

  open_until-upgraded :
      (tc : TicketClaims) (expires : Option ℕ) (p : Principal) (end : Option ℕ)
      → open_until R lib h m tc expires ≡ upgrade R lib h m p end
      → (e : ℕ) × (p ≡ ticket_principal R lib h m tc)
        × (end ≡ some e)
        × (expires ≡ some e)
        × (m.now < e)
  open_until-upgraded tc none p end k = cc k
  open_until-upgraded tc (some e) p end k = elim (Bool-cases (ltb m.now e)) [
    | inl b ↦ let q = rw b at k in (e, cc q, cc q, refl, ground arith)
    | inr b ↦ let q = rw b at k in cc q
  ]

  open_redeemed-upgraded :
      (found : Redeemed) (p : Principal) (end : Option ℕ)
      → open_redeemed R lib h m found ≡ upgrade R lib h m p end
      → (tc : TicketClaims) × (e : ℕ) × (found ≡ redeemed tc)
        × (p ≡ ticket_principal R lib h m tc)
        × (end ≡ some e)
        × (tc.expires_at ≡ some e)
        × (m.now < e)
  open_redeemed-upgraded (redeemed tc) p end k =
      let (e, a, b, c, d) = open_until-upgraded tc tc.expires_at p end k in
      (tc, e, refl, a, b, c, d)
  open_redeemed-upgraded unknown_ticket p end k = cc k
  open_redeemed-upgraded redeem_error p end k = cc k

  pub handle_ws-claims :
      (r : Request) (w : World R) (p : Principal) (end : Option ℕ)
      → (h.enable_auth || is_some h.extractor) ≡ true
      → is_blank r.authorization ≡ false
      → (handle_ws R lib h m r w).1 ≡ upgrade R lib h m p end
      → ByClaims r w p end
  unfolding handle_ws
  handle_ws-claims r w p end on b e =
      open_claims-upgraded (require_auth R lib h m r w) p end (rw (on, b) at e)
        (require_auth-Refuses R lib h m r w)

  require_with-extract :
      (v : Option Validator) (r : Request) (w : World R) (c : Claims)
      → v ≢ none
      → h.enable_auth ≡ true
      → (require_with R lib h m v r w).1 ≡ inr c
      → require_caller R lib h m (extract R lib h m r w).1 ≡ inr c
  require_with-extract none r w c n on e = absurd (n refl)
  require_with-extract (some v) r w c n on e =
      sym (
        ap (λ (p : World R × (Response ⊎ Claims)). p.1)
          (if_taken h.enable_auth
            ((extract R lib h m r w).0, require_caller R lib h m (extract R lib h m r w).1) _ on))
      ∙ e

  require_by-extract :
      (f : Option (Request → Option Claims × Bool)) (r : Request) (w : World R) (c : Claims)
      → f ≡ none
      → w.validator ≢ none
      → h.enable_auth ≡ true
      → (require_by R lib h m f r w).1 ≡ inr c
      → require_caller R lib h m (extract R lib h m r w).1 ≡ inr c
  require_by-extract none r w c f n on e = require_with-extract w.validator r w c n on e
  require_by-extract (some g) r w c f n on e = cc f

  require_caller-known :
      (k : Caller) (c : Claims)
      → require_caller R lib h m k ≡ inr c
      → (d : Claims) × (k ≡ caller (some d) true) × (c ≡ with_username d)
  require_caller-known warming c e = cc e
  require_caller-known rejected c e = cc e
  require_caller-known (caller claims false) c e = cc e
  require_caller-known (caller none true) c e = cc e
  require_caller-known (caller (some d) true) c e = known _ e
    where
      known :
          (b : Bool)
          → (if b then inl (refuse 401) else inr (with_username d)) ≡ inr c
          → (k : Claims) × (caller (some d) true ≡ caller (some k) true) × (c ≡ with_username k)
      known true q = cc q
      known false q = (d, refl, cc q)

  -- With a validator, the claims that a request is required to have are those of `extract`.
  pub require_auth-known :
      (r : Request) (w : World R) (c : Claims)
      → h.extractor ≡ none
      → w.validator ≢ none
      → h.enable_auth ≡ true
      → (require_auth R lib h m r w).1 ≡ inr c
      → (d : Claims) × ((extract R lib h m r w).1 ≡ caller (some d) true) × (c ≡ with_username d)
  unfolding require_auth
  require_auth-known r w c f v on got =
      require_caller-known _ c (require_by-extract h.extractor r w c f v on got)

  -- A session of the token in the Authorization header, up to the time when the token expires.
  abbrev pub ByToken : Request → World R → Principal → Option ℕ → Type 0
  ByToken r w p end =
      (c : Claims) × (v : Validator) × (w.validator ≡ some v)
      × Bears R lib h m r.authorization v c
      × (p ≡ principal_from_claims (some (with_username c)))
      × (end ≡ c.expires_at)

  -- With authentication on, and a validator, a WebSocket is only opened for an authenticated
  -- principal: that of a token in the request's Authorization header which the validator accepts,
  -- for a session that ends when the token expires, or else that of a ticket which this very request
  -- redeemed, for a session with an end that is still to come.
  pub handle_ws-authenticated :
      (r : Request) (w : World R) (p : Principal) (end : Option ℕ)
      → h.extractor ≡ none
      → w.validator ≢ none
      → h.enable_auth ≡ true
      → (handle_ws R lib h m r w).1 ≡ upgrade R lib h m p end
      → (p.authenticated ≡ true) × (ByToken r w p end ⊎ ByTicket r w p end)
  unfolding handle_ws principal_from_claims
  handle_ws-authenticated r w p end f v on e = elim (Bool-cases (is_blank r.authorization)) [
    | inl b ↦ elim (Bool-cases (not (is_blank r.ticket) && h.ticket_store)) [
      | inl t ↦
          let (tc, until, got, who, a, q, l) =
            open_redeemed-upgraded _ p end (rw (on, b, t) at e) in
          (ap (λ (x : Principal). x.authenticated) who, inr (tc, until, got, who, a, q, l))
      | inr t ↦ cc (rw (on, b, t) at e)
    ]
    | inr b ↦
        let (c, got, who, until) =
          handle_ws-claims r w p end (ap (λ a. a || is_some h.extractor) on) b e in
        let (d, known, named) = require_auth-known r w c f v on got in
        let (u, there, bears) = extract-Bears R lib h m r w d f known in
        (
          ap (λ (x : Principal). x.authenticated) who,
          inl (
            d,
            u,
            there,
            bears,
            who ∙ ap (λ k. principal_from_claims (some k)) named,
            until ∙ ap (λ (k : Claims). k.expires_at) named,
          ),
        )
  ]
