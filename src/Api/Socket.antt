-- ===== src/Api/Socket.antt =====
-- internal/api/handlers.go: how a WebSocket is opened, and the tickets for it.
pub mod Sessions
pub mod Agreement
use nebari_landing.Base.{
  ℕ, String, Bool, true, false, not, ◌||◌, ◌&&◌, Option, none, some, List, ◌⊎◌, inl, inr,
  if◌then◌else◌, str_eq, is_blank, is_some, ltb,
}
use nebari_landing.Access.{Claims, Principal, principal_from_claims, exp_from_claims}
use nebari_landing.Redis.{Redis}
use nebari_landing.Tickets.{
  TicketClaims, Redeemed, redeemed, unknown_ticket, redeem_error, issue, redeem,
}
use nebari_landing.Api.{
  Request, Moment, Libraries, Handler, World, Response, issued, upgraded, refuse, reply,
  require_auth, with_claims,
}

module _ (R : Redis) (lib : Libraries) (h : Handler) (m : Moment) where
  -- `ServeWS`, which answers 101.
  abbrev pub upgrade : Principal → Option ℕ → Response
  upgrade p end = record { status = 101; body = upgraded p end }

  abbrev pub ticket_principal : TicketClaims → Principal
  ticket_principal tc = record { subject = tc.subject; groups = tc.groups; authenticated = true }

  -- An `exp` that is missing or not after the present is refused.
  abbrev pub open_until : TicketClaims → Option ℕ → Response
  open_until tc none = refuse 401
  open_until tc (some end) =
      if ltb m.now end then upgrade (ticket_principal tc) (some end) else refuse 401

  abbrev pub open_redeemed : Redeemed → Response
  open_redeemed (redeemed tc) = open_until tc tc.expires_at
  open_redeemed _ = refuse 401

  abbrev pub open_by_ticket : String → World R → World R × Response
  open_by_ticket ticket w =
      let found = redeem R lib.tickets ticket w.db in
      (record w { db = found.0 }, open_redeemed found.1)

  abbrev pub open_by_claims : Claims → World R → World R × Response
  open_by_claims c w = (w, upgrade (principal_from_claims (some c)) (exp_from_claims (some c)))

  -- `handleWS`
  unfoldable pub handle_ws : Request → World R → World R × Response
  handle_ws r w =
      if not (h.enable_auth || is_some h.extractor)
      then (w, upgrade (principal_from_claims none) none)
      else if not (is_blank r.authorization)
      then with_claims R lib h m (require_auth R lib h m r w) open_by_claims
      else if not (is_blank r.ticket) && h.ticket_store
      then open_by_ticket r.ticket w
      else (w, refuse 401)

  -- The claims that `handleWSTicket` puts into a ticket.
  unfoldable pub ticket_claims : Claims → TicketClaims
  ticket_claims c = record {
    subject = c.subject;
    preferred_username = c.preferred_username;
    groups = c.groups;
    expires_at = exp_from_claims (some c);
  }

  abbrev pub ticket_issued : World R → R.Db × Option String → World R × Response
  ticket_issued w (d, none) = (record w { db = d }, refuse 500)
  ticket_issued w (d, some ticket) = (record w { db = d }, reply (issued ticket))

  -- `handleWSTicket`
  unfoldable pub handle_ws_ticket : Request → World R → World R × Response
  handle_ws_ticket r w =
      if not (str_eq r.method "POST")
      then (w, refuse 405)
      else if not h.ticket_store
      then (w, refuse 501)
      else with_claims R lib h m (require_auth R lib h m r w)
          (λ c v. ticket_issued v (issue R lib.tickets m.bytes (ticket_claims c) v.db))
