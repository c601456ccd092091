-- ===== src/Tickets.antt =====
-- internal/wsticket/store.go: the single-use tickets with which a browser opens a WebSocket. Redis and
-- encoding/json are parameters; the random bytes that crypto/rand returned are an argument.
pub mod SingleUse
use nebari_landing.Base.{
  ℕ, zero, suc, ◌/◌, ◌%◌, String, Bool, true, false, Option, none, some, List, [], ◌∷◌, ◌+++◌,
  if◌then◌else◌,
}
use nebari_landing.Redis.{Redis, Reply, answer, missing, failed}

-- `TicketClaims`; `none` is the zero time.
pub record TicketClaims : Type 0 where
  pub subject : String
  pub preferred_username : String
  pub groups : List String
  pub expires_at : Option ℕ

-- encoding/json on `TicketClaims`, `none` where it fails.
pub record TicketJson : Type 0 where
  pub marshal : TicketClaims → Option String
  pub unmarshal : String → Option TicketClaims

-- What `Redeem` returns: the claims, `ErrUnknownTicket`, or another error.
pub data Redeemed : Type 0 where
  redeemed : TicketClaims → Redeemed
  unknown_ticket : Redeemed
  redeem_error : Redeemed

abbrev pub ticket_ttl : ℕ
ticket_ttl = 30000000000

abbrev pub ticket_key : String → String
ticket_key ticket = "wsticket:" +++ ticket

abbrev pick : ℕ → List String → String
pick n [] = ""
pick zero (x ∷ l) = x
pick (suc n) (x ∷ l) = pick n l

abbrev hex_digit : ℕ → String
hex_digit n = pick n (
    "0" ∷ "1" ∷ "2" ∷ "3" ∷ "4" ∷ "5" ∷ "6" ∷ "7" ∷ "8" ∷ "9" ∷ "a" ∷ "b" ∷ "c" ∷ "d" ∷ "e" ∷ "f"
    ∷ [])

-- `hex.EncodeToString`
unfoldable pub hex : List ℕ → String
hex [] = ""
hex (b ∷ rest) = hex_digit (b / 16) +++ (hex_digit (b % 16) +++ hex rest)

module _ (R : Redis) (json : TicketJson) where
  abbrev pub issue_payload : String → Option String → R.Db → R.Db × Option String
  issue_payload ticket none d = (d, none)
  issue_payload ticket (some payload) d =
      let reply = R.set_for (ticket_key ticket) payload ticket_ttl d in
      (reply.0, if reply.1 then some ticket else none)

  -- `Issue`, `none` where it returns an error.
  unfoldable pub issue : Option (List ℕ) → TicketClaims → R.Db → R.Db × Option String
  issue none claims d = (d, none)
  issue (some bytes) claims d = issue_payload (hex bytes) (json.marshal claims) d

  abbrev pub claims_in : Option TicketClaims → Redeemed
  claims_in none = redeem_error
  claims_in (some claims) = redeemed claims

  abbrev pub redeem_reply : Reply String → Redeemed
  redeem_reply (answer raw) = claims_in (json.unmarshal raw)
  redeem_reply missing = unknown_ticket
  redeem_reply failed = redeem_error

  -- `Redeem`
  unfoldable pub redeem : String → R.Db → R.Db × Redeemed
  redeem ticket d = let reply = R.get_del (ticket_key ticket) d in (reply.0, redeem_reply reply.1)
