-- ===== src/Tickets/SingleUse.antt =====
-- internal/wsticket/store.go: what a ticket is worth, once.
use nebari_landing.Base.{
  ℕ, String, Bool, true, false, Option, none, some, List, ◌≡◌, ◌≢◌, refl, ap, ◌∙◌, ◌⊎◌, inl, inr,
  str_eq, subst, if◌then◌else◌,
}
use nebari_landing.Redis.{Redis, text, Reply, answer, missing, failed}
use nebari_landing.Redis.Documented.{IsDocumented}
use nebari_landing.Tickets.{
  TicketClaims, TicketJson, redeemed, redeem_error, ticket_key, hex, issue, redeem, issue_payload,
  ticket_ttl, redeem_reply, claims_in,
}

module _ (R : Redis) (json : TicketJson) (doc : IsDocumented R) where
  -- What may happen between two moments without an `Issue` that draws this ticket again: calls of
  -- `Redeem` for any ticket, calls of `Issue` that draw another one, and any step that leaves the
  -- ticket's key as it is or without a value, such as the end of its time to live.
  pub data Without (ticket : String) : R.Db → R.Db → Type 0 where
    rest : {d : R.Db} → Without ticket d d
    redeeming :
        {d e : R.Db} (other : String)
        → Without ticket d e
        → Without ticket d (redeem R json other e).0
    issuing :
        {d e : R.Db} (bytes : List ℕ) (claims : TicketClaims)
        → str_eq (ticket_key (hex bytes)) (ticket_key ticket) ≡ false
        → Without ticket d e
        → Without ticket d (issue R json (some bytes) claims e).0
    lapsing :
        {d e : R.Db} (f : R.Db)
        → ((R.view f (ticket_key ticket) ≡ R.view e (ticket_key ticket))
            ⊎ (R.view f (ticket_key ticket) ≡ none))
        → Without ticket d e
        → Without ticket d f

  issue_payload-other :
      (ticket : String) (payload : Option String) (d : R.Db) (key : String)
      → str_eq (ticket_key ticket) key ≡ false
      → R.view (issue_payload R json ticket payload d).0 key ≡ R.view d key
  issue_payload-other ticket none d key h = refl
  issue_payload-other ticket (some payload) d key h =
      doc.set_for_other (ticket_key ticket) payload ticket_ttl d key h

  issue-other :
      (bytes : List ℕ) (claims : TicketClaims) (d : R.Db) (key : String)
      → str_eq (ticket_key (hex bytes)) key ≡ false
      → R.view (issue R json (some bytes) claims d).0 key ≡ R.view d key
  unfolding issue
  issue-other bytes claims d key h = issue_payload-other (hex bytes) (json.marshal claims) d key h

  gone :
      (ticket : String) (d e : R.Db)
      → Without ticket d e
      → R.view d (ticket_key ticket) ≡ none
      → R.view e (ticket_key ticket) ≡ none
  unfolding redeem
  gone ticket d e rest h = h
  gone ticket d e (redeeming other w) h =
      elim (doc.get_del_other (ticket_key other) _ (ticket_key ticket)) [
        | inl p ↦ p ∙ gone ticket d _ w h
        | inr (_, p) ↦ p
      ]
  gone ticket d e (issuing bytes claims n w) h =
      issue-other bytes claims _ (ticket_key ticket) n ∙ gone ticket d _ w h
  gone ticket d e (lapsing f s w) h = elim s [ inl p ↦ p ∙ gone ticket d _ w h | inr p ↦ p ]

  -- A reply that carries claims took the key's text, and the key went with it.
  redeemed_reply :
      (ticket : String) (d : R.Db) (claims : TicketClaims) (reply : Reply String)
      → (R.get_del (ticket_key ticket) d).1 ≡ reply
      → redeem_reply R json reply ≡ redeemed claims
      → (payload : String) × (R.view d (ticket_key ticket) ≡ some (text payload))
        × (R.view (R.get_del (ticket_key ticket) d).0 (ticket_key ticket) ≡ none)
  redeemed_reply ticket d claims (answer payload) e h =
      let (before, after) = doc.get_del_answer (ticket_key ticket) payload d e in
      (payload, before, after)
  redeemed_reply ticket d claims missing e h = cc h
  redeemed_reply ticket d claims failed e h = cc h

  -- A ticket that `Redeem` turned into claims is spent: whatever other calls and replicas do after
  -- it, no `Redeem` returns claims for it again, unless an `Issue` draws the same ticket.
  pub redeem-once :
      (ticket : String) (d e : R.Db) (claims again : TicketClaims)
      → (redeem R json ticket d).1 ≡ redeemed claims
      → Without ticket (redeem R json ticket d).0 e
      → (redeem R json ticket e).1 ≢ redeemed again
  unfolding redeem
  redeem-once ticket d e claims again h w k =
      let (payload, before, after) = redeemed_reply ticket d claims _ refl h in
      let (more, there, _) = redeemed_reply ticket e again _ refl k in
      cc (gone ticket _ e w after, there)

  redeem_reply-kept :
      (ticket payload : String) (e : R.Db) (claims : TicketClaims) (reply : Reply String)
      → json.unmarshal payload ≡ some claims
      → R.view e (ticket_key ticket) ≡ some (text payload)
      → (R.get_del (ticket_key ticket) e).1 ≡ reply
      → (redeem_reply R json reply ≡ redeemed claims) ⊎ (reply ≡ failed)
  redeem_reply-kept ticket payload e claims (answer raw) j v h = inl (
      ap (λ o. claims_in R json o)
        (ap json.unmarshal (same (doc.get_del_answer (ticket_key ticket) raw e h).0 v) ∙ j))
    where
      same :
          R.view e (ticket_key ticket) ≡ some (text raw)
          → R.view e (ticket_key ticket) ≡ some (text payload)
          → raw ≡ payload
      same p q = cc (p, q)
  redeem_reply-kept ticket payload e claims missing j v h =
      cc (doc.get_del_missing (ticket_key ticket) e h, v)
  redeem_reply-kept ticket payload e claims failed j v h = inr refl

  issue_payload-redeem :
      (ticket issued : String) (payload : Option String) (claims : TicketClaims) (d e : R.Db)
      → ((p : String) → payload ≡ some p → json.unmarshal p ≡ some claims)
      → (issue_payload R json issued payload d).1 ≡ some ticket
      → R.view e (ticket_key ticket)
        ≡ R.view (issue_payload R json issued payload d).0 (ticket_key ticket)
      → ((redeem R json ticket e).1 ≡ redeemed claims) ⊎ ((redeem R json ticket e).1 ≡ redeem_error)
  unfolding redeem
  issue_payload-redeem ticket issued none claims d e j h v = cc h
  issue_payload-redeem ticket issued (some payload) claims d e j h v =
      let q = some_if _ h in
      let w =
        v
        ∙ (subst
            (λ t.
              R.view (issue_payload R json issued (some payload) d).0 (ticket_key t)
              ≡ some (text payload))
            q.1 (doc.set_for_done (ticket_key issued) payload ticket_ttl d q.0)) in
      elim (redeem_reply-kept ticket payload e claims _ (j payload refl) w refl) [
        | inl p ↦ inl p
        | inr p ↦ inr (ap (redeem_reply R json) p)
      ]
    where
      some_if :
          (b : Bool)
          → (if b then some issued else none) ≡ some ticket
          → (b ≡ true) × (issued ≡ ticket)
      some_if true k = (refl, cc k)
      some_if false k = cc k

  -- What `Issue` stored, `Redeem` reads: as long as the ticket's key keeps its value, a `Redeem` of
  -- a ticket that `Issue` returned gives the claims that were put into it, or fails with another
  -- error than `ErrUnknownTicket`, where encoding/json reads back the claims it wrote.
  pub redeem-issue :
      ((c : TicketClaims) (p : String) → json.marshal c ≡ some p → json.unmarshal p ≡ some c)
      → (bytes : List ℕ) (ticket : String) (claims : TicketClaims) (d e : R.Db)
      → (issue R json (some bytes) claims d).1 ≡ some ticket
      → R.view e (ticket_key ticket)
        ≡ R.view (issue R json (some bytes) claims d).0 (ticket_key ticket)
      → ((redeem R json ticket e).1 ≡ redeemed claims) ⊎ ((redeem R json ticket e).1 ≡ redeem_error)
  unfolding issue
  redeem-issue round bytes ticket claims d e h v =
      issue_payload-redeem ticket (hex bytes) (json.marshal claims) claims d e (round claims) h v
