-- ===== src/Hub/Events.antt =====
-- `dispatch`: which clients each kind of frame reaches.
use nebari_landing.Base.{
  String, ◌≡◌, ◌≢◌, refl, ◌⊎◌, inl, inr, Bool, true, false, not, Option, none, some, ◌++◌,
  if◌then◌else◌, Bool-cases, eq_iff, str_eq, is_blank, keep,
}
use nebari_landing.Cache.{ServiceInfo}
use nebari_landing.Notification.{Notification}
use nebari_landing.Hub.{
  Client, Hub, AccessPolicy, Codec, event_notification_create, allows, is_service_type, proxy_of,
  broadcast_service, broadcast_notification, broadcast_all, dispatch, deliver, warn_if_nil,
}
use nebari_landing.Hub.Delivery.{
  DistinctConns, frames, failing, sent-deliver, clients-deliver, policy-deliver,
}

-- `h'` is `h` after one frame was written to each registered client that is `allowed`: the log
-- grows by one entry for each of those whose write succeeds, in order, those whose write fails are
-- dropped, and all other clients stay.
pub record IsDelivered (writes : Client → Bool) (raw : String) (allowed : Client → Bool)
    (h h' : Hub) : Type 0 where
  pub sent_exact : h'.sent ≡ h.sent ++ frames writes raw allowed h.clients
  pub clients_exact : h'.clients ≡ keep (λ c. not (failing writes raw allowed c)) h.clients
  pub policy_kept : h'.policy ≡ h.policy

module _ (writes : Client → Bool) (raw : String) where
  deliver-IsDelivered :
      (allowed : Client → Bool) (h : Hub)
      → DistinctConns h.clients
      → IsDelivered writes raw allowed h (deliver writes raw allowed h.clients h)
  deliver-IsDelivered allowed h u = record {
    sent_exact = sent-deliver writes raw allowed h.clients h;
    clients_exact = clients-deliver writes raw allowed h u;
    policy_kept = policy-deliver writes raw allowed h.clients h;
  }

  warned-IsDelivered :
      (allowed : Client → Bool) (h : Hub)
      → DistinctConns h.clients
      → IsDelivered writes raw allowed h
          (deliver writes raw allowed h.clients (record h { warned = true }))
  warned-IsDelivered allowed h u =
      let d = deliver-IsDelivered allowed (record h { warned = true }) u in
      record {
        sent_exact = d.sent_exact;
        clients_exact = d.clients_exact;
        policy_kept = d.policy_kept;
      }

  broadcast_service-IsDelivered :
      (service : ServiceInfo) (h : Hub)
      → DistinctConns h.clients
      → IsDelivered writes raw (allows h.policy service) h (broadcast_service writes service raw h)
  unfolding broadcast_service
  broadcast_service-IsDelivered service h u = by_policy h.policy
    where
      by_policy :
          (p : Option AccessPolicy)
          → IsDelivered writes raw
              (allows p service)
              h
              (deliver writes raw (allows p service) h.clients (warn_if_nil p h))
      by_policy none = warned-IsDelivered (λ c. true) h u
      by_policy (some p) = deliver-IsDelivered (allows (some p) service) h u

  -- Who may be sent a notification: everyone where it is not tied to a service, and otherwise who
  -- may see that service.
  abbrev pub addressed : Option AccessPolicy → Notification → Client → Bool
  addressed policy n c = if is_blank n.service_uid then true else allows policy (proxy_of n) c

  broadcast_notification-IsDelivered :
      (n : Notification) (h : Hub)
      → DistinctConns h.clients
      → IsDelivered writes raw (addressed h.policy n) h (broadcast_notification writes n raw h)
  unfolding broadcast_notification
  broadcast_notification-IsDelivered n h u = by_cases (is_blank n.service_uid) h.policy
    where
      by_cases :
          (b : Bool) (p : Option AccessPolicy)
          → IsDelivered writes raw
              (λ c. if b then true else allows p (proxy_of n) c)
              h
              (if b
                then deliver writes raw (λ c. true) h.clients h
                else deliver writes raw (allows p (proxy_of n)) h.clients (warn_if_nil p h))
      by_cases true p = deliver-IsDelivered (λ c. true) h u
      by_cases false none = warned-IsDelivered (λ c. true) h u
      by_cases false (some p) = deliver-IsDelivered (allows (some p) (proxy_of n)) h u

module _ (codec : Codec) (writes : Client → Bool) (raw : String) (h : Hub) where
  -- A service event reaches exactly the registered clients that the policy lets see its service
  -- (all of them where no policy is set) and whose connection takes the frame.
  pub dispatch_service_event :
      (t : String) (service : ServiceInfo)
      → DistinctConns h.clients
      → codec.envelope_type raw ≡ some t
      → is_service_type t ≡ true
      → codec.service_event raw ≡ some (some service)
      → IsDelivered writes raw (allows h.policy service) h (dispatch codec writes raw h)
  unfolding dispatch
  dispatch_service_event t service u e k d =
      rw (e, k, d) (broadcast_service-IsDelivered writes raw service h u)

  not_service : is_service_type event_notification_create ≡ false
  not_service = refl

  -- A notification reaches everyone if it is not tied to a service, and else exactly the clients
  -- that the policy lets see a service of its visibility and groups.
  pub dispatch_notification_event :
      (n : Notification)
      → DistinctConns h.clients
      → codec.envelope_type raw ≡ some event_notification_create
      → codec.notification_event raw ≡ some (some n)
      → IsDelivered writes raw (addressed writes raw h.policy n) h (dispatch codec writes raw h)
  unfolding dispatch
  dispatch_notification_event n u e d =
      rw (e, d) (broadcast_notification-IsDelivered writes raw n h u)

  -- A frame of a type that this hub does not know reaches everyone.
  pub dispatch_unknown_type :
      (t : String)
      → DistinctConns h.clients
      → codec.envelope_type raw ≡ some t
      → is_service_type t ≡ false
      → t ≢ event_notification_create
      → IsDelivered writes raw (λ c. true) h (dispatch codec writes raw h)
  unfolding dispatch broadcast_all
  dispatch_unknown_type t u e k n =
      rw (e, k, other t n) (deliver-IsDelivered writes raw (λ c. true) h u)
    where
      other :
          (t : String) → t ≢ event_notification_create → str_eq t event_notification_create ≡ false
      other t n = elim (Bool-cases (str_eq t event_notification_create)) [
        | inl q ↦ absurd (n ((eq_iff t event_notification_create).0 q))
        | inr q ↦ q
      ]

  -- What encoding/json does not read as an event with its subject.
  pub data IsMalformed : Type 0 where
    no_type : codec.envelope_type raw ≡ none → IsMalformed
    bad_event :
        (t : String)
        → codec.envelope_type raw ≡ some t
        → is_service_type t ≡ true
        → (codec.service_event raw ≡ none) ⊎ (codec.service_event raw ≡ some none)
        → IsMalformed
    bad_notification :
        codec.envelope_type raw ≡ some event_notification_create
        → (codec.notification_event raw ≡ none) ⊎ (codec.notification_event raw ≡ some none)
        → IsMalformed

  -- A malformed frame, or an event without its subject, changes nothing and reaches nobody.
  pub dispatch_malformed : IsMalformed → dispatch codec writes raw h ≡ h
  unfolding dispatch
  dispatch_malformed (no_type e) = rw e
  dispatch_malformed (bad_event t e k (inl d)) = rw (e, k, d)
  dispatch_malformed (bad_event t e k (inr d)) = rw (e, k, d)
  dispatch_malformed (bad_notification e (inl d)) = rw (e, d)
  dispatch_malformed (bad_notification e (inr d)) = rw (e, d)
