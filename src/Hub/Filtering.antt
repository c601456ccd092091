-- ===== src/Hub/Filtering.antt =====
-- One frame is written only to clients that the access policy lets see it.
use nebari_landing.Base.{
  ℕ, String, ◌≡◌, ◌∙◌, refl, sym, ap, subst, ◌⊎◌, inl, inr, Bool, true, false, not, Option, none,
  some, List, [], ◌∷◌, ◌++◌, Memᴰ, arith, if◌then◌else◌, Bool-cases, Option-cases, eq_iff, str_eq,
  is_blank, keep, Memᴰ_of_keep, Memᴰ-map,
}
use nebari_landing.Cache.{ServiceInfo}
use nebari_landing.Notification.{Notification}
use nebari_landing.Hub.{
  Client, Hub, AccessPolicy, Codec, event_notification_create, allows, is_service_type, proxy_of,
  broadcast_service, broadcast_notification, broadcast_all, dispatch, deliver, warn_if_nil,
}
use nebari_landing.Hub.Delivery.{
  frames, reached, loses, sent-deliver, clients-deliver_from, policy-deliver,
}

module _ (codec : Codec) (p : AccessPolicy) where
  -- The policy lets the client see what the frame is about, if it is about a service.
  pub record MayRead (raw : String) (c : Client) : Type 0 where
    pub event :
        (t : String) (s : ServiceInfo)
        → codec.envelope_type raw ≡ some t
        → is_service_type t ≡ true
        → codec.service_event raw ≡ some (some s)
        → p s c.principal ≡ true
    pub notice :
        (n : Notification)
        → codec.envelope_type raw ≡ some event_notification_create
        → codec.notification_event raw ≡ some (some n)
        → is_blank n.service_uid ≡ false
        → p (proxy_of n) c.principal ≡ true

  -- One step of the hub: it writes `raw` to clients that may read it, adds no client, and keeps
  -- the policy.
  pub record IsFiltered (raw : String) (h h' : Hub) : Type 0 where
    pub wrote :
        (f : ℕ × String)
        → Memᴰ f h'.sent
        → Memᴰ f h.sent ⊎ ((c : Client) × Memᴰ c h.clients × (f ≡ (c.conn, raw)) × MayRead raw c)
    pub stayed : (c : Client) → Memᴰ c h'.clients → Memᴰ c h.clients
    pub policy_kept : h'.policy ≡ h.policy

  module _ (writes : Client → Bool) (raw : String) where
    unchanged : (h : Hub) → IsFiltered raw h h
    unchanged h = record { wrote = λ f m. inl m; stayed = λ c m. m; policy_kept = refl }

    split_append : {A : Type 0} (x : A) (l m : List A) → Memᴰ x (l ++ m) → Memᴰ x l ⊎ Memᴰ x m
    split_append x [] m k = inr k
    split_append x (y ∷ l) m (Memᴰ.head e) = inl (Memᴰ.head e)
    split_append x (y ∷ l) m (Memᴰ.tail k) = elim (split_append x l m k) [
      | inl a ↦ inl (Memᴰ.tail a)
      | inr b ↦ inr b
    ]

    deliver-IsFiltered :
        (allowed : Client → Bool) (h g : Hub)
        → g.sent ≡ h.sent
        → g.clients ≡ h.clients
        → g.policy ≡ h.policy
        → ((c : Client) → allowed c ≡ true → MayRead raw c)
        → IsFiltered raw h (deliver writes raw allowed h.clients g)
    deliver-IsFiltered allowed h g es ec ep may = record {
      wrote = λ f m. new_frame f (
          split_append f h.sent (frames writes raw allowed h.clients) (
            subst (Memᴰ f)
              (sent-deliver writes raw allowed h.clients g
                ∙ ap (λ s. s ++ frames writes raw allowed h.clients) es)
              m));
      stayed = λ c m. subst (Memᴰ c) ec (
          (Memᴰ_of_keep (λ d. not (loses writes raw allowed h.clients d)) g.clients c
            (subst (Memᴰ c) (clients-deliver_from writes raw allowed h.clients g) m)).0);
      policy_kept = policy-deliver writes raw allowed h.clients g ∙ ep;
    }
      where
        new_frame :
            (f : ℕ × String)
            → Memᴰ f h.sent ⊎ Memᴰ f (frames writes raw allowed h.clients)
            → Memᴰ f h.sent
              ⊎ ((c : Client) × Memᴰ c h.clients × (f ≡ (c.conn, raw)) × MayRead raw c)
        new_frame f (inl m) = inl m
        new_frame f (inr m) =
            let (c, n, e) =
              Memᴰ-map (λ (c : Client). (c.conn, raw)) (keep (reached writes raw allowed) h.clients)
                f m in
            let (k, r) = Memᴰ_of_keep (reached writes raw allowed) h.clients c n in
            inr (c, k, e, may c (ground arith))

    IsFiltered-by :
        (q : Option AccessPolicy) (s : ServiceInfo) (h : Hub)
        → q ≡ some p
        → h.policy ≡ q
        → ((c : Client) → p s c.principal ≡ true → MayRead raw c)
        → IsFiltered raw h (deliver writes raw (allows q s) h.clients (warn_if_nil q h))
    unfolding warn_if_nil
    IsFiltered-by none s h e k may = cc
    IsFiltered-by (some q) s h e k may =
        deliver-IsFiltered (allows (some q) s) h h refl refl refl
          (λ c a. may c (ap (λ r. r s c.principal) (same q e) ∙ a))
      where
        same : (q : AccessPolicy) → ◌≡◌ {A = Option AccessPolicy} (some q) (some p) → p ≡ q
        same q e = cc

    service-IsFiltered :
        (t : String) (s : ServiceInfo) (h : Hub)
        → h.policy ≡ some p
        → codec.envelope_type raw ≡ some t
        → is_service_type t ≡ true
        → codec.service_event raw ≡ some (some s)
        → IsFiltered raw h (broadcast_service writes s raw h)
    unfolding broadcast_service
    service-IsFiltered t s h installed e k d = IsFiltered-by h.policy s h installed refl λ c a.
        record {
          event = λ u r e' k' d'. ap (λ x. p x c.principal) (same_service r d') ∙ a;
          notice = λ n e' d' b. absurd (clash k e');
        }
      where
        same_service : (r : ServiceInfo) → codec.service_event raw ≡ some (some r) → r ≡ s
        same_service r d' = cc

        not_create :
            codec.envelope_type raw ≡ some event_notification_create → t ≡ event_notification_create
        not_create e' = cc

        clash :
            is_service_type t ≡ true → codec.envelope_type raw ≡ some event_notification_create → ⊥
        clash k e' = cc (k, ap is_service_type (not_create e'))

    all-IsFiltered :
        (h : Hub) → ((c : Client) → MayRead raw c) → IsFiltered raw h (broadcast_all writes raw h)
    unfolding broadcast_all
    all-IsFiltered h may = deliver-IsFiltered (λ c. true) h h refl refl refl (λ c a. may c)

    notification-IsFiltered :
        (n : Notification) (h : Hub)
        → h.policy ≡ some p
        → codec.envelope_type raw ≡ some event_notification_create
        → codec.notification_event raw ≡ some (some n)
        → IsFiltered raw h (broadcast_notification writes n raw h)
    unfolding broadcast_notification
    notification-IsFiltered n h installed e d = by_tag (is_blank n.service_uid) refl
      where
        same_notice : (m : Notification) → codec.notification_event raw ≡ some (some m) → m ≡ n
        same_notice m d' = cc

        not_event : (t : String) → codec.envelope_type raw ≡ some t → t ≡ event_notification_create
        not_event t e' = cc

        clash : (t : String) → codec.envelope_type raw ≡ some t → is_service_type t ≡ true → ⊥
        clash t e' k = cc (k, ap is_service_type (not_event t e'))

        by_tag :
            (b : Bool)
            → is_blank n.service_uid ≡ b
            → IsFiltered raw h (
                if b
                then deliver writes raw (λ c. true) h.clients h
                else deliver writes raw
                    (allows h.policy (proxy_of n))
                    h.clients
                    (warn_if_nil h.policy h))
        by_tag true b =
            deliver-IsFiltered (λ c. true) h h refl refl refl
              λ c a. record {
                event = λ t s e' k d'. absurd (clash t e' k);
                notice =
                    λ m e' d' f. cc (ap (λ x. is_blank x.service_uid) (same_notice m d'), b, f);
              }
        by_tag false b = IsFiltered-by h.policy (proxy_of n) h installed refl λ c a. record {
          event = λ t s e' k d'. absurd (clash t e' k);
          notice = λ m e' d' f. ap (λ x. p (proxy_of x) c.principal) (same_notice m d') ∙ a;
        }

    unknown_may :
        (t : String)
        → codec.envelope_type raw ≡ some t
        → is_service_type t ≡ false
        → str_eq t event_notification_create ≡ false
        → (c : Client) → MayRead raw c
    unknown_may t e k q c = record {
      event = λ u s e' k' d. cc (k, k', ap is_service_type (same_type u e'));
      notice = λ n e' d f. cc (
        q,
        (eq_iff t event_notification_create).1 (sym (same_type event_notification_create e')),
      );
    }
      where
        same_type : (u : String) → codec.envelope_type raw ≡ some u → u ≡ t
        same_type u e' = cc

    -- With the policy `p` installed, a frame is written only to clients that may read it.
    pub dispatch-IsFiltered :
        (h : Hub) → h.policy ≡ some p → IsFiltered raw h (dispatch codec writes raw h)
    unfolding dispatch
    dispatch-IsFiltered h installed = elim (Option-cases (codec.envelope_type raw)) [
      | inl e ↦ rw e (unchanged h)
      | inr (t, e) ↦ elim (Bool-cases (is_service_type t)) [
        | inl k ↦ elim (Option-cases (codec.service_event raw)) [
          | inl d ↦ rw (e, k, d) (unchanged h)
          | inr (none, d) ↦ rw (e, k, d) (unchanged h)
          | inr (some s, d) ↦ rw (e, k, d) (service-IsFiltered t s h installed e k d)
        ]
        | inr k ↦ elim (Bool-cases (str_eq t event_notification_create)) [
          | inl q ↦
              let create : codec.envelope_type raw ≡ some event_notification_create =
                e ∙ ap some ((eq_iff t event_notification_create).0 q) in
              elim (Option-cases (codec.notification_event raw)) [
                | inl d ↦ rw (e, k, q, d) (unchanged h)
                | inr (none, d) ↦ rw (e, k, q, d) (unchanged h)
                | inr (some n, d) ↦ rw (e, k, q, d) (notification-IsFiltered n h installed create d)
              ]
          | inr q ↦ rw (e, k, q) (all-IsFiltered h λ c. unknown_may t e k q c)
        ]
      ]
    ]
