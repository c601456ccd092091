-- ===== src/Api/Asking/Granting.antt =====
-- internal/api/handlers.go: what a request for a static service, and what an approval, can change.
use nebari_landing.Base.{
  if_either, if_taken, if_passed, String, ◌≡◌, ◌∙◌, refl, sym, ap, subst, ◌⊎◌, inl, inr, true,
  false, not, ◌||◌, Option, none, some, List, [], ◌++◌, append-nil, map, Bool-cases, str_eq,
  is_blank, split_slash, trim_prefix,
}
use nebari_landing.Access.{Claims}
use nebari_landing.Cache.{ServiceInfo, get}
use nebari_landing.Redis.{Redis}
use nebari_landing.Requests.{
  AccessRequest, Outcome, done, duplicate_pending, not_found, store_error, status_approved,
  status_denied,
}
use nebari_landing.Api.{
  Request, Moment, Libraries, Handler, World, Response, request, refuse, reply, require_admin,
  with_claims,
}
use nebari_landing.Api.Frame.{
  Same, Refuses, require_auth-Refuses, require_auth-Same, require_admin-Same,
}
use nebari_landing.Api.Asking.Guards.{Denied}
use nebari_landing.Api.Asking.{
  handle_admin_access_request_sub, handle_request_access, access_request_sub, groups_to_join,
  apply_keycloak_group_membership, updated, resolve, ask_for,
}

module _ (R : Redis) (lib : Libraries) (h : Handler) (m : Moment) where
  ask_static-Denied :
      (s : ServiceInfo) (found : Option ServiceInfo) (r : Request) (c : Claims) (w v : World R)
      → found ≡ some s
      → s.static ≡ true
      → Same R w v
      → Denied R lib h m w (ask_for R lib h m found r c v)
  ask_static-Denied s none r c w v g st same = cc g
  ask_static-Denied s (some t) r c w v g st same =
      let one : t ≡ s = cc g in
      subst (Denied R lib h m w)
        (sym (if_taken t.static (v, refuse 403) _ (ap (λ (u : ServiceInfo). u.static) one ∙ st)))
        (same, inl refl)

  static-Denied :
      (s : ServiceInfo) (found : World R × (Response ⊎ Claims)) (uid : String) (r : Request)
      (w : World R)
      → Same R w found.0
      → Refuses found.1
      → get uid found.0.cache ≡ some s
      → s.static ≡ true
      → Denied R lib h m w
          (with_claims R lib h m found (λ c v. ask_for R lib h m (get uid v.cache) r c v))
  static-Denied s (v, inl response) uid r w same bad g st = (same, bad)
  static-Denied s (v, inr c) uid r w same bad g st =
      ask_static-Denied s (get uid v.cache) r c w v g st same

  -- A static service is never asked for: whoever asks is refused, and no request is stored.
  pub handle_request_access-static :
      (uid : String) (s : ServiceInfo) (r : Request) (w : World R)
      → get uid w.cache ≡ some s
      → s.static ≡ true
      → Denied R lib h m w (handle_request_access R lib h m uid r w)
  unfolding handle_request_access
  handle_request_access-static uid s r w g st =
      let same : Same R w w = (refl, refl, refl, refl) in
      let kept = require_auth-Same R lib h m r w in
      if_either (Denied R lib h m w) (not (str_eq r.method "POST")) _ _ (same, inl refl)
        (if_either (Denied R lib h m w) (not h.request_store) _ _ (same, inl refl)
          (static-Denied s _ uid r w kept (require_auth-Refuses R lib h m r w)
            (ap (get uid) kept.0 ∙ g) st))

  -- No memberships were asked for, or exactly those of a service that is cached and not static, for
  -- the user of a request that the store answered with.
  abbrev pub Grants : World R → World R × Response → Type 0
  Grants w p =
      (p.0.memberships ≡ w.memberships)
      ⊎ ((req : AccessRequest) × (s : ServiceInfo) × (p.1 ≡ reply (request req))
          × (get req.service_uid w.cache ≡ some s)
          × (s.static ≡ false)
          × (p.0.memberships ≡ w.memberships ++ map (λ g. (req.user_id, g)) s.required_groups))

  Grants-Same : (w v : World R) (p : World R × Response) → Same R w v → Grants v p → Grants w p
  Grants-Same w v p (cache, db, published, members) (inl e) = inl (e ∙ members)
  Grants-Same w v p (cache, db, published, members) (inr (req, s, a, g, st, e)) = inr (
    req,
    s,
    a,
    ap (get req.service_uid) (sym cache) ∙ g,
    st,
    e ∙ ap (λ l. l ++ map (λ g. (req.user_id, g)) s.required_groups) members,
  )

  joined :
      (found : Option ServiceInfo) (user : String) (before : List (String × String))
      → (before ++ map (λ g. (user, g)) (groups_to_join R lib h m found) ≡ before)
        ⊎ ((s : ServiceInfo) × (found ≡ some s)
            × (s.static ≡ false)
            × (before ++ map (λ g. (user, g)) (groups_to_join R lib h m found)
                ≡ before ++ map (λ g. (user, g)) s.required_groups))
  joined none user before = inl (append-nil before)
  joined (some s) user before = elim (Bool-cases s.static) [
    | inl e ↦ inl (
        ap (λ l. before ++ map (λ g. (user, g)) l) (if_taken s.static [] s.required_groups e)
        ∙ append-nil before)
    | inr e ↦ inr (
      s,
      refl,
      e,
      ap (λ l. before ++ map (λ g. (user, g)) l) (if_passed s.static [] s.required_groups e),
    )
  ]

  apply-Grants :
      (req : AccessRequest) (d : R.Db) (w : World R)
      → Grants w
          (apply_keycloak_group_membership R lib h m req (record w { db = d }), reply (request req))
  unfolding apply_keycloak_group_membership
  apply-Grants req d w =
      if_either (λ v. Grants w (v, reply (request req))) h.keycloak _ _
        (elim (joined (get req.service_uid w.cache) req.user_id w.memberships) [
          | inl e ↦ inl e
          | inr (s, g, st, e) ↦ inr (req, s, refl, g, st, e)
        ])
        (inl refl)

  updated-Grants :
      (status : String) (w : World R) (found : R.Db × Outcome)
      → Grants w (updated R lib h m status w found)
  updated-Grants status w (d, done req) =
      if_either (λ v. Grants w (v, reply (request req))) (str_eq status status_approved) _ _
        (apply-Grants req d w) (inl refl)
  updated-Grants status w (d, duplicate_pending) = inl refl
  updated-Grants status w (d, not_found) = inl refl
  updated-Grants status w (d, store_error) = inl refl

  resolve-Grants :
      (id status : String) (r : Request) (c : Claims) (w : World R)
      → Grants w (resolve R lib h m id status r c w)
  resolve-Grants id status r c w =
      if_either (Grants w) (str_eq r.method "PUT") _ _ (updated-Grants status w _) (inl refl)

  sub-Grants :
      (path : String × Option String) (r : Request) (c : Claims) (w : World R)
      → Grants w (access_request_sub R lib h m path r c w)
  sub-Grants (id, none) r c w = inl refl
  sub-Grants (id, some action) r c w =
      if_either (Grants w) (is_blank id || is_blank action) _ _ (inl refl) (
        if_either (Grants w) (str_eq action "approve") _ _ (resolve-Grants id status_approved r c w)
          (if_either (Grants w) (str_eq action "deny") _ _ (resolve-Grants id status_denied r c w)
            (inl refl)))

  with_claims-Grants :
      (found : World R × (Response ⊎ Claims)) (path : String × Option String) (r : Request)
      (w : World R)
      → Same R w found.0
      → Grants w (with_claims R lib h m found (access_request_sub R lib h m path r))
  with_claims-Grants (v, inl response) path r w (cache, db, published, members) = inl members
  with_claims-Grants (v, inr c) path r w same =
      Grants-Same w v (access_request_sub R lib h m path r c v) same (sub-Grants path r c v)

  -- Resolving a request asks Keycloak for no membership, or for exactly the groups that the
  -- service of the answered request lists, for the user of that request; the service is then in
  -- the cache and not a static one.
  pub handle_admin_access_request_sub-Grants :
      (r : Request) (w : World R) → Grants w (handle_admin_access_request_sub R lib h m r w)
  unfolding handle_admin_access_request_sub
  handle_admin_access_request_sub-Grants r w =
      if_either (Grants w) h.request_store _ (w, refuse 501)
        (with_claims-Grants (require_admin R lib h m r w)
          (split_slash (trim_prefix r.path "/api/v1/admin/access-requests/")) r w
          (require_admin-Same R lib h m r w))
        (inl refl)
