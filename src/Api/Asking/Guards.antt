-- ===== src/Api/Asking/Guards.antt =====
-- internal/api/handlers.go: what a caller who is no administrator, and what an approval, can change.
use nebari_landing.Base.{
  ℤ, if_either, ℕ, String, ◌≡◌, refl, subst, ◌⊎◌, inl, inr, not, Memᴰ, Bool-cases, str_eq,
}
use nebari_landing.Access.{Claims, is_admin}
use nebari_landing.Access.Policy.{SameGroup, is_admin_iff}
use nebari_landing.Redis.{Redis}
use nebari_landing.Api.{
  Request, Moment, Libraries, Handler, World, Response, refuse, require_auth, require_admin,
  admin_only, with_claims,
}
use nebari_landing.Api.Frame.{Same, IsRefused, Refuses, require_auth-Refuses, require_admin-Same}
use nebari_landing.Api.Notices.{handle_admin_create_notification}
use nebari_landing.Api.Asking.{handle_admin_list_access_requests, handle_admin_access_request_sub}

module _ (R : Redis) (lib : Libraries) (h : Handler) (m : Moment) where
  -- Nobody whom the request may be from is in the admin group.
  abbrev pub NotAdmin : Request → World R → Type 0
  NotAdmin r w =
      (c : Claims) (g : String)
      → (require_auth R lib h m r w).1 ≡ inr c
      → Memᴰ g c.groups
      → ¬ SameGroup g h.admin_group

  -- The call refuses, and leaves everything but the validator as it was.
  abbrev pub Denied : World R → World R × Response → Type 0
  Denied w p = Same R w p.0 × IsRefused p.1

  admin_only-IsRefused :
      (found : Response ⊎ Claims)
      → Refuses found
      → ((c : Claims) (g : String) → found ≡ inr c → Memᴰ g c.groups → ¬ SameGroup g h.admin_group)
      → (response : Response) × (admin_only R lib h m found ≡ inl response) × IsRefused response
  admin_only-IsRefused (inl response) bad n = (response, refl, bad)
  admin_only-IsRefused (inr c) bad n = elim (Bool-cases (is_admin h.admin_group c)) [
    | inl e ↦
        let (g, mem, same) = (is_admin_iff h.admin_group c).0 e in absurd (n c g refl mem same)
    | inr e ↦ (refuse 403, rw e refl, inl refl)
  ]

  with_claims-Denied :
      (w : World R) (found : World R × (Response ⊎ Claims))
      → (go : Claims → World R → World R × Response) → Same R w found.0
      → (response : Response) × (found.1 ≡ inl response) × IsRefused response
      → Denied w (with_claims R lib h m found go)
  with_claims-Denied w (v, inl response) go same (x, e, bad) =
      let q : x ≡ response = cc e in (same, subst IsRefused q bad)
  with_claims-Denied w (v, inr c) go same (x, e, bad) = cc e

  admin-Denied :
      (r : Request) (w : World R) (go : Claims → World R → World R × Response)
      → NotAdmin r w
      → Denied w (with_claims R lib h m (require_admin R lib h m r w) go)
  unfolding require_admin
  admin-Denied r w go n =
      with_claims-Denied w _ go (require_admin-Same R lib h m r w)
        (admin_only-IsRefused _ (require_auth-Refuses R lib h m r w) n)

  -- A caller who is not in the admin group gets nothing from the three admin routes: each refuses,
  -- shows no request and no notification, and leaves the cache, the stores, the published events
  -- and the group memberships as they were.
  pub handle_admin-Denied :
      (retention : ℤ) (r : Request) (w : World R)
      → NotAdmin r w
      → Denied w (handle_admin_list_access_requests R lib h m r w)
        × Denied w (handle_admin_access_request_sub R lib h m r w)
        × Denied w (handle_admin_create_notification R lib h m retention r w)
  unfolding handle_admin_list_access_requests handle_admin_access_request_sub
      handle_admin_create_notification
  handle_admin-Denied retention r w n =
      let same : Same R w w = (refl, refl, refl, refl) in
      let refused : (status : ℕ) → Denied w (w, refuse status) = λ status. (same, inl refl) in
      (
        if_either (Denied w) (not (str_eq r.method "GET")) _ _ (refused 405)
            (if_either (Denied w) (not h.request_store) _ _ (refused 501) (admin-Denied r w _ n)),
        if_either (Denied w) h.request_store _ _ (admin-Denied r w _ n) (refused 501),
        if_either (Denied w) (not h.notification_store) _ _ (refused 501) (
            if_either (Denied w) (not (str_eq r.method "POST")) _ _ (refused 405)
              (admin-Denied r w _ n)),
      )
