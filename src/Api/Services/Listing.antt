-- ===== src/Api/Services/Listing.antt =====
-- internal/api/handlers.go: which services a caller is shown.
use nebari_landing.Base.{
  if_taken, String, ◌≡◌, ◌≢◌, ◌∙◌, refl, ap, ◌↔◌, ◌⊎◌, inl, inr, Bool, true, Option, some, List, [],
  ◌∷◌, map, Memᴰ, Bool-cases, eq_iff, str_eq, has, keep, Memᴰ-keep, Memᴰ_of_keep, IsOrdered,
  NoneLess,
}
use nebari_landing.Access.{Claims, can_access_service, groups_of}
use nebari_landing.Access.Policy.{Shares, can_access_policy_iff}
use nebari_landing.Cache.{ServiceInfo, ServiceCache, get, get_all, listed_before}
use nebari_landing.Cache.Invariant.{IsKeyed}
use nebari_landing.Cache.Listing.{get_all-lists}
use nebari_landing.Redis.{Redis}
use nebari_landing.Api.Views.{to_service_view}
use nebari_landing.Api.{
  Request, Moment, Libraries, Handler, World, Response, services, reply, Caller, warming, rejected,
  caller, claims_of, is_authenticated, extract,
}
use nebari_landing.Api.Frame.{extract-Same}
use nebari_landing.Api.Services.{visible, list_for, handle_get_services}

NoneLess-keep :
    {A : Type 0} (less : A → A → Bool) (p : A → Bool) (x : A) (l : List A)
    → NoneLess less x l
    → NoneLess less x (keep p l)
unfolding keep
NoneLess-keep less p x [] h = tt
NoneLess-keep less p x (y ∷ l) h = elim (Bool-cases (p y)) [
  | inl e ↦ rw e (h.0, NoneLess-keep less p x l h.1)
  | inr e ↦ rw e (NoneLess-keep less p x l h.1)
]

IsOrdered-keep :
    {A : Type 0} (less : A → A → Bool) (p : A → Bool) (l : List A)
    → IsOrdered less l
    → IsOrdered less (keep p l)
unfolding keep
IsOrdered-keep less p [] h = tt
IsOrdered-keep less p (y ∷ l) h = elim (Bool-cases (p y)) [
  | inl e ↦ rw e (NoneLess-keep less p y l h.0, IsOrdered-keep less p l h.1)
  | inr e ↦ rw e (IsOrdered-keep less p l h.1)
]

pub map-Memᴰ : {A B : Type 0} (f : A → B) (l : List A) (a : A) → Memᴰ a l → Memᴰ (f a) (map f l)
map-Memᴰ f [] a m = elim m [ ]
map-Memᴰ f (x ∷ l) a (Memᴰ.head e) = Memᴰ.head (ap f e)
map-Memᴰ f (x ∷ l) a (Memᴰ.tail m) = Memᴰ.tail (map-Memᴰ f l a m)

-- Whom a service is shown to: everyone if it is public, and otherwise an authenticated caller in
-- one of its groups, if it has any.
abbrev pub MaySee : Bool → Option Claims → ServiceInfo → Type 0
MaySee authenticated claims s =
    (s.visibility ≡ "public")
    ⊎ ((authenticated ≡ true)
        × ((s.required_groups ≡ []) ⊎ Shares (groups_of claims) s.required_groups))

module _ (R : Redis) (lib : Libraries) (h : Handler) (m : Moment) where
  -- The services that a listing of a cache shows.
  pub shown_iff :
      (c : ServiceCache) (authenticated : Bool) (claims : Option Claims) (s : ServiceInfo)
      → IsKeyed c
      → Memᴰ s (keep (λ t. can_access_service t authenticated claims) (get_all c))
        ↔ ((get s.uid c ≡ some s) × MaySee authenticated claims s)
  unfolding can_access_service
  shown_iff c authenticated claims s v =
      let see =
        can_access_policy_iff s.visibility authenticated s.required_groups (groups_of claims) in
      let ok = λ (t : ServiceInfo). can_access_service t authenticated claims in
      let (_, lists) = get_all-lists c v in
      (
        (λ n. let (k, a) = Memᴰ_of_keep ok (get_all c) s n in ((lists s).0 k, see.0 a)),
        (λ (k, a). Memᴰ-keep ok (get_all c) s ((lists s).1 k) (see.1 a)),
      )

  -- The listing that a known caller gets.
  list_for-lists :
      (w : World R) (c : Caller)
      → c ≢ warming
      → (pinned : List String) × ((list_for R lib h m (w, c)).1
          ≡ reply (
              services
                (visible R lib h m (claims_of c) (is_authenticated c) pinned (get_all w.cache))))
  list_for-lists w warming n = absurd (n refl)
  list_for-lists w rejected n = (_, refl)
  list_for-lists w (caller claims authenticated) n = (_, refl)

  -- A GET of the services answers, unless the validator is still warming up, with views of exactly
  -- the cached services that the caller may see, no service before one of smaller priority, or of
  -- the same priority and a smaller name.
  pub handle_get_services-lists :
      (r : Request) (w : World R)
      → r.method ≡ "GET"
      → IsKeyed w.cache
      → (extract R lib h m r w).1 ≢ warming
      → (l : List ServiceInfo) × (pinned : List String) × ((handle_get_services R lib h m r w).1
          ≡ reply (services (map (λ s. to_service_view s (has s.uid pinned)) l)))
        × IsOrdered listed_before l
        × ((s : ServiceInfo)
            → Memᴰ s l ↔ (
                (get s.uid w.cache ≡ some s)
                × MaySee
                    (is_authenticated (extract R lib h m r w).1)
                    (claims_of (extract R lib h m r w).1)
                    s))
  unfolding handle_get_services visible
  handle_get_services-lists r w g v n =
      let kept = (extract-Same R lib h m r w).0 in
      let c = (extract R lib h m r w).1 in
      let (pinned, e) = list_for-lists (extract R lib h m r w).0 c n in
      let ok = λ (t : ServiceInfo). can_access_service t (is_authenticated c) (claims_of c) in
      (
        keep ok (get_all w.cache),
        pinned,
        ap (λ (p : World R × Response). p.1)
              (if_taken (str_eq r.method "GET") _ _ ((eq_iff r.method "GET").1 g))
            ∙ (e
                ∙ ap
                    (λ k. reply (
                      services
                        (visible R lib h m (claims_of c) (is_authenticated c) pinned (get_all k))))
                    kept),
        IsOrdered-keep listed_before ok (get_all w.cache) (get_all-lists w.cache v).0,
        (λ s. shown_iff w.cache (is_authenticated c) (claims_of c) s v),
      )
