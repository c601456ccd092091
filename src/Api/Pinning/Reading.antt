-- ===== src/Api/Pinning/Reading.antt =====
-- internal/api/handlers.go: which services a list of pins shows.
use nebari_landing.Base.{
  String, ◌≡◌, ◌∙◌, refl, sym, ap, ◌↔◌, ◌⊎◌, inl, inr, true, Option, none, some, List, [], ◌∷◌,
  Memᴰ, Bool-cases,
}
use nebari_landing.Access.{Claims, can_access_service}
use nebari_landing.Cache.{ServiceInfo, ServiceCache, get}
use nebari_landing.Cache.Invariant.{IsKeyed}
use nebari_landing.Redis.{Redis}
use nebari_landing.Api.{Moment, Libraries, Handler}
use nebari_landing.Api.Pinning.{add_accessible, accessible}

module _ (R : Redis) (lib : Libraries) (h : Handler) (m : Moment) where
  abbrev Shows : ServiceCache → Claims → List String → ServiceInfo → Type 0
  Shows cache c uids s =
      Memᴰ s.uid uids × (get s.uid cache ≡ some s) × (can_access_service s true (some c) ≡ true)

  head_shown :
      (cache : ServiceCache) (c : Claims) (uid : String) (s : ServiceInfo)
      → (found : Option ServiceInfo) (rest : List ServiceInfo) → IsKeyed cache
      → get uid cache ≡ found
      → Memᴰ s (add_accessible R lib h m c found rest)
      → Memᴰ s rest
        ⊎ ((s.uid ≡ uid) × (get s.uid cache ≡ some s) × (can_access_service s true (some c) ≡ true))
  unfolding get
  head_shown cache c uid s none rest k g mem = inl mem
  head_shown cache c uid s (some t) rest k g mem =
      elim (Bool-cases (can_access_service t true (some c))) [
        | inl e ↦ split (rw e at mem) e
        | inr e ↦ inl (rw e at mem)
      ]
    where
      split :
          Memᴰ s (t ∷ rest)
          → can_access_service t true (some c) ≡ true
          → Memᴰ s rest
            ⊎ ((s.uid ≡ uid)
                × (get s.uid cache ≡ some s)
                × (can_access_service s true (some c) ≡ true))
      split (Memᴰ.tail n) e = inl n
      split (Memᴰ.head q) e =
          let own = k.own_uid uid t g in
          inr (ap (λ (u : ServiceInfo). u.uid) q ∙ own, cc (g, q, own), cc (e, q))

  accessible_sound :
      (cache : ServiceCache) (c : Claims) (uids : List String) (s : ServiceInfo)
      → IsKeyed cache
      → Memᴰ s (accessible R lib h m cache c uids)
      → Shows cache c uids s
  unfolding accessible
  accessible_sound cache c [] s k mem = elim mem [ ]
  accessible_sound cache c (uid ∷ uids) s k mem =
      elim (head_shown cache c uid s (get uid cache) (accessible R lib h m cache c uids) k refl
        mem) [
          | inl n ↦ let (i, g, a) = accessible_sound cache c uids s k n in (Memᴰ.tail i, g, a)
          | inr (i, g, a) ↦ (Memᴰ.head i, g, a)
        ]

  accessible_complete :
      (cache : ServiceCache) (c : Claims) (uids : List String) (s : ServiceInfo)
      → Shows cache c uids s
      → Memᴰ s (accessible R lib h m cache c uids)
  unfolding accessible
  accessible_complete cache c [] s (i, g, a) = elim i [ ]
  accessible_complete cache c (uid ∷ uids) s (Memᴰ.head e, g, a) =
      here (get uid cache) (cc (ap (λ u. get u cache) e, g)) (accessible R lib h m cache c uids)
    where
      here :
          (found : Option ServiceInfo)
          → found ≡ some s
          → (rest : List ServiceInfo) → Memᴰ s (add_accessible R lib h m c found rest)
      here none q rest = cc q
      here (some t) q rest =
          let one : s ≡ t = cc q in
          rw (ap (λ u. can_access_service u true (some c)) (sym one) ∙ a) (Memᴰ.head one)
  accessible_complete cache c (uid ∷ uids) s (Memᴰ.tail i, g, a) =
      later (get uid cache) _ (accessible_complete cache c uids s (i, g, a))
    where
      later :
          (found : Option ServiceInfo) (rest : List ServiceInfo)
          → Memᴰ s rest
          → Memᴰ s (add_accessible R lib h m c found rest)
      later none rest n = n
      later (some t) rest n = elim (Bool-cases (can_access_service t true (some c))) [
        | inl e ↦ rw e (Memᴰ.tail n)
        | inr e ↦ rw e n
      ]

  -- The pins that a user is shown are exactly the pinned services that are still in the cache and
  -- that the user may see as an authenticated caller.
  pub accessible_iff :
      (cache : ServiceCache) (c : Claims) (uids : List String) (s : ServiceInfo)
      → IsKeyed cache
      → Memᴰ s (accessible R lib h m cache c uids) ↔ (
          Memᴰ s.uid uids
          × (get s.uid cache ≡ some s)
          × (can_access_service s true (some c) ≡ true))
  accessible_iff cache c uids s k =
      (accessible_sound cache c uids s k, accessible_complete cache c uids s)
