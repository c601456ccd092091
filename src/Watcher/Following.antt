-- ===== src/Watcher/Following.antt =====
-- internal/watcher/watcher.go: the cache follows the cluster.
use nebari_landing.Base.{
  String, ◌≡◌, ◌∙◌, refl, ap, Bool, true, false, not, ◌&&◌, ◌||◌, Option, none, some, List,
  Bool-cases, is_some, if◌then◌else◌, if_either, if_taken, str_eq, has, inl, inr,
}
use nebari_landing.App.{App, LandingPage}
use nebari_landing.Probe.{TargetRules}
use nebari_landing.Grant.{with_consent}
use nebari_landing.Cache.{ServiceInfo, get, remove, listed}
use nebari_landing.Cache.Updates.{get-remove, get-add}
use nebari_landing.Notification.{Notification, Draft}
use nebari_landing.Watcher.Reading.{
  Objects, lp_enabled, page_of, read_app, to_app, with_status, spec_page, discovered,
}
use nebari_landing.Watcher.{
  Outlets, Watcher, posted_as, post_draft, post_notif, publish, announce_arrival, after_removal,
  forget, store_app, arrive, modify, update_object, publish_known, refresh,
}

-- The worlds before and after hold the same cache.
abbrev KeepsCache : Watcher → Watcher → Type 0
KeepsCache w v = v.cache ≡ w.cache

module _ (outlets : Outlets) where
  posted_as-cache :
      (n : Option Notification) (w : Watcher) → (posted_as outlets n w).cache ≡ w.cache
  posted_as-cache none w = refl
  posted_as-cache (some n) w = refl

  post_draft-cache :
      (create : Option (Draft → Option Notification)) (d : Draft) (w : Watcher)
      → (post_draft outlets create d w).cache ≡ w.cache
  post_draft-cache none d w = refl
  post_draft-cache (some create) d w = posted_as-cache (create d) w

  publish-cache :
      (kind : String) (s : Option ServiceInfo) (w : Watcher)
      → (publish outlets kind s w).cache ≡ w.cache
  unfolding publish
  publish-cache kind s w = if_either (KeepsCache w) outlets.publisher _ _ refl refl

  announce_arrival-cache :
      (name : String) (s : Option ServiceInfo) (w : Watcher)
      → (announce_arrival outlets name s w).cache ≡ w.cache
  unfolding announce_arrival post_notif
  announce_arrival-cache name s w = post_draft-cache outlets.create_draft _ w

  after_removal-cache :
      (s : Option ServiceInfo) (w : Watcher) → (after_removal outlets s w).cache ≡ w.cache
  unfolding post_notif
  after_removal-cache none w = refl
  after_removal-cache (some s) w =
      post_draft-cache outlets.create_draft _ (publish outlets "deleted" (some s) w)
      ∙ publish-cache "deleted" (some s) w

  pub forget-cache :
      (uid : String) (w : Watcher) → (forget outlets uid w).cache ≡ remove uid w.cache
  unfolding forget
  forget-cache uid w = after_removal-cache (get uid w.cache) _

  publish_known-cache :
      (s : Option ServiceInfo) (w : Watcher) → (publish_known outlets s w).cache ≡ w.cache
  publish_known-cache none w = refl
  publish_known-cache (some s) w = publish-cache "modified" (some s) w

-- The app that is read has the object's UID, and a landing page exactly if the object enables it.
with_consent-keeps :
    (K : Objects) (grants : String → Option (List K.Value)) (a : App)
    → ((with_consent K.fields grants a).uid ≡ a.uid)
      × ((with_consent K.fields grants a).landing_page ≡ a.landing_page)
unfolding with_consent
with_consent-keeps K grants a =
    if_either (λ (b : App). (b.uid ≡ a.uid) × (b.landing_page ≡ a.landing_page)) _ _ _ (refl, refl)
      (refl, refl)

listed-page :
    (a : App) (page : LandingPage)
    → a.landing_page ≡ some page
    → page.enabled ≡ true
    → listed a ≡ some page
unfolding listed
listed-page a page e on =
    ap {B = Option LandingPage}
      (λ q. elim q [ none ↦ none | some lp ↦ if lp.enabled then some lp else none ]) e
    ∙ if_taken page.enabled (some page) none on

page_of-enabled :
    (K : Objects) (o : K.Obj)
    → lp_enabled K o ≡ true
    → (page : LandingPage) × (page_of K o ≡ some page) × (page.enabled ≡ true)
unfolding page_of with_status spec_page
page_of-enabled K o on = (
  _,
  if_taken (lp_enabled K o) _ none on,
  if_either (λ (p : LandingPage). p.enabled ≡ true) (discovered K o) _ _ refl refl,
)

present :
    (b : Bool) (s : ServiceInfo) (old : Option ServiceInfo)
    → is_some (if b then some s else old) ≡ (b || is_some old)
present true s old = refl
present false s old = refl

absent :
    (b : Bool) (old : Option ServiceInfo)
    → is_some (if b then none else old) ≡ (not b && is_some old)
absent true old = refl
absent false old = refl

module _ (outlets : Outlets) (rules : TargetRules) (K : Objects)
    (grants : String → Option (List K.Value)) where
  -- Storing an object writes the entry of its UID and no other.
  pub store_app-entries :
      (o : K.Obj) (w : Watcher)
      → lp_enabled K o ≡ true
      → (s : ServiceInfo) × ((k : String)
          → get k (store_app outlets rules K grants o w).cache
            ≡ (if str_eq (K.uid o) k then some s else get k w.cache))
  unfolding store_app to_app read_app
  store_app-entries o w on =
      let (uid, keeps) = with_consent-keeps K grants (read_app K o) in
      let (page, found, enabled) = page_of-enabled K o on in
      let (s, entries, own, config, carried) =
        get-add rules (to_app K grants o) page w.cache
          (listed-page _ page (keeps ∙ found) enabled) in
      (s, (λ k. entries k ∙ ap (λ u. if str_eq u k then some s else get k w.cache) uid))

  -- A stored object is in the cache, and every other UID stands as before.
  pub store_app-present :
      (o : K.Obj) (w : Watcher) (k : String)
      → lp_enabled K o ≡ true
      → is_some (get k (store_app outlets rules K grants o w).cache)
        ≡ (str_eq (K.uid o) k || is_some (get k w.cache))
  store_app-present o w k on =
      let (s, entries) = store_app-entries o w on in
      ap is_some (entries k) ∙ present (str_eq (K.uid o) k) s (get k w.cache)

  abbrev holds : String → Watcher → Bool
  holds k w = is_some (get k w.cache)

  pub forget-present :
      (uid : String) (w : Watcher) (k : String)
      → holds k (forget outlets uid w) ≡ (not (str_eq uid k) && holds k w)
  forget-present uid w k =
      ap (λ c. is_some (get k c)) (forget-cache outlets uid w)
      ∙ (ap is_some (get-remove uid k w.cache).0 ∙ absent (str_eq uid k) (get k w.cache))

  pub modify-cache :
      (o : K.Obj) (w : Watcher)
      → (modify outlets rules K grants o w).cache ≡ (store_app outlets rules K grants o w).cache
  modify-cache o w = publish-cache outlets "modified" _ (store_app outlets rules K grants o w)

  pub refresh-cache :
      (o : K.Obj) (w : Watcher)
      → (refresh outlets rules K grants o w).cache ≡ (store_app outlets rules K grants o w).cache
  refresh-cache o w = publish_known-cache outlets _ (store_app outlets rules K grants o w)

  pub arrive-cache :
      (o : K.Obj) (w : Watcher)
      → (arrive outlets rules K grants o w).cache ≡ (store_app outlets rules K grants o w).cache
  arrive-cache o w =
      let stored = store_app outlets rules K grants o w in
      let published = publish-cache outlets "added" (get (K.uid o) stored.cache) stored in
      if_either (λ (v : Watcher). v.cache ≡ stored.cache) (has (K.uid o) w.initial_uids) _ _
        published
        (announce_arrival-cache outlets (K.name o) (get (K.uid o) stored.cache) _ ∙ published)

  -- What an object and its landing page make of the presence of a UID.
  abbrev pub shows : K.Obj → String → Bool → Bool
  shows o k before = if lp_enabled K o then str_eq (K.uid o) k || before else before

  abbrev pub turns : K.Obj → String → Bool → Bool
  turns o k before =
      if lp_enabled K o then str_eq (K.uid o) k || before else not (str_eq (K.uid o) k) && before

  pub shown_by :
      (o : K.Obj) (k : String) (w v : Watcher)
      → (lp_enabled K o ≡ true → v.cache ≡ (store_app outlets rules K grants o w).cache)
      → holds k (if lp_enabled K o then v else w) ≡ shows o k (holds k w)
  shown_by o k w v e = elim (Bool-cases (lp_enabled K o)) [
    | inl on ↦ rw on (ap (λ c. is_some (get k c)) (e on) ∙ store_app-present o w k on)
    | inr off ↦ rw off refl
  ]

  pub turned_by :
      (o : K.Obj) (k : String) (w : Watcher)
      → holds k (update_object outlets rules K grants (some o) w) ≡ turns o k (holds k w)
  turned_by o k w = elim (Bool-cases (lp_enabled K o)) [
    | inl on ↦ rw on (ap (λ c. is_some (get k c)) (modify-cache o w) ∙ store_app-present o w k on)
    | inr off ↦ rw off (forget-present (K.uid o) w k)
  ]
