-- ===== src/Watcher/Notifying.antt =====
-- internal/watcher/watcher.go: which notifications the watcher posts, and for whom they are.
use nebari_landing.Base.{
  String, ◌≡◌, ◌∙◌, refl, sym, ap, subst, ◌⊎◌, inl, inr, true, ◌||◌, Option, none, some, List, [],
  ◌∷◌, ◌++◌, Bool-cases, is_some, if_either, eq_refl, has,
}
use nebari_landing.Probe.{TargetRules}
use nebari_landing.Cache.{ServiceInfo, ServiceCache, get}
use nebari_landing.Notification.{Notification, Draft}
use nebari_landing.Watcher.Reading.{Objects, lp_enabled}
use nebari_landing.Watcher.{
  Delivered, as_unstructured, Outlets, Watcher, draft_for, posted_as, post_draft, post_notif,
  publish, announce_arrival, after_removal, forget, store_app, arrive, add_object, on_add,
  update_object, on_update, delete_object, on_delete,
}
use nebari_landing.Watcher.Following.{store_app-present, arrive-cache}

module _ (outlets : Outlets) where
  -- The step posts nothing, or one notification, which the store made of a draft that carries the
  -- UID, the visibility and the groups of the service in question.
  abbrev pub PostsFor : Option ServiceInfo → List Notification → List Notification → Type 0
  PostsFor s before after =
      (after ≡ before)
      ⊎ ((t : ServiceInfo) × (n : Notification) × (d : Draft) × (create : Draft
            → Option Notification)
          × (s ≡ some t)
          × (outlets.create_draft ≡ some create)
          × (create d ≡ some n)
          × (d.service_uid ≡ t.uid)
          × (d.visibility ≡ t.visibility)
          × (d.required_groups ≡ t.required_groups)
          × (after ≡ before ++ n ∷ []))

  posted_as-posts :
      (t : ServiceInfo) (d : Draft) (create : Draft → Option Notification) (w : Watcher)
      → (made : Option Notification) → outlets.create_draft ≡ some create
      → create d ≡ made
      → (d.service_uid ≡ t.uid)
        × (d.visibility ≡ t.visibility)
        × (d.required_groups ≡ t.required_groups)
      → PostsFor (some t) w.posted (posted_as outlets made w).posted
  posted_as-posts t d create w none c m tags = inl refl
  posted_as-posts t d create w (some n) c m (uid, visibility, groups) =
      inr (t, n, d, create, refl, c, m, uid, visibility, groups, refl)

  post_draft-posts :
      (t : ServiceInfo) (d : Draft) (o : Option (Draft → Option Notification)) (w : Watcher)
      → outlets.create_draft ≡ o
      → (d.service_uid ≡ t.uid)
        × (d.visibility ≡ t.visibility)
        × (d.required_groups ≡ t.required_groups)
      → PostsFor (some t) w.posted (post_draft outlets o d w).posted
  post_draft-posts t d none w c tags = inl refl
  post_draft-posts t d (some create) w c tags = posted_as-posts t d create w (create d) c refl tags

  post_notif-posts :
      (t : ServiceInfo) (image title message : String) (w : Watcher)
      → PostsFor (some t) w.posted (post_notif outlets (some t) image title message w).posted
  unfolding post_notif
  post_notif-posts t image title message w =
      post_draft-posts t (draft_for outlets (some t) image title message) outlets.create_draft w
        refl (refl, refl, refl)

  publish-posted :
      (kind : String) (s : Option ServiceInfo) (w : Watcher)
      → (publish outlets kind s w).posted ≡ w.posted
  unfolding publish
  publish-posted kind s w =
      if_either (λ (v : Watcher). v.posted ≡ w.posted) outlets.publisher _ _ refl refl

  after_removal-posts :
      (s : Option ServiceInfo) (w : Watcher)
      → PostsFor s w.posted (after_removal outlets s w).posted
  after_removal-posts none w = inl refl
  after_removal-posts (some t) w =
      subst (λ l. PostsFor (some t) l (after_removal outlets (some t) w).posted)
        (publish-posted "deleted" (some t) w) (post_notif-posts t _ _ _ _)

  -- A removal posts, if anything, about the service that was in the cache.
  forget-posts :
      (uid : String) (w : Watcher)
      → PostsFor (get uid w.cache) w.posted (forget outlets uid w).posted
  unfolding forget
  forget-posts uid w = after_removal-posts (get uid w.cache) _

  module _ (rules : TargetRules) (K : Objects) (grants : String → Option (List K.Value)) where
    arrival-posts :
        (name : String) (s : Option ServiceInfo) (w : Watcher)
        → is_some s ≡ true
        → PostsFor s w.posted (announce_arrival outlets name s w).posted
    unfolding announce_arrival
    arrival-posts name none w h = cc h
    arrival-posts name (some t) w h = post_notif-posts t _ _ _ w

    abbrev stored_service : K.Obj → Watcher → Option ServiceInfo
    stored_service o w = get (K.uid o) (store_app outlets rules K grants o w).cache

    -- An arrival posts, if anything, about the service that was just stored.
    arrive-posts :
        (o : K.Obj) (w : Watcher)
        → lp_enabled K o ≡ true
        → PostsFor (stored_service o w) w.posted (arrive outlets rules K grants o w).posted
    unfolding store_app
    arrive-posts o w on =
        let stored = store_app outlets rules K grants o w in
        let shown = publish outlets "added" (stored_service o w) stored in
        let same = publish-posted "added" (stored_service o w) stored in
        if_either (λ (v : Watcher). PostsFor (stored_service o w) w.posted v.posted)
          (has (K.uid o) w.initial_uids) _ _ (inl same)
          (subst
            (λ l.
              PostsFor (stored_service o w) l
                (announce_arrival outlets (K.name o) (stored_service o w) shown).posted)
            same
            (arrival-posts (K.name o) (stored_service o w) shown (
              store_app-present outlets rules K grants o w (K.uid o) on
              ∙ ap (λ b. b || is_some (get (K.uid o) w.cache)) (eq_refl (K.uid o)))))

    -- The entry of the object that was delivered.
    abbrev pub subject : Option K.Obj → ServiceCache → Option ServiceInfo
    subject none c = none
    subject (some o) c = get (K.uid o) c

    add_object-posts :
        (found : Option K.Obj) (w : Watcher)
        → PostsFor
            (subject found (add_object outlets rules K grants found w).cache)
            w.posted
            (add_object outlets rules K grants found w).posted
    add_object-posts none w = inl refl
    add_object-posts (some o) w = elim (Bool-cases (lp_enabled K o)) [
      | inl on ↦ rw on (
          subst
            (λ c. PostsFor (get (K.uid o) c) w.posted (arrive outlets rules K grants o w).posted)
            (sym (arrive-cache outlets rules K grants o w)) (arrive-posts o w on))
      | inr off ↦ rw off (inl refl)
    ]

    update_object-posts :
        (found : Option K.Obj) (w : Watcher)
        → PostsFor
            (subject found w.cache)
            w.posted
            (update_object outlets rules K grants found w).posted
    unfolding store_app
    update_object-posts none w = inl refl
    update_object-posts (some o) w =
        if_either (λ (v : Watcher). PostsFor (get (K.uid o) w.cache) w.posted v.posted)
          (lp_enabled K o) _ _
          (inl
            (publish-posted "modified" (stored_service o w) (store_app outlets rules K grants o w)))
          (forget-posts (K.uid o) w)

    delete_object-posts :
        (found : Option K.Obj) (w : Watcher)
        → PostsFor
            (subject found w.cache)
            w.posted
            (delete_object outlets rules K grants found w).posted
    delete_object-posts none w = inl refl
    delete_object-posts (some o) w = forget-posts (K.uid o) w

    -- Every notification that an event causes is for those who may see the service it is about: the
    -- step posts nothing, or one notification that the store made of a draft with the UID, the
    -- visibility and the groups of the object's entry, the one that an added object has then, or
    -- the one that an updated or deleted object had before.
    pub events-post :
        (d : Delivered K.Obj) (w : Watcher)
        → PostsFor
            (subject (as_unstructured d) (on_add outlets rules K grants d w).cache)
            w.posted
            (on_add outlets rules K grants d w).posted
          × PostsFor
              (subject (as_unstructured d) w.cache)
              w.posted
              (on_update outlets rules K grants d w).posted
          × PostsFor
              (subject (as_unstructured d) w.cache)
              w.posted
              (on_delete outlets rules K grants d w).posted
    unfolding on_add on_update on_delete
    events-post d w = (
      add_object-posts (as_unstructured d) w,
      update_object-posts (as_unstructured d) w,
      delete_object-posts (as_unstructured d) w,
    )
