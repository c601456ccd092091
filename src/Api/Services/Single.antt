-- ===== src/Api/Services/Single.antt =====
-- internal/api/handlers.go: one service by its UID, against the listing.
use nebari_landing.Base.{
  if_taken, String, ◌≡◌, ◌≢◌, ◌∙◌, refl, sym, ap, subst, ◌↔◌, Bool, true, false, Option, none, some,
  List, map, Memᴰ, eq_iff, str_eq, has, keep, if◌then◌else◌, Memᴰ-map, lookup, Memᴰ_of_keep,
  Memᴰ-keep,
}
use nebari_landing.Access.{can_access_service}
use nebari_landing.Cache.{ServiceInfo, get, get_all}
use nebari_landing.Cache.Invariant.{IsKeyed}
use nebari_landing.Redis.{Redis}
use nebari_landing.Api.Views.{ServiceView, to_service_view}
use nebari_landing.Api.{
  Request, Moment, Libraries, Handler, World, Response, service, services, reply, refuse, Caller,
  warming, rejected, caller, claims_of, is_authenticated, extract,
}
use nebari_landing.Api.Frame.{extract-Same}
use nebari_landing.Api.Services.{
  visible, caller_pinned_uids, list_for, handle_get_services, show_for, show_cached,
  handle_get_service_by_uid,
}
use nebari_landing.Api.Services.Listing.{map-Memᴰ, shown_iff}
use nebari_landing.Cache.Listing.{get_all-lists}

module _ (R : Redis) (lib : Libraries) (h : Handler) (m : Moment) where
  abbrev pins_seen : World R → Caller → List String
  pins_seen w c = (caller_pinned_uids R lib h m (claims_of c) (is_authenticated c) w).1

  abbrev sees : Caller → ServiceInfo → Bool
  sees c s = can_access_service s (is_authenticated c) (claims_of c)

  list_for-views :
      (w : World R) (c : Caller)
      → c ≢ warming
      → (list_for R lib h m (w, c)).1
        ≡ reply (
            services (
              visible R lib h m
                (claims_of c)
                (is_authenticated c)
                (pins_seen w c)
                (get_all w.cache)))
  list_for-views w warming n = absurd (n refl)
  list_for-views w rejected n = refl
  list_for-views w (caller claims authenticated) n = refl

  show_for-answer :
      (s : ServiceInfo) (uid : String) (w : World R) (c : Caller)
      → c ≢ warming
      → (show_for R lib h m s uid (w, c)).1 ≡ (
          if sees c s
          then reply (service (to_service_view s (has uid (pins_seen w c))))
          else refuse 403)
  show_for-answer s uid w warming n = absurd (n refl)
  show_for-answer s uid w rejected n = snd_if (sees rejected s) _ _
    where
      snd_if :
          (b : Bool) (p q : World R × Response) → (if b then p else q).1 ≡ (if b then p.1 else q.1)
      snd_if true p q = refl
      snd_if false p q = refl
  show_for-answer s uid w (caller claims authenticated) n =
      snd_if (sees (caller claims authenticated) s) _ _
    where
      snd_if :
          (b : Bool) (p q : World R × Response) → (if b then p else q).1 ≡ (if b then p.1 else q.1)
      snd_if true p q = refl
      snd_if false p q = refl

  answered_iff :
      (b : Bool) (u v : ServiceView)
      → ((if b then reply (service u) else refuse 403) ≡ reply (service v)) ↔ ((b ≡ true) × (v ≡ u))
  answered_iff true u v = ((λ e. (refl, cc e)), (λ (p, q). cc q))
  answered_iff false u v = ((λ e. cc e), (λ (p, q). cc p))

  show_some_iff :
      (s : ServiceInfo) (uid : String) (w : World R) (c : Caller) (v : ServiceView)
      → c ≢ warming
      → ((show_for R lib h m s uid (w, c)).1 ≡ reply (service v))
        ↔ ((sees c s ≡ true) × (v ≡ to_service_view s (has uid (pins_seen w c))))
  show_some_iff s uid w c v n =
      let e = show_for-answer s uid w c n in
      let (to, from) = answered_iff (sees c s) (to_service_view s (has uid (pins_seen w c))) v in
      ((λ k. to (sym e ∙ k)), (λ p. e ∙ from p))

  -- One service is found in a listing of the cache exactly as it is shown by itself.
  show_cached-visible :
      (found : Option ServiceInfo) (uid : String) (r : Request) (w : World R) (v : ServiceView)
      → IsKeyed w.cache
      → get uid w.cache ≡ found
      → (extract R lib h m r w).1 ≢ warming
      → ((show_cached R lib h m found uid r w).1 ≡ reply (service v)) ↔ (
          Memᴰ v (
            visible R lib h m
              (claims_of (extract R lib h m r w).1)
              (is_authenticated (extract R lib h m r w).1)
              (pins_seen (extract R lib h m r w).0 (extract R lib h m r w).1)
              (get_all w.cache))
          × (v.id ≡ uid))
  unfolding get to_service_view visible
  show_cached-visible none uid r w v k g n = (
    (λ e. cc e),
    (λ (mem, i).
        let c = (extract R lib h m r w).1 in
        let (s, kept, same) = Memᴰ-map _ _ v mem in
        let own = ((shown_iff R lib h m w.cache (is_authenticated c) (claims_of c) s k).0 kept).0 in
        cc (own, g, sym (ap (λ (t : ServiceView). t.id) same) ∙ i)),
  )
  show_cached-visible (some s) uid r w v k g n =
      let c = (extract R lib h m r w).1 in
      let x = (extract R lib h m r w).0 in
      let shown = λ (t : ServiceInfo). to_service_view t (has t.uid (pins_seen x c)) in
      let (to, from) = show_some_iff s uid x c v n in
      let own = k.own_uid uid s g in
      let ok = λ (t : ServiceInfo). sees c t in
      (
        (λ e.
            let (a, same) = to e in
            let kept =
              Memᴰ-keep ok (get_all w.cache) s
                (((get_all-lists w.cache k).1 s).1 (ap (λ u. lookup u w.cache.services) own ∙ g))
                a in
            (
              subst (λ u. Memᴰ u (map shown (keep ok (get_all w.cache))))
                  (sym (same ∙ ap (λ u. to_service_view s (has u (pins_seen x c))) (sym own)))
                  (map-Memᴰ shown (keep ok (get_all w.cache)) s kept),
              ap (λ (t : ServiceView). t.id) same ∙ own,
            )),
        (λ (mem, i).
            let (t, kept, same) = Memᴰ-map shown (keep ok (get_all w.cache)) v mem in
            let (inside, a) = Memᴰ_of_keep ok (get_all w.cache) t kept in
            let named : t.uid ≡ uid = sym (ap (λ (u : ServiceView). u.id) same) ∙ i in
            let one : t ≡ s = cc (((get_all-lists w.cache k).1 t).0 inside, named, g) in
            from (sym (ap ok one) ∙ a, same ∙ cc (one, named))),
      )

  -- A service by its UID and the listing agree: where a GET of the services, in the same state,
  -- answers with some views, a GET of a UID answers with a view exactly if it is one of these
  -- views and has that UID.
  pub handle_get_service_by_uid-listed :
      (r : Request) (w : World R) (uid : String) (views : List ServiceView) (v : ServiceView)
      → r.method ≡ "GET"
      → IsKeyed w.cache
      → (handle_get_services R lib h m r w).1 ≡ reply (services views)
      → ((handle_get_service_by_uid R lib h m uid r w).1 ≡ reply (service v))
        ↔ (Memᴰ v views × (v.id ≡ uid))
  unfolding handle_get_services handle_get_service_by_uid
  handle_get_service_by_uid-listed r w uid views v g k e =
      let get_ok = (eq_iff r.method "GET").1 g in
      let c = (extract R lib h m r w).1 in
      let x = (extract R lib h m r w).0 in
      let listed : (list_for R lib h m (x, c)).1 ≡ reply (services views) =
        sym (
          ap (λ (p : World R × Response). p.1)
            (if_taken (str_eq r.method "GET") (list_for R lib h m (x, c)) (w, refuse 405) get_ok))
        ∙ e in
      let n = answers x c views listed in
      let kept = (extract-Same R lib h m r w).0 in
      let same : visible R lib h m (claims_of c) (is_authenticated c) (pins_seen x c)
            (get_all w.cache)
          ≡ views =
        subst
          (λ z.
            visible R lib h m (claims_of c) (is_authenticated c) (pins_seen x c) (get_all z)
            ≡ views)
          kept (cc (list_for-views x c n, listed)) in
      let (to, from) = show_cached-visible (get uid w.cache) uid r w v k refl n in
      let taken =
        ap (λ (p : World R × Response). p.1)
          (if_taken (str_eq r.method "GET") (show_cached R lib h m (get uid w.cache) uid r w)
            (w, refuse 405) get_ok) in
      (
        (λ p. let (mem, i) = to (sym taken ∙ p) in (subst (λ l. Memᴰ v l) same mem, i)),
        (λ (mem, i). taken ∙ from (subst (λ l. Memᴰ v l) (sym same) mem, i)),
      )
    where
      answers :
          (x : World R) (c : Caller) (l : List ServiceView)
          → (list_for R lib h m (x, c)).1 ≡ reply (services l)
          → c ≢ warming
      answers x warming l p q = cc p
      answers x rejected l p q = cc q
      answers x (caller claims a) l p q = cc q
