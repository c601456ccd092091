-- ===== src/Health/Announcing.antt =====
-- `afterHealthUpdate`: what goes out for a stored result.
use mathlib.Core.List.{append-nil}
use nebari_landing.Base.{
  String, subst, ◌≡◌, ◌∙◌, refl, sym, ap, Bool, true, false, ◌&&◌, Option, none, some, List, [],
  ◌∷◌, ◌++◌, if◌then◌else◌, str_eq,
}
use nebari_landing.Notification.{Notification, Draft}
use nebari_landing.Cache.{ServiceInfo, get}
use nebari_landing.Health.{
  Site, Outputs, post, post_for, publish_service, recovery_draft, post_recovery, publish_if_changed,
  after_health_update,
}

-- The notification that goes out for a service that was "unhealthy" and is "healthy" now.
abbrev pub recovery : Outputs → String → String → ServiceInfo → Option Notification
recovery out prev_status status s =
    if str_eq status "healthy" && str_eq prev_status "unhealthy"
    then elim out.create_draft [ none ↦ none | some create ↦ create (recovery_draft s) ]
    else none

abbrev pub one_if : {A : Type 0} → Bool → Option A → List A
one_if b none = []
one_if b (some a) = if b then a ∷ [] else []

-- `w'` is `w` with the effects of a stored result, of which `s` is the new entry.
pub record IsAnnounced (out : Outputs) (prev_status status : String) (s : ServiceInfo) (w w' : Site)
    : Type 0 where
  pub event : w'.events ≡ w.events ++ one_if out.publisher (some ("modified", s))
  pub posted : w'.posted ≡ w.posted ++ one_if true (recovery out prev_status status s)
  pub notice :
      w'.notices ≡ w.notices ++ one_if out.notif_publisher (recovery out prev_status status s)
  pub checker : w'.checker ≡ w.checker
  pub cache : w'.cache ≡ w.cache

-- What `publishIfChanged` does, for either setting of its publisher.
publish_events :
    (b : Bool) (o : Option ServiceInfo) (s : ServiceInfo) (v : Site)
    → o ≡ some s
    → (if b then publish_service o v else v).events ≡ v.events ++ one_if b (some ("modified", s))
publish_events true none s v e = cc
publish_events true (some t) s v e = ap (λ o. v.events ++ one_if true (named o)) e
  where
    named : Option ServiceInfo → Option (String × ServiceInfo)
    named none = none
    named (some s) = some ("modified", s)
publish_events false o s v e = sym (append-nil v.events)

record IsSilent (v v' : Site) : Type 0 where
  cache : v'.cache ≡ v.cache
  checker : v'.checker ≡ v.checker
  posted : v'.posted ≡ v.posted
  notices : v'.notices ≡ v.notices

publish-IsSilent :
    (b : Bool) (o : Option ServiceInfo) (v : Site)
    → IsSilent v (if b then publish_service o v else v)
publish-IsSilent true none v = record {
  cache = refl;
  checker = refl;
  posted = refl;
  notices = refl;
}
publish-IsSilent true (some t) v = record {
  cache = refl;
  checker = refl;
  posted = refl;
  notices = refl;
}
publish-IsSilent false o v = record { cache = refl; checker = refl; posted = refl; notices = refl }

-- What `postRecoveryNotif` does under its test, for every setting of the store.
record IsPosted (flag : Bool) (o : Option Notification) (w v : Site) : Type 0 where
  cache : v.cache ≡ w.cache
  checker : v.checker ≡ w.checker
  events : v.events ≡ w.events
  posted : v.posted ≡ w.posted ++ one_if true o
  notices : v.notices ≡ w.notices ++ one_if flag o

none-IsPosted : (flag : Bool) (w : Site) → IsPosted flag none w w
none-IsPosted flag w = record {
  cache = refl;
  checker = refl;
  events = refl;
  posted = sym (append-nil w.posted);
  notices = sym (append-nil w.notices);
}

post-IsPosted :
    (flag : Bool) (o : Option Notification) (w : Site) → IsPosted flag o w (post flag o w)
post-IsPosted flag none w = none-IsPosted flag w
post-IsPosted true (some n) w = record {
  cache = refl;
  checker = refl;
  events = refl;
  posted = refl;
  notices = refl;
}
post-IsPosted false (some n) w = record {
  cache = refl;
  checker = refl;
  events = refl;
  posted = refl;
  notices = sym (append-nil w.notices);
}

recovery-IsPosted :
    (b : Bool) (create : Option (Draft → Option Notification)) (out : Outputs)
    (o : Option ServiceInfo) (s : ServiceInfo) (w : Site)
    → o ≡ some s
    → IsPosted out.notif_publisher
        (if b then elim create [ none ↦ none | some f ↦ f (recovery_draft s) ] else none)
        w
        (if b then post_for out create o w else w)
recovery-IsPosted false create out o s w e = none-IsPosted out.notif_publisher w
recovery-IsPosted true none out o s w e = none-IsPosted out.notif_publisher w
recovery-IsPosted true (some f) out none s w e = cc
recovery-IsPosted true (some f) out (some t) s w e =
    subst
      (λ o. IsPosted out.notif_publisher o w (post out.notif_publisher (f (recovery_draft t)) w))
      (ap (λ x. f (recovery_draft x)) (same e))
      (post-IsPosted out.notif_publisher (f (recovery_draft t)) w)
  where
    same : ◌≡◌ {A = Option ServiceInfo} (some t) (some s) → t ≡ s
    same e = cc

pub after-IsAnnounced :
    (out : Outputs) (uid prev_status status : String) (s : ServiceInfo) (w : Site)
    → get uid w.cache ≡ some s
    → IsAnnounced out prev_status status s w (after_health_update out uid prev_status status w)
unfolding after_health_update post_recovery publish_if_changed
after-IsAnnounced out uid prev_status status s w g =
    let b = str_eq status "healthy" && str_eq prev_status "unhealthy" in
    let v = if b then post_recovery out uid w else w in
    let p : IsPosted out.notif_publisher (recovery out prev_status status s) w v =
      recovery-IsPosted b out.create_draft out (get uid w.cache) s w g in
    let q = publish-IsSilent out.publisher (get uid v.cache) v in
    record {
      event =
          publish_events out.publisher (get uid v.cache) s v (ap (get uid) p.cache ∙ g)
          ∙ ap (λ l. l ++ one_if out.publisher (some ("modified", s))) p.events;
      posted = q.posted ∙ p.posted;
      notice = q.notices ∙ p.notices;
      checker = q.checker ∙ p.checker;
      cache = q.cache ∙ p.cache;
    }
