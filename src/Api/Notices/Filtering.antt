-- ===== src/Api/Notices/Filtering.antt =====
-- internal/api/handlers.go: which notifications a caller is shown, and which are marked as read.
use nebari_landing.Base.{
  ℤ, if◌then◌else◌, str_eq, if_taken, ◌∙◌, ap, String, ◌≡◌, ◌≢◌, false, none, some, has, any,
  has→Memᴰ, Memᴰ→has, refl, sym, subst, ◌↔◌, ◌⊎◌, inl, inr, Bool, true, ◌||◌, Option, List, [],
  Memᴰ, ||-split, arith, is_blank, keep, Memᴰ-keep, Memᴰ_of_keep, Memᴰ-map,
}
use nebari_landing.Access.{Claims}
use nebari_landing.Access.Policy.{Shares, can_access_policy_iff}
use nebari_landing.Redis.{Redis}
use nebari_landing.Notification.{Notification}
use nebari_landing.Notification.Store.{list_notifications, read_set}
use nebari_landing.Api.Views.{NotificationItem, item_of}
use nebari_landing.Api.{
  Moment, Libraries, Handler, Request, World, Caller, warming, rejected, caller, claims_of,
  is_authenticated, extract, reply, notices, Response,
}
use nebari_landing.Api.Notices.{
  shown_to, items, groups_if, marks_for, read_or_none, notices_for, list_notices,
  handle_get_notifications,
}
use nebari_landing.Api.Services.Listing.{map-Memᴰ}

-- Whom a notification is shown to: everyone if it names no service or its service is public, and
-- otherwise an authenticated caller in one of its groups, if it has any.
abbrev pub MayRead : Bool → List String → Notification → Type 0
MayRead authenticated groups n =
    (is_blank n.service_uid ≡ true)
    ⊎ ((n.visibility ≡ "public")
        ⊎ ((authenticated ≡ true) × ((n.required_groups ≡ []) ⊎ Shares groups n.required_groups)))

module _ (R : Redis) (lib : Libraries) (h : Handler) (m : Moment) (retention : ℤ) where
  shown_to_iff :
      (claims : Option Claims) (authenticated : Bool) (n : Notification)
      → (shown_to R lib h m retention claims authenticated n ≡ true)
        ↔ MayRead authenticated (groups_if R lib h m retention authenticated claims) n
  unfolding shown_to
  shown_to_iff claims authenticated n =
      let (to, from) =
        can_access_policy_iff n.visibility authenticated n.required_groups
          (groups_if R lib h m retention authenticated claims) in
      (
        (λ e. elim (||-split _ _ e) [ inl b ↦ inl b | inr p ↦ inr (to p) ]),
        (λ e. elim e [ inl b ↦ rw b refl | inr p ↦ either (is_blank n.service_uid) _ (from p) ]),
      )
    where
      either : (a b : Bool) → b ≡ true → (a || b) ≡ true
      either a b q = ground arith

  -- The caller is authenticated under a name, and the store has the notification among the marks of
  -- that name.
  abbrev pub IsMarked : World R → Caller → Notification → Type 0
  IsMarked w (caller (some c) true) n =
      (is_blank c.preferred_username ≡ false)
      × ((ids : List String) × ((read_set lib.clock lib.groups R c.preferred_username w.db).1
            ≡ some ids)
          × Memᴰ n.id ids)
  IsMarked w _ n = ⊥

  pub record IsItem (w : World R) (k : Caller) (n : Notification) (i : NotificationItem)
      : Type 0 where
    pub id : i.id ≡ n.id
    pub image : i.image ≡ n.image
    pub title : i.title ≡ n.title
    pub message : i.message ≡ n.message
    pub created_at : i.created_at ≡ lib.show_time n.created_at
    pub read : (i.read ≡ true) ↔ IsMarked w k n

  abbrev IsShown : Caller → Notification → Type 0
  IsShown k n =
      MayRead (is_authenticated k)
        (groups_if R lib h m retention (is_authenticated k) (claims_of k)) n

  -- The list shows those of the stored notifications that the caller may read, and no others.
  pub record IsListing (w : World R) (k : Caller) (stored : List Notification)
      (shown : List NotificationItem) : Type 0 where
    pub sound :
        (i : NotificationItem)
        → Memᴰ i shown
        → (n : Notification) × Memᴰ n stored × IsShown k n × IsItem w k n i
    pub complete :
        (n : Notification)
        → Memᴰ n stored
        → IsShown k n
        → (i : NotificationItem) × Memᴰ i shown × IsItem w k n i

  abbrev marks : World R → Caller → List String
  marks w k = (marks_for R lib h m retention (is_authenticated k) (claims_of k) w).1

  read_or_none_iff :
      (w : World R) (reply : R.Db × Option (List String)) (id : String)
      → (has id (read_or_none R lib h m retention w reply).1 ≡ true)
        ↔ ((ids : List String) × (reply.1 ≡ some ids) × Memᴰ id ids)
  unfolding has any
  read_or_none_iff w (d, none) id = ((λ e. cc e), (λ (ids, e, mem). cc e))
  read_or_none_iff w (d, some ids) id = (
    (λ e. (ids, refl, has→Memᴰ id ids e)),
    (λ (l, e, mem). Memᴰ→has id ids (subst (Memᴰ id) (cc e) mem)),
  )

  named_iff :
      (blank : Bool) (w : World R) (reply : R.Db × Option (List String)) (id : String)
      → (has id (if blank then (w, []) else read_or_none R lib h m retention w reply).1 ≡ true)
        ↔ ((blank ≡ false) × ((ids : List String) × (reply.1 ≡ some ids) × Memᴰ id ids))
  unfolding has any
  named_iff true w reply id = ((λ e. cc e), (λ (named, x). cc named))
  named_iff false w reply id =
      let (to, from) = read_or_none_iff w reply id in ((λ e. (refl, to e)), (λ (named, x). from x))

  marks_iff :
      (w : World R) (k : Caller) (n : Notification) → (has n.id (marks w k) ≡ true) ↔ IsMarked w k n
  unfolding has any
  marks_iff w warming n = ((λ e. cc e), (λ x. elim x [ ]))
  marks_iff w rejected n = ((λ e. cc e), (λ x. elim x [ ]))
  marks_iff w (caller none false) n = ((λ e. cc e), (λ x. elim x [ ]))
  marks_iff w (caller (some c) false) n = ((λ e. cc e), (λ x. elim x [ ]))
  marks_iff w (caller none true) n = ((λ e. cc e), (λ x. elim x [ ]))
  marks_iff w (caller (some c) true) n =
      named_iff (is_blank c.preferred_username) w
        (read_set lib.clock lib.groups R c.preferred_username w.db) n.id

  item_of-IsItem :
      (w : World R) (k : Caller) (n : Notification)
      → IsItem w k n (item_of (marks w k) (lib.show_time n.created_at) n)
  unfolding item_of
  item_of-IsItem w k n = record {
    id = refl;
    image = refl;
    title = refl;
    message = refl;
    created_at = refl;
    read = marks_iff w k n;
  }

  items-IsListing :
      (w : World R) (k : Caller) (stored : List Notification)
      → IsListing w k stored
          (items R lib h m retention (claims_of k) (is_authenticated k) (marks w k) stored)
  unfolding items
  items-IsListing w k stored =
      let ok = shown_to R lib h m retention (claims_of k) (is_authenticated k) in
      let view = λ (n : Notification). item_of (marks w k) (lib.show_time n.created_at) n in
      record {
        sound = λ i mem.
            let (n, kept, same) = Memᴰ-map view (keep ok stored) i mem in
            let (inside, a) = Memᴰ_of_keep ok stored n kept in
            (
              n,
              inside,
              (shown_to_iff (claims_of k) (is_authenticated k) n).0 a,
              subst (IsItem w k n) (sym same) (item_of-IsItem w k n),
            );
        complete = λ n mem may. (
          view n,
          map-Memᴰ view (keep ok stored) n (
              Memᴰ-keep ok stored n mem
                ((shown_to_iff (claims_of k) (is_authenticated k) n).1 may)),
          item_of-IsItem w k n,
        );
      }

  notices_for-shown :
      (stored : List Notification) (w : World R) (k : Caller)
      → k ≢ warming
      → (notices_for R lib h m retention stored (w, k)).1
        ≡ reply (
            notices
              (items R lib h m retention (claims_of k) (is_authenticated k) (marks w k) stored))
  notices_for-shown stored w warming ready = absurd (ready refl)
  notices_for-shown stored w rejected ready = refl
  notices_for-shown stored w (caller claims b) ready = refl

  -- A GET of the notifications, where the store can be read and the caller is not put off while the
  -- validator starts, answers with exactly those of the stored notifications that name no service or
  -- whose service the caller may see, each with its own fields, and marked as read exactly if the
  -- caller is authenticated under a name whose marks can be read and have its id.
  pub handle_get_notifications-lists :
      (r : Request) (w v : World R) (d : R.Db) (stored : List Notification) (k : Caller)
      → str_eq r.method "GET" ≡ true
      → h.notification_store ≡ true
      → list_notifications lib.clock lib.groups R w.db ≡ (d, some stored)
      → extract R lib h m r (record w { db = d }) ≡ (v, k)
      → k ≢ warming
      → (shown : List NotificationItem) × ((handle_get_notifications R lib h m retention r w).1
          ≡ reply (notices shown))
        × IsListing v k stored shown
  unfolding handle_get_notifications
  handle_get_notifications-lists r w v d stored k get on read who ready = (
    items R lib h m retention (claims_of k) (is_authenticated k) (marks v k) stored,
    ap (λ (p : World R × Response). p.1)
          (if_taken (str_eq r.method "GET") _ _ get ∙ if_taken h.notification_store _ _ on)
        ∙ (ap (λ p. (list_notices R lib h m retention r w p).1) read
            ∙ (ap (λ p. (notices_for R lib h m retention stored p).1) who
                ∙ notices_for-shown stored v k ready)),
    items-IsListing v k stored,
  )
