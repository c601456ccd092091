-- ===== src/Notification/Store/RoundTrip.antt =====
-- internal/notifications/store.go: what `CreateDraft` writes, `Get` and `List` read back.
use nebari_landing.Base.{
  ℕ, ℤ, pos, ltb_ℤ, ◌<ℤ◌, ◌≤ℤ◌, arith, Bool-cases, if_taken, if_passed, if◌then◌else◌, String, Bool,
  true, false, Option, none, some, List, [], ◌∷◌, ◌≡◌, refl, sym, ap, subst, ◌∙◌, ◌⊎◌, inl, inr,
  GoMap, eq_refl, str_eq-append_false_right, lookup, insert, is_blank, has_prefix, drop_prefix,
}
use nebari_landing.Redis.{
  Redis, Stored, hash, hset, zadd, expire, effects, write, put_all, fields_at,
}
use nebari_landing.Redis.Documented.{IsDocumented}
use nebari_landing.Redis.Effects.{effects-skip, effects-first}
use nebari_landing.Requests.{Clock, text_of}
use nebari_landing.Notification.{Notification, Draft, notification_of}
use nebari_landing.Notification.Store.{
  GroupsJson, found, not_found, store_error, notif_key, notif_index_key, encode_groups,
  decode_groups, notif_fields, draft_commands, notif_from_hash, drafted, draft_encoded,
  create_draft, parsed, fetched, get_notification,
}

module _ (clock : Clock) (json : GroupsJson)
    (times : (t : ℕ) → clock.parse (clock.format t) ≡ some t)
    (lists : (g : List String) (s : String)
      → json.marshal g ≡ some s
      → (json.unmarshal s ≡ some g) × (is_blank s ≡ false)) where
  decode_groups-encode_groups :
      (groups : List String) (s : String)
      → encode_groups clock json groups ≡ some s
      → decode_groups clock json s ≡ some groups
  unfolding encode_groups decode_groups
  decode_groups-encode_groups [] s h =
      let q : "" ≡ s = cc h in subst (λ u. decode_groups clock json u ≡ some []) q refl
  decode_groups-encode_groups (g ∷ groups) s h =
      let (read, full) = lists (g ∷ groups) s h in rw full read

  -- A map that reads like the fields of a notification gives the notification back.
  notif_from_hash-notif_fields :
      (n : Notification) (s : String) (m : GoMap String)
      → encode_groups clock json n.required_groups ≡ some s
      → ((f : String) → lookup f m ≡ lookup f (put_all (notif_fields clock json n s) []))
      → notif_from_hash clock json m ≡ some n
  unfolding notif_from_hash notif_fields put_all insert lookup
  notif_from_hash-notif_fields n s m e h =
      let same = λ (f : String). ap text_of (h f) in
      rw
        (
          same "createdAt",
          same "requiredGroups",
          times n.created_at,
          decode_groups-encode_groups n.required_groups s e,
        )
        (rw
          (
            same "id",
            same "image",
            same "title",
            same "message",
            same "serviceUid",
            same "visibility",
          )
          refl)

  -- What stands under the key behind `CreateDraft`: nothing, if the retention is not positive.
  abbrev lasting : ℤ → Notification → String → Option Stored
  lasting retention n s =
      if ltb_ℤ (pos 0) retention
      then some (hash (put_all (notif_fields clock json n s) []))
      else none

  draft_commands-lasting :
      (retention : ℤ) (n : Notification) (s : String) (v : String → Option Stored)
      → v (notif_key n.id) ≡ none
      → effects (draft_commands clock json retention n s) v (notif_key n.id) ≡ lasting retention n s
  unfolding draft_commands write effects has_prefix drop_prefix
  draft_commands-lasting retention n s v free =
      let k = notif_key n.id in
      let fields = notif_fields clock json n s in
      effects-first (hset k fields) (expire k retention ∷ zadd notif_index_key _ n.id ∷ []) v k
        (eq_refl k)
      ∙ (effects-first (expire k retention) (zadd notif_index_key _ n.id ∷ []) _ k (eq_refl k)
          ∙ (effects-skip (zadd notif_index_key _ n.id) [] _ k
                (str_eq-append_false_right "nebari:notif:" n.id notif_index_key refl)
              ∙ ap (λ o. write (expire k retention) (write (hset k fields) o)) free))

  drafted-lasting :
      (R : Redis) (doc : IsDocumented R) (retention : ℤ) (n new : Notification) (s : String)
      → (d : R.Db) (reply : R.Db × Bool)
      → R.pipeline (draft_commands clock json retention n s) d ≡ reply
      → R.view d (notif_key n.id) ≡ none
      → (drafted clock json R n reply).1 ≡ some new
      → (n ≡ new)
        × (R.view (drafted clock json R n reply).0 (notif_key n.id) ≡ lasting retention n s)
  drafted-lasting R doc retention n new s d (e, true) h free k = (
    cc k,
    ap (λ r. R.view r.0 (notif_key n.id)) (sym h)
        ∙ (doc.pipeline_done (draft_commands clock json retention n s) d (ap (λ r. r.1) h)
              (notif_key n.id)
            ∙ draft_commands-lasting retention n s (R.view d) free),
  )
  drafted-lasting R doc retention n new s d (e, false) h free k = cc k

  draft_encoded-lasting :
      (R : Redis) (doc : IsDocumented R) (retention : ℤ) (n new : Notification)
      (groups : Option String)
      → (d : R.Db) → encode_groups clock json n.required_groups ≡ groups
      → R.view d (notif_key n.id) ≡ none
      → (draft_encoded clock json R retention n groups d).1 ≡ some new
      → (s : String) × (encode_groups clock json n.required_groups ≡ some s)
        × (n ≡ new)
        × (R.view (draft_encoded clock json R retention n groups d).0 (notif_key n.id)
            ≡ lasting retention n s)
  draft_encoded-lasting R doc retention n new none d e free k = cc k
  draft_encoded-lasting R doc retention n new (some s) d e free k =
      let (same, there) = drafted-lasting R doc retention n new s d _ refl free k in
      (s, e, same, there)

  fetched-hash :
      (R : Redis) (doc : IsDocumented R) (n : Notification) (s : String) (d : R.Db)
      → (reply : Option (GoMap String)) → (R.hgetall (notif_key n.id) d).1 ≡ reply
      → encode_groups clock json n.required_groups ≡ some s
      → R.view d (notif_key n.id) ≡ some (hash (put_all (notif_fields clock json n s) []))
      → (fetched clock json R reply ≡ found n) ⊎ (fetched clock json R reply ≡ store_error)
  unfolding put_all notif_fields insert lookup
  fetched-hash R doc n s d none h e v = inr refl
  fetched-hash R doc n s d (some []) h e v =
      let read = doc.hgetall_answer (notif_key n.id) d [] h "id" in
      cc (read, ap (λ o. lookup "id" (fields_at o)) v)
  fetched-hash R doc n s d (some (x ∷ f)) h e v = inl (
      ap (parsed clock json R) (
        notif_from_hash-notif_fields n s (x ∷ f) e (λ key.
          doc.hgetall_answer (notif_key n.id) d (x ∷ f) h key
          ∙ ap (λ o. lookup key (fields_at o)) v)))

  -- Of a key that is not there, `Get` says so.
  fetched-none :
      (R : Redis) (doc : IsDocumented R) (key : String) (d : R.Db) (reply : Option (GoMap String))
      → (R.hgetall key d).1 ≡ reply
      → R.view d key ≡ none
      → (fetched clock json R reply ≡ not_found) ⊎ (fetched clock json R reply ≡ store_error)
  unfolding lookup
  fetched-none R doc key d none h v = inr refl
  fetched-none R doc key d (some []) h v = inl refl
  fetched-none R doc key d (some ((f, x) ∷ rest)) h v =
      let read = doc.hgetall_answer key d ((f, x) ∷ rest) h f in
      let first : lookup f ((f, x) ∷ rest) ≡ some x = rw (eq_refl f) refl in
      cc (read ∙ ap (λ o. lookup f (fields_at o)) v, first)

  -- What `CreateDraft` stored, `Get` returns, field by field: after a `CreateDraft` under a fresh id
  -- that returned a notification, and as long as what stands under its key stays as it is, a `Get` of
  -- the id returns that very notification if the retention is positive. If it is not, the
  -- notification is gone at once, and `Get` does not find it. Either may fail to reach the server.
  pub get_notification-create_draft :
      (R : Redis) (doc : IsDocumented R) (retention : ℤ) (id : String) (now : ℕ) (draft : Draft)
      → (new : Notification) (d e : R.Db) → R.view d (notif_key id) ≡ none
      → (create_draft clock json R retention id now draft d).1 ≡ some new
      → R.view e (notif_key id)
        ≡ R.view (create_draft clock json R retention id now draft d).0 (notif_key id)
      → ((pos 0 <ℤ retention)
          × (((get_notification clock json R id e).1 ≡ found new)
              ⊎ ((get_notification clock json R id e).1 ≡ store_error)))
        ⊎ ((retention ≤ℤ pos 0)
            × (((get_notification clock json R id e).1 ≡ not_found)
                ⊎ ((get_notification clock json R id e).1 ≡ store_error)))
  unfolding create_draft get_notification notification_of
  get_notification-create_draft R doc retention id now draft new d e free k v =
      let n = notification_of id now draft in
      let (s, enc, same, there) = draft_encoded-lasting R doc retention n new _ d refl free k in
      elim (Bool-cases (ltb_ℤ (pos 0) retention)) [
        | inl b ↦
            let stored = v ∙ there ∙ if_taken (ltb_ℤ (pos 0) retention) _ _ b in
            inl (
              ground arith,
              elim (fetched-hash R doc n s e _ refl enc stored) [
                | inl p ↦ inl (p ∙ ap found same)
                | inr p ↦ inr p
              ],
            )
        | inr b ↦
            let gone = v ∙ there ∙ if_passed (ltb_ℤ (pos 0) retention) _ _ b in
            inr (ground arith, fetched-none R doc (notif_key id) e _ refl gone)
      ]
