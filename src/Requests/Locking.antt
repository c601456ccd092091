-- ===== src/Requests/Locking.antt =====
-- internal/accessrequests/store.go: the lock that keeps a user from asking twice for one service.
use nebari_landing.Base.{
  ℕ, String, Bool, true, false, Option, none, some, [], ◌∷◌, ◌≡◌, ◌≢◌, refl, sym, ap, ◌∙◌, ◌⊎◌, inl,
  inr, GoMap, str_eq, eq_refl, str_eq-append, str_eq-append_false_right, str_eq-clash, drop_prefix,
  append_assoc, ◌+++◌, has_prefix,
}
use nebari_landing.Redis.{
  Redis, Reply, answer, missing, failed, effect, effects, write, text, Stored,
}
use nebari_landing.Redis.Documented.{IsDocumented}
use nebari_landing.Redis.Effects.{effects-untouched}
use nebari_landing.Requests.{
  Clock, AccessRequest, done, duplicate_pending, store_error, dedup_key, request_key, pending_key,
  all_key, create, create_commands, create_locked, write_request, update_status, update_fetched,
  update_parsed, update_commands, written, resolved, from_hash,
}

module _ (clock : Clock) (R : Redis) (doc : IsDocumented R) where
  -- The lock's key, of the request that `create` is given.
  abbrev lock_of : AccessRequest → String
  lock_of req = dedup_key req.user_id req.service_uid

  create_locked-refused :
      (req : AccessRequest) (d : R.Db) (reply : R.Db × Reply Unit)
      → R.set_nx (lock_of req) req.id d ≡ reply
      → R.view d (lock_of req) ≢ none
      → (((create_locked clock R req reply).1 ≡ duplicate_pending)
          × ((k : String) → R.view (create_locked clock R req reply).0 k ≡ R.view d k))
        ⊎ ((create_locked clock R req reply).1 ≡ store_error)
  create_locked-refused req d (e, answer a) h n =
      absurd (n (doc.set_nx_answer (lock_of req) req.id d (ap (λ r. r.1) h)).0)
  create_locked-refused req d (e, missing) h n = inl (
    refl,
    λ k.
        ap (λ r. R.view r.0 k) (sym h)
        ∙ (doc.set_nx_missing (lock_of req) req.id d (ap (λ r. r.1) h)).1 k,
  )
  create_locked-refused req d (e, failed) h n = inr refl

  -- Where the lock of a user and a service is held, `Create` for them writes nothing and answers
  -- ErrDuplicatePending, or it fails to reach the server.
  pub create-refused :
      (req : AccessRequest) (d : R.Db)
      → R.view d (dedup_key req.user_id req.service_uid) ≢ none
      → (((create clock R req d).1 ≡ duplicate_pending)
          × ((k : String) → R.view (create clock R req d).0 k ≡ R.view d k))
        ⊎ ((create clock R req d).1 ≡ store_error)
  unfolding create
  create-refused req d n = create_locked-refused req d _ refl n

  -- An id that `uuid.NewString` may return: it is the rest of no other key of the store.
  abbrev pub IsId : String → Type 0
  IsId id = (has_prefix id "dedup:" ≡ false)

  create_commands-lock :
      (req : AccessRequest) (v : String → Option Stored)
      → IsId req.id
      → effects (create_commands clock req) v (lock_of req) ≡ v (lock_of req)
  unfolding create_commands has_prefix drop_prefix
  create_commands-lock req v i =
      let x = req.user_id +++ (":" +++ req.service_uid) in
      effects-untouched (create_commands clock req) v (lock_of req) (
        ap (λ u. str_eq (request_key req.id) u) (append_assoc "nebari:ar:" "dedup:" x)
            ∙ (str_eq-append "nebari:ar:" req.id ("dedup:" +++ x)
                ∙ str_eq-append_false_right "dedup:" x req.id i),
        (
          str_eq-append_false_right "nebari:ar:dedup:" x all_key refl,
          (
            str_eq-append_false_right "nebari:ar:dedup:" x pending_key refl,
            (str_eq-clash "nebari:ar:user:" "nebari:ar:dedup:" req.user_id x refl refl, tt),
          ),
        ),
      )

  write_request-locks :
      (req new : AccessRequest) (d : R.Db) (reply : R.Db × Bool)
      → IsId req.id
      → R.pipeline (create_commands clock req) d ≡ reply
      → (write_request clock R req reply).1 ≡ done new
      → R.view d (lock_of req) ≡ some (text req.id)
      → R.view (write_request clock R req reply).0 (lock_of req) ≡ some (text req.id)
  write_request-locks req new d (e, true) i h k v =
      ap (λ r. R.view r.0 (lock_of req)) (sym h)
      ∙ (doc.pipeline_done (create_commands clock req) d (ap (λ r. r.1) h) (lock_of req)
          ∙ (create_commands-lock req (R.view d) i ∙ v))
  write_request-locks req new d (e, false) i h k v = cc k

  create_locked-locks :
      (req new : AccessRequest) (d : R.Db) (reply : R.Db × Reply Unit)
      → IsId req.id
      → R.set_nx (lock_of req) req.id d ≡ reply
      → (create_locked clock R req reply).1 ≡ done new
      → R.view (create_locked clock R req reply).0 (lock_of req) ≡ some (text req.id)
  create_locked-locks req new d (e, answer tt) i h k = write_request-locks req new e _ i refl k (
      ap (λ r. R.view r.0 (lock_of req)) (sym h)
      ∙ ((doc.set_nx_answer (lock_of req) req.id d (ap (λ r. r.1) h)).1 (lock_of req)
          ∙ (rw (eq_refl (lock_of req)) refl)))
  create_locked-locks req new d (e, missing) i h k = cc k
  create_locked-locks req new d (e, failed) i h k = cc k

  -- A user who has asked for a service cannot ask again: after a `Create` that returned a request,
  -- and as long as nothing changes the lock of its user and its service, a `Create` for them writes
  -- nothing and answers ErrDuplicatePending, or it fails to reach the server.
  pub create-once :
      (req new again : AccessRequest) (d e : R.Db)
      → IsId req.id
      → (create clock R req d).1 ≡ done new
      → R.view e (lock_of req) ≡ R.view (create clock R req d).0 (lock_of req)
      → again.user_id ≡ req.user_id
      → again.service_uid ≡ req.service_uid
      → (((create clock R again e).1 ≡ duplicate_pending)
          × ((k : String) → R.view (create clock R again e).0 k ≡ R.view e k))
        ⊎ ((create clock R again e).1 ≡ store_error)
  unfolding create
  create-once req new again d e i h v p q =
      create-refused again e (λ n. cc (create_locked-locks req new d _ i refl h, v, p, q, n))

  -- The commands that resolve a request leave its lock free and its id out of the pending index.
  update_commands-lock :
      (now : ℕ) (id status by : String) (req : AccessRequest) (v : String → Option Stored)
      → effects (update_commands clock R now id status by req) v (lock_of req) ≡ none
  unfolding update_commands effects effect write
  update_commands-lock now id status by req v = rw (eq_refl (lock_of req)) refl

  written-lock :
      (now : ℕ) (id status by : String) (old new : AccessRequest) (d : R.Db) (reply : R.Db × Bool)
      → R.pipeline (update_commands clock R now id status by old) d ≡ reply
      → (written clock R (resolved clock R now status by old) reply).1 ≡ done new
      → (resolved clock R now status by old ≡ new)
        × (R.view (written clock R (resolved clock R now status by old) reply).0 (lock_of old)
            ≡ none)
  written-lock now id status by old new d (e, true) h k = (
    cc k,
    ap (λ r. R.view r.0 (lock_of old)) (sym h)
        ∙ (doc.pipeline_done (update_commands clock R now id status by old) d (ap (λ r. r.1) h)
              (lock_of old)
            ∙ update_commands-lock now id status by old (R.view d)),
  )
  written-lock now id status by old new d (e, false) h k = cc k

  update_parsed-lock :
      (now : ℕ) (id status by : String) (parsed : Option AccessRequest) (new : AccessRequest)
      (d : R.Db)
      → (update_parsed clock R now id status by parsed d).1 ≡ done new
      → R.view (update_parsed clock R now id status by parsed d).0 (lock_of new) ≡ none
  update_parsed-lock now id status by none new d k = cc k
  update_parsed-lock now id status by (some old) new d k =
      let (same, free) = written-lock now id status by old new d _ refl k in
      ap (λ r. R.view (update_parsed clock R now id status by (some old) d).0 (lock_of r))
        (sym same)
      ∙ free

  update_fetched-lock :
      (now : ℕ) (id status by : String) (reply : R.Db × Option (GoMap String)) (new : AccessRequest)
      → (update_fetched clock R now id status by reply).1 ≡ done new
      → R.view (update_fetched clock R now id status by reply).0 (lock_of new) ≡ none
  update_fetched-lock now id status by (d, none) new k = cc k
  update_fetched-lock now id status by (d, some []) new k = cc k
  update_fetched-lock now id status by (d, some (x ∷ f)) new k =
      update_parsed-lock now id status by (from_hash clock (x ∷ f)) new d k

  create_locked-free :
      (req : AccessRequest) (d : R.Db) (reply : R.Db × Reply Unit)
      → R.set_nx (lock_of req) req.id d ≡ reply
      → R.view d (lock_of req) ≡ none
      → (create_locked clock R req reply).1 ≢ duplicate_pending
  create_locked-free req d (e, answer a) h n k =
      write_request-accepted (R.pipeline (create_commands clock req) e) k
    where
      write_request-accepted :
          (p : R.Db × Bool) → (write_request clock R req p).1 ≢ duplicate_pending
      write_request-accepted (f, true) q = cc q
      write_request-accepted (f, false) q = cc q
  create_locked-free req d (e, missing) h n k =
      (doc.set_nx_missing (lock_of req) req.id d (ap (λ r. r.1) h)).0 n
  create_locked-free req d (e, failed) h n k = cc k

  -- Resolving a request lets its user ask again: whatever the server held before, a `Create` right
  -- after an `UpdateStatus` that returned a request of the same user and service is not refused as
  -- a duplicate. That is so although the request may have been resolved before, and another one of
  -- theirs be pending.
  pub update_status-releases :
      (now : ℕ) (id status by : String) (new again : AccessRequest) (d : R.Db)
      → (update_status clock R now id status by d).1 ≡ done new
      → again.user_id ≡ new.user_id
      → again.service_uid ≡ new.service_uid
      → (create clock R again (update_status clock R now id status by d).0).1 ≢ duplicate_pending
  unfolding update_status create
  update_status-releases now id status by new again d h p q =
      create_locked-free again _ _ refl
        (cc (update_fetched-lock now id status by (R.hgetall (request_key id) d) new h, p, q))
