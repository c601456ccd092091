-- ===== src/Requests.antt =====
-- internal/accessrequests/store.go: the requests of users for access to a private service. Redis and
-- the text form of a time are parameters; the fresh id and the time of a call are arguments.
mod Record
pub mod Locking
unfoldable pub use Record.*
use nebari_landing.Base.{
  ℕ, ◌/◌, String, Bool, true, false, Option, none, some, List, [], ◌∷◌, ◌+++◌, if◌then◌else◌,
  is_blank, GoMap, lookup,
}
use nebari_landing.Redis.{Redis, Reply, answer, missing, failed, Command, hset, zadd, zrem, del}

module _ (clock : Clock) where
  abbrev pub add_readable : Option AccessRequest → List AccessRequest → List AccessRequest
  add_readable none rest = rest
  add_readable (some req) rest = req ∷ rest

  module _ (R : Redis) where
    -- The last part of `Create`: where the pipeline fails the lock is given back.
    abbrev pub write_request : AccessRequest → R.Db × Bool → R.Db × Outcome
    write_request req (d, true) = (d, done req)
    write_request req (d, false) =
        ((R.pipeline (del (dedup_key req.user_id req.service_uid) ∷ []) d).0, store_error)

    abbrev pub create_locked : AccessRequest → R.Db × Reply Unit → R.Db × Outcome
    create_locked req (d, answer _) = write_request req (R.pipeline (create_commands clock req) d)
    create_locked req (d, missing) = (d, duplicate_pending)
    create_locked req (d, failed) = (d, store_error)

    -- `Create`, on the request that it builds first.
    unfoldable pub create : AccessRequest → R.Db → R.Db × Outcome
    create req d = create_locked req (R.set_nx (dedup_key req.user_id req.service_uid) req.id d)

    abbrev pub parsed : Option AccessRequest → Outcome
    parsed none = store_error
    parsed (some req) = done req

    abbrev pub fetched : Option (GoMap String) → Outcome
    fetched none = store_error
    fetched (some []) = not_found
    fetched (some (x ∷ f)) = parsed (from_hash clock (x ∷ f))

    -- `Get`
    unfoldable pub get_request : String → R.Db → R.Db × Outcome
    get_request id d = let reply = R.hgetall (request_key id) d in (reply.0, fetched reply.1)

    abbrev pub both :
        Option (GoMap String) → Option (List (GoMap String)) → Option (List (GoMap String))
    both none more = none
    both (some f) none = none
    both (some f) (some more) = some (f ∷ more)

    -- The pipeline of reads in `listFromIndex`: the first error of a command is the error of all.
    unfoldable pub fetch_all : List String → R.Db → R.Db × Option (List (GoMap String))
    fetch_all [] d = (d, some [])
    fetch_all (id ∷ rest) d =
        let first = R.hgetall (request_key id) d in
        let more = fetch_all rest first.0 in (more.0, both first.1 more.1)

    -- The loop over the hashes, which skips those that are absent or cannot be read.
    unfoldable pub readable : List (GoMap String) → List AccessRequest
    readable [] = []
    readable ([] ∷ rest) = readable rest
    readable ((x ∷ f) ∷ rest) = add_readable (from_hash clock (x ∷ f)) (readable rest)

    abbrev pub list_fetched :
        R.Db × Option (List (GoMap String)) → R.Db × Option (List AccessRequest)
    list_fetched (d, none) = (d, none)
    list_fetched (d, some hashes) = (d, some (readable hashes))

    abbrev pub list_ids : R.Db × Option (List String) → R.Db × Option (List AccessRequest)
    list_ids (d, none) = (d, none)
    list_ids (d, some []) = (d, some [])
    list_ids (d, some (id ∷ ids)) = list_fetched (fetch_all (id ∷ ids) d)

    -- `listFromIndex`, `none` where it returns an error.
    unfoldable pub list_from_index : String → R.Db → R.Db × Option (List AccessRequest)
    list_from_index key d = list_ids (R.zrange_rev key d)

    -- `ListAll`
    unfoldable pub list_all : R.Db → R.Db × Option (List AccessRequest)
    list_all d = list_from_index all_key d

    -- `ListPending`
    unfoldable pub list_pending : R.Db → R.Db × Option (List AccessRequest)
    list_pending d = list_from_index pending_key d

    -- `ListForUser`
    unfoldable pub list_for_user : String → R.Db → R.Db × Option (List AccessRequest)
    list_for_user user_id d = list_from_index (user_key user_id) d

    abbrev pub resolved : ℕ → String → String → AccessRequest → AccessRequest
    resolved now status by req = record req {
      status = status;
      resolved_at = some now;
      resolved_by = by;
    }

    -- The commands of `UpdateStatus`'s pipeline.
    unfoldable pub update_commands : ℕ → String → String → String → AccessRequest → List Command
    update_commands now id status by req =
        hset (request_key id)
          (("status", status) ∷ ("resolvedAt", clock.format now) ∷ ("resolvedBy", by) ∷ [])
        ∷ zrem pending_key id
        ∷ del (dedup_key req.user_id req.service_uid)
        ∷ []

    abbrev pub written : AccessRequest → R.Db × Bool → R.Db × Outcome
    written req (d, true) = (d, done req)
    written req (d, false) = (d, store_error)

    abbrev pub update_parsed :
        ℕ → String → String → String → Option AccessRequest → R.Db → R.Db × Outcome
    update_parsed now id status by none d = (d, store_error)
    update_parsed now id status by (some req) d =
        written (resolved now status by req) (R.pipeline (update_commands now id status by req) d)

    abbrev pub update_fetched :
        ℕ → String → String → String → R.Db × Option (GoMap String) → R.Db × Outcome
    update_fetched now id status by (d, none) = (d, store_error)
    update_fetched now id status by (d, some []) = (d, not_found)
    update_fetched now id status by (d, some (x ∷ f)) =
        update_parsed now id status by (from_hash clock (x ∷ f)) d

    -- `UpdateStatus`
    unfoldable pub update_status : ℕ → String → String → String → R.Db → R.Db × Outcome
    update_status now id status by d =
        update_fetched now id status by (R.hgetall (request_key id) d)
