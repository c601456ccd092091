-- ===== src/Redis/Documented.antt =====
-- What Redis documents of the commands that the stores of internal/ send.
use nebari_landing.Base.{
  String, Bool, true, false, none, some, List, ◌≡◌, ◌≢◌, ◌⊎◌, ◌↔◌, Memᴰ, GoMap, lookup,
  if◌then◌else◌, str_eq,
}
use nebari_landing.Redis.{
  Redis, text, answer, missing, effects, fields_at, members_at, ranks_at, newest_first,
}

-- The hypotheses on the server, named after the call they describe. Of a pipeline that failed
-- nothing is known, since any part of it may have been executed.
pub record IsDocumented (R : Redis) : Type 0 where
  -- Every command of a pipeline without an error was executed, in order.
  pub pipeline_done :
      (cs : _) (d : R.Db)
      → (R.pipeline cs d).1 ≡ true
      → (key : String) → R.view (R.pipeline cs d).0 key ≡ effects cs (R.view d) key
  -- SET NX answers exactly where the key was free, and otherwise changes nothing.
  pub set_nx_answer :
      (key value : String) (d : R.Db)
      → (R.set_nx key value d).1 ≡ answer tt
      → (R.view d key ≡ none)
        × ((k : String)
            → R.view (R.set_nx key value d).0 k
              ≡ (if str_eq key k then some (text value) else R.view d k))
  pub set_nx_missing :
      (key value : String) (d : R.Db)
      → (R.set_nx key value d).1 ≡ missing
      → (R.view d key ≢ none) × ((k : String) → R.view (R.set_nx key value d).0 k ≡ R.view d k)
  -- SET writes its own key or fails, and touches no other key.
  pub set_for_done :
      (key value : String) (ttl : _) (d : R.Db)
      → (R.set_for key value ttl d).1 ≡ true
      → R.view (R.set_for key value ttl d).0 key ≡ some (text value)
  pub set_for_other :
      (key value : String) (ttl : _) (d : R.Db) (k : String)
      → str_eq key k ≡ false
      → R.view (R.set_for key value ttl d).0 k ≡ R.view d k
  -- GETDEL answers with the text of the key and removes the key; `redis.Nil` says that there is no
  -- such key; at worst it removes its key and fails.
  pub get_del_answer :
      (key value : String) (d : R.Db)
      → (R.get_del key d).1 ≡ answer value
      → (R.view d key ≡ some (text value)) × (R.view (R.get_del key d).0 key ≡ none)
  pub get_del_other :
      (key : String) (d : R.Db) (k : String)
      → (R.view (R.get_del key d).0 k ≡ R.view d k)
        ⊎ ((str_eq key k ≡ true) × (R.view (R.get_del key d).0 k ≡ none))
  pub get_del_missing :
      (key : String) (d : R.Db) → (R.get_del key d).1 ≡ missing → R.view d key ≡ none
  -- A read changes nothing, and answers with the hash, the set, the sorted set, or whether the key
  -- is there. A map and a set come in any order.
  pub hgetall_view :
      (key : String) (d : R.Db) (k : String) → R.view (R.hgetall key d).0 k ≡ R.view d k
  pub hgetall_answer :
      (key : String) (d : R.Db) (fields : GoMap String)
      → (R.hgetall key d).1 ≡ some fields
      → (f : String) → lookup f fields ≡ lookup f (fields_at (R.view d key))
  pub smembers_view :
      (key : String) (d : R.Db) (k : String) → R.view (R.smembers key d).0 k ≡ R.view d k
  pub smembers_answer :
      (key : String) (d : R.Db) (l : List String)
      → (R.smembers key d).1 ≡ some l
      → (m : String) → Memᴰ m l ↔ Memᴰ m (members_at (R.view d key))
  pub zrange_rev_view :
      (key : String) (d : R.Db) (k : String) → R.view (R.zrange_rev key d).0 k ≡ R.view d k
  pub zrange_rev_answer :
      (key : String) (d : R.Db) (l : List String)
      → (R.zrange_rev key d).1 ≡ some l
      → l ≡ newest_first (ranks_at (R.view d key))
  pub exists_view :
      (key : String) (d : R.Db) (k : String) → R.view (R.exists key d).0 k ≡ R.view d k
  pub exists_answer :
      (key : String) (d : R.Db) (b : Bool)
      → (R.exists key d).1 ≡ some b
      → (b ≡ true) ↔ (R.view d key ≢ none)
