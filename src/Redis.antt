-- ===== src/Redis.antt =====
-- github.com/redis/go-redis, as the four stores of internal/ call it: a parameter. `db` stands for the
-- server together with the connection to it, so that a call may fail at one time and not at another.
pub mod Documented
pub mod Effects
use nebari_landing.Base.{
  ℕ, String, Bool, true, false, not, ◌&&◌, ◌||◌, Option, none, some, List, [], ◌∷◌, ◌==◌, ltb,
  if◌then◌else◌, str_eq, str_ltb, keep, has, map, GoMap, insert, delete, values, insertion_sort, ℤ,
  pos, ltb_ℤ,
}

-- What stands under a key. The scores of a sorted set are those of its members.
pub data Stored : Type 0 where
  text : String → Stored
  hash : GoMap String → Stored
  members : List String → Stored
  ranked : GoMap ℕ → Stored

-- What `Result()` or `Err()` returns: an answer, `redis.Nil`, or another error.
pub data Reply (A : Type 0) : Type 0 where
  answer : A → Reply A
  missing : Reply A
  failed : Reply A

-- The writes that the stores put into a pipeline.
pub data Command : Type 0 where
  hset : String → GoMap String → Command
  zadd : String → ℕ → String → Command
  zrem : String → String → Command
  sadd : String → String → Command
  srem : String → String → Command
  del : String → Command
  expire : String → ℤ → Command

-- `Pipelined` returns whether every command was answered without an error; a write that stands
-- alone is a pipeline of one. `SetArgs` with mode NX, `Set` with a time to live, `GetDel`,
-- `HGetAll`, `SMembers`, `ZRangeArgs` with Rev over the whole set, and `Exists` of one key.
pub record Redis : Type 1 where
  pub Db : Type 0
  pub view : Db → String → Option Stored
  pub pipeline : List Command → Db → Db × Bool
  pub set_nx : String → String → Db → Db × Reply Unit
  pub set_for : String → String → ℕ → Db → Db × Bool
  pub get_del : String → Db → Db × Reply String
  pub hgetall : String → Db → Db × Option (GoMap String)
  pub smembers : String → Db → Db × Option (List String)
  pub zrange_rev : String → Db → Db × Option (List String)
  pub exists : String → Db → Db × Option Bool

-- The documented effect of a command, as a reference that the hypotheses on `Redis` name.

abbrev pub target : Command → String
target (hset key fields) = key
target (zadd key score member) = key
target (zrem key member) = key
target (sadd key member) = key
target (srem key member) = key
target (del key) = key
target (expire key ttl) = key

-- An empty set is no key.
abbrev pub some_members : List String → Option Stored
some_members [] = none
some_members (x ∷ l) = some (members (x ∷ l))

abbrev pub some_ranked : GoMap ℕ → Option Stored
some_ranked [] = none
some_ranked (x ∷ l) = some (ranked (x ∷ l))

unfoldable pub put_all : GoMap String → GoMap String → GoMap String
put_all [] old = old
put_all ((field, value) ∷ rest) old = put_all rest (insert field value old)

-- What the command makes of the value under its key. On a value of another type it fails.
-- EXPIRE with a time that is not positive deletes its key.
unfoldable pub write : Command → Option Stored → Option Stored
write (hset key fields) none = some (hash (put_all fields []))
write (hset key fields) (some (hash old)) = some (hash (put_all fields old))
write (zadd key score member) none = some (ranked ((member, score) ∷ []))
write (zadd key score member) (some (ranked old)) = some (ranked (insert member score old))
write (zrem key member) (some (ranked old)) = some_ranked (delete member old)
write (sadd key member) none = some (members (member ∷ []))
write (sadd key member) (some (members old)) =
    some (members (if has member old then old else member ∷ old))
write (srem key member) (some (members old)) = some_members (keep (λ m. not (str_eq member m)) old)
write (del key) old = none
write (expire key ttl) old = if ltb_ℤ (pos 0) ttl then old else none
write _ old = old

unfoldable pub effect : Command → (String → Option Stored) → String → Option Stored
effect c before key = if str_eq (target c) key then write c (before key) else before key

unfoldable pub effects : List Command → (String → Option Stored) → String → Option Stored
effects [] before = before
effects (c ∷ rest) before = effects rest (effect c before)

abbrev pub fields_at : Option Stored → GoMap String
fields_at (some (hash fields)) = fields
fields_at _ = []

abbrev pub members_at : Option Stored → List String
members_at (some (members l)) = l
members_at _ = []

abbrev pub ranks_at : Option Stored → GoMap ℕ
ranks_at (some (ranked l)) = l
ranks_at _ = []

-- ZRANGE with REV: the higher score first, and the greater text first among equal scores.
unfoldable pub ranks_before : String × ℕ → String × ℕ → Bool
ranks_before (m, s) (n, t) = ltb t s || ((s == t) && str_ltb n m)

unfoldable pub newest_first : GoMap ℕ → List String
newest_first ranks = map (λ r. r.0) (insertion_sort ranks_before ranks)
