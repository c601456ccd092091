-- ===== src/Tests/Memory.antt =====
-- A Redis server whose keys stand in a function, to run the stores of internal/ on.
use nebari_landing.Base.{
  String, Bool, true, Option, none, some, ◌≡◌, ◌≢◌, ◌⊎◌, inl, inr, ◌↔◌, refl, ap, subst, Memᴰ,
  is_some, str_eq, eq_refl, if◌then◌else◌, Bool-cases, lookup,
}
use nebari_landing.Redis.{
  Redis, Stored, text, hash, members, ranked, Reply, answer, missing, failed, effects, fields_at,
  members_at, ranks_at, newest_first,
}
use nebari_landing.Redis.Documented.{IsDocumented}

abbrev pub Keys : Type 0
Keys = String → Option Stored

abbrev pub set_key : String → Option Stored → Keys → Keys
set_key key value d k = if str_eq key k then value else d k

abbrev pub set_free : String → String → Keys → Option Stored → Keys × Reply Unit
set_free key value d none = (set_key key (some (text value)) d, answer tt)
set_free key value d (some v) = (d, missing)

abbrev pub take_key : String → Keys → Option Stored → Keys × Reply String
take_key key d none = (d, missing)
take_key key d (some (text v)) = (set_key key none d, answer v)
take_key key d (some v) = (d, failed)

abbrev pub memory : Redis
memory = record {
  Db = Keys;
  view = λ d. d;
  pipeline = λ cs d. (effects cs d, true);
  set_nx = λ key value d. set_free key value d (d key);
  set_for = λ key value ttl d. (set_key key (some (text value)) d, true);
  get_del = λ key d. take_key key d (d key);
  hgetall = λ key d. (d, some (fields_at (d key)));
  smembers = λ key d. (d, some (members_at (d key)));
  zrange_rev = λ key d. (d, some (newest_first (ranks_at (d key))));
  exists = λ key d. (d, some (is_some (d key)));
}

set_free-answer :
    (key value : String) (d : Keys) (o : Option Stored)
    → (set_free key value d o).1 ≡ answer tt
    → (o ≡ none)
      × ((k : String)
          → (set_free key value d o).0 k ≡ (if str_eq key k then some (text value) else d k))
set_free-answer key value d none h = (refl, λ k. refl)
set_free-answer key value d (some v) h = cc h

set_free-missing :
    (key value : String) (d : Keys) (o : Option Stored)
    → (set_free key value d o).1 ≡ missing
    → (o ≢ none) × ((k : String) → (set_free key value d o).0 k ≡ d k)
set_free-missing key value d none h = cc h
set_free-missing key value d (some v) h = ((λ e. cc e), λ k. refl)

take_key-answer :
    (key value : String) (d : Keys) (o : Option Stored)
    → (take_key key d o).1 ≡ answer value
    → (o ≡ some (text value)) × ((take_key key d o).0 key ≡ none)
take_key-answer key value d none h = cc h
take_key-answer key value d (some (text v)) h = (cc h, rw (eq_refl key) refl)
take_key-answer key value d (some (hash v)) h = cc h
take_key-answer key value d (some (members v)) h = cc h
take_key-answer key value d (some (ranked v)) h = cc h

take_key-missing :
    (key : String) (d : Keys) (o : Option Stored) → (take_key key d o).1 ≡ missing → o ≡ none
take_key-missing key d none h = refl
take_key-missing key d (some (text v)) h = cc h
take_key-missing key d (some (hash v)) h = cc h
take_key-missing key d (some (members v)) h = cc h
take_key-missing key d (some (ranked v)) h = cc h

take_key-other :
    (key : String) (d : Keys) (o : Option Stored) (k : String)
    → ((take_key key d o).0 k ≡ d k) ⊎ ((str_eq key k ≡ true) × ((take_key key d o).0 k ≡ none))
take_key-other key d none k = inl refl
take_key-other key d (some (text v)) k = elim (Bool-cases (str_eq key k)) [
  | inl e ↦ inr (e, rw e refl)
  | inr e ↦ inl (rw e refl)
]
take_key-other key d (some (hash v)) k = inl refl
take_key-other key d (some (members v)) k = inl refl
take_key-other key d (some (ranked v)) k = inl refl

is_some_iff : (o : Option Stored) (b : Bool) → some (is_some o) ≡ some b → (b ≡ true) ↔ (o ≢ none)
is_some_iff none b h = ((λ e. cc (h, e)), λ n. absurd (n refl))
is_some_iff (some v) b h = ((λ e n. cc n), λ n. cc h)

pub memory-IsDocumented : IsDocumented memory
memory-IsDocumented = record {
  pipeline_done = λ cs d h key. refl;
  set_nx_answer = λ key value d h. set_free-answer key value d (d key) h;
  set_nx_missing = λ key value d h. set_free-missing key value d (d key) h;
  set_for_done = λ key value ttl d h. rw (eq_refl key) refl;
  set_for_other = λ key value ttl d k h. rw h refl;
  get_del_answer = λ key value d h. take_key-answer key value d (d key) h;
  get_del_other = λ key d k. take_key-other key d (d key) k;
  get_del_missing = λ key d h. take_key-missing key d (d key) h;
  hgetall_view = λ key d k. refl;
  hgetall_answer = λ key d fields h f. ap (λ m. lookup f m) (cc h);
  smembers_view = λ key d k. refl;
  smembers_answer = λ key d l h m.
      subst (λ u. Memᴰ m u ↔ Memᴰ m (members_at (d key))) (cc h) ((λ p. p), (λ p. p));
  zrange_rev_view = λ key d k. refl;
  zrange_rev_answer = λ key d l h. cc h;
  exists_view = λ key d k. refl;
  exists_answer = λ key d b h. is_some_iff (d key) b h;
}
