-- ===== src/Auth/Bounded.antt =====
-- The memory that unknown key ids take.
use nebari_landing.Base.{
  ℕ, String, ◌+◌, ◌≤◌, ◌<◌, Bool, true, false, not, Option, none, some, List, [], ◌∷◌, arith,
  if◌then◌else◌, Bool-cases, eq_refl, ltb, leb, inl, inr, GoMap, lookup, insert, delete, length,
  keep,
}
use nebari_landing.Auth.{
  Validator, RsaKey, Jwk, max_unknown, unknown_ttl, start_refresh, start_by, fetch_keys,
  install_keys, load_keys, finish_refresh, init_attempt, cached_entry, unknown_cached,
  prune_unknown, make_room, remember_unknown, new_validator, bump,
}
use nebari_landing.Auth.Refresh.{Step, starts, finishes, tries, looks_up, remembers, act, acts}

length-keep {ℓ} : {A : Type ℓ} (p : A → Bool) (l : List A) → length (keep p l) ≤ length l
unfolding keep
length-keep p [] = omega arith
length-keep p (a ∷ l) = ground (arith, length-keep p l)

length-insert : (k : String) (v : ℕ) (m : GoMap ℕ) → length (insert k v m) ≤ length m + 1
unfolding insert
length-insert k v [] = omega arith
length-insert k v ((j, w) ∷ m) = ground (arith, length-insert k v m)

length-delete : (k : String) (m : GoMap ℕ) → length (delete k m) ≤ length m
unfolding delete
length-delete k [] = omega arith
length-delete k ((j, w) ∷ m) = ground (arith, length-delete k m)

length-drop_one :
    (kid : String) (t : ℕ) (m : GoMap ℕ) → length (delete kid ((kid, t) ∷ m)) ≤ length m
unfolding delete
length-drop_one kid t m = rw (eq_refl kid) (length-delete kid m)

length-make_room : (m : GoMap ℕ) → length m ≤ max_unknown → length (make_room m) < max_unknown
length-make_room [] h = omega arith
length-make_room ((kid, t) ∷ m) h = elim (Bool-cases (leb max_unknown (length ((kid, t) ∷ m)))) [
  | inl e ↦ rw e (ground (arith, length-drop_one kid t m))
  | inr e ↦ rw e (ground arith)
]

abbrev IsBounded : Validator → Type 0
IsBounded v = length v.unknown_kids ≤ max_unknown

remember_unknown-IsBounded :
    (now : ℕ) (kid : String) (v : Validator) → IsBounded v → IsBounded (remember_unknown now kid v)
unfolding remember_unknown prune_unknown
remember_unknown-IsBounded now kid v h =
    let kept = keep (λ (e : String × ℕ). not (ltb e.1 now)) v.unknown_kids in
    let a : length kept ≤ length v.unknown_kids =
      length-keep (λ (e : String × ℕ). not (ltb e.1 now)) v.unknown_kids in
    let b : length (make_room kept) < max_unknown = length-make_room kept (omega arith) in
    let c : length (insert kid (now + unknown_ttl) (make_room kept)) ≤ length (make_room kept) + 1 =
      length-insert kid (now + unknown_ttl) (make_room kept) in
    omega arith

start_by-IsBounded :
    (b r : Bool) (now : ℕ) (v : Validator) → IsBounded v → IsBounded (start_by b r now v).0
start_by-IsBounded true r now v h = h
start_by-IsBounded false true now v h = h
start_by-IsBounded false false now v h = h

cached_entry-IsBounded :
    (now : ℕ) (kid : String) (o : Option ℕ) (v : Validator)
    → IsBounded v
    → IsBounded (cached_entry now kid o v).0
cached_entry-IsBounded now kid none v h = h
cached_entry-IsBounded now kid (some t) v h = elim (Bool-cases (ltb t now)) [
  | inl e ↦ rw e (ground (arith, length-delete kid v.unknown_kids))
  | inr e ↦ rw e h
]

install_keys-IsBounded :
    (now : ℕ) (m : GoMap RsaKey) (v : Validator) → IsBounded v → IsBounded (install_keys now m v).0
install_keys-IsBounded now [] v h = h
install_keys-IsBounded now (e ∷ m) v h = omega arith

fetch_keys-IsBounded :
    (decode : String → Option (List ℕ)) (now : ℕ) (reply : Option (List Jwk)) (v : Validator)
    → IsBounded v
    → IsBounded (fetch_keys decode now reply v).0
unfolding fetch_keys
fetch_keys-IsBounded decode now none v h = h
fetch_keys-IsBounded decode now (some keys) v h =
    install_keys-IsBounded now (load_keys decode keys [])
      (record v { refresh_attempts = bump v.refresh_attempts }) h

ready-IsBounded :
    (w : Validator × Bool)
    → IsBounded w.0
    → IsBounded (if w.1 then record (w.0) { ready = true } else w.0)
ready-IsBounded (v, true) h = h
ready-IsBounded (v, false) h = h

act-IsBounded :
    (decode : String → Option (List ℕ)) (s : Step) (w : Validator × List ℕ)
    → IsBounded w.0
    → IsBounded (act decode s w).0
unfolding act start_refresh finish_refresh init_attempt unknown_cached
act-IsBounded decode (starts now) (v, log) h = start_by-IsBounded _ _ now v h
act-IsBounded decode (finishes now reply) (v, log) h = fetch_keys-IsBounded decode now reply v h
act-IsBounded decode (tries now reply) (v, log) h =
    ready-IsBounded (fetch_keys decode now reply v) (fetch_keys-IsBounded decode now reply v h)
act-IsBounded decode (looks_up now kid) (v, log) h =
    cached_entry-IsBounded now kid (lookup kid v.unknown_kids) v h
act-IsBounded decode (remembers now kid) (v, log) h = remember_unknown-IsBounded now kid v h

acts-keeps_bound :
    (decode : String → Option (List ℕ)) (steps : List Step) (w : Validator × List ℕ)
    → IsBounded w.0
    → IsBounded (acts decode steps w).0
unfolding acts
acts-keeps_bound decode [] w h = h
acts-keeps_bound decode (s ∷ rest) w h =
    acts-keeps_bound decode rest (act decode s w) (act-IsBounded decode s w h)

-- Whatever happens to a new validator, it never remembers more than 1024 unknown key ids.
pub acts-bounded :
    (decode : String → Option (List ℕ)) (steps : List Step) (keycloak_url realm : String)
    → length (acts decode steps (new_validator keycloak_url realm, [])).0.unknown_kids ≤ 1024
unfolding new_validator
acts-bounded decode steps keycloak_url realm =
    acts-keeps_bound decode steps (new_validator keycloak_url realm, []) (omega arith)
