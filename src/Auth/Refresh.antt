-- ===== src/Auth/Refresh.antt =====
-- How often the keys are fetched again on request.
use nebari_landing.Base.{
  ℕ, String, ◌+◌, ◌≤◌, ◌≡◌, ◌∙◌, refl, sym, ap, Bool, true, false, ◌||◌, Option, none, some, List,
  [], ◌∷◌, arith, if◌then◌else◌, Bool-cases, ltb, inl, inr, GoMap, lookup,
}
use nebari_landing.Auth.{
  Validator, RsaKey, Jwk, Start, joined, skipped, started, recent, min_interval, start_refresh,
  start_by, new_validator, cached_entry, bump, fetch_keys, install_keys, load_keys, finish_refresh,
  init_attempt, unknown_cached, remember_unknown,
}

-- What can happen to a validator, each at its time.
pub data Step : Type 0 where
  starts : ℕ → Step
  finishes : ℕ → Option (List Jwk) → Step
  tries : ℕ → Option (List Jwk) → Step
  looks_up : ℕ → String → Step
  remembers : ℕ → String → Step

abbrev noted : ℕ → Start → List ℕ → List ℕ
noted now joined log = log
noted now skipped log = log
noted now started log = now ∷ log

-- One step, and the times of the refreshes that were started, the last one first.
unfoldable pub act : (String → Option (List ℕ)) → Step → Validator × List ℕ → Validator × List ℕ
act decode (starts now) (v, log) = let (v', s) = start_refresh now v in (v', noted now s log)
act decode (finishes now reply) (v, log) = ((finish_refresh decode now reply v).0, log)
act decode (tries now reply) (v, log) = (init_attempt decode now reply v, log)
act decode (looks_up now kid) (v, log) = ((unknown_cached now kid v).0, log)
act decode (remembers now kid) (v, log) = (remember_unknown now kid v, log)

unfoldable pub acts :
    (String → Option (List ℕ)) → List Step → Validator × List ℕ → Validator × List ℕ
acts decode [] w = w
acts decode (s ∷ rest) w = acts decode rest (act decode s w)

-- Each refresh is a full interval behind the one before it.
abbrev pub IsSpaced : List ℕ → Type 0
IsSpaced [] = Unit
IsSpaced (t ∷ []) = Unit
IsSpaced (t ∷ u ∷ l) = (u + min_interval ≤ t) × IsSpaced (u ∷ l)

abbrev last_of : List ℕ → Option ℕ
last_of [] = none
last_of (t ∷ l) = some t

-- The log is spaced, and its last entry is the one that the validator remembers.
record IsLogged (w : Validator × List ℕ) : Type 0 where
  spaced : IsSpaced w.1
  remembered : w.0.last_refresh_attempt ≡ last_of w.1

attempt-install_keys :
    (now : ℕ) (m : GoMap RsaKey) (v : Validator)
    → (install_keys now m v).0.last_refresh_attempt ≡ v.last_refresh_attempt
attempt-install_keys now [] v = refl
attempt-install_keys now (e ∷ m) v = refl

attempt-fetch_keys :
    (decode : String → Option (List ℕ)) (now : ℕ) (reply : Option (List Jwk)) (v : Validator)
    → (fetch_keys decode now reply v).0.last_refresh_attempt ≡ v.last_refresh_attempt
unfolding fetch_keys
attempt-fetch_keys decode now none v = refl
attempt-fetch_keys decode now (some keys) v =
    attempt-install_keys now (load_keys decode keys [])
      (record v { refresh_attempts = bump v.refresh_attempts })

attempt-init_attempt :
    (w : Validator × Bool)
    → (if w.1 then record (w.0) { ready = true } else w.0).last_refresh_attempt
      ≡ w.0.last_refresh_attempt
attempt-init_attempt (v, true) = refl
attempt-init_attempt (v, false) = refl

attempt-cached_entry :
    (now : ℕ) (kid : String) (o : Option ℕ) (v : Validator)
    → (cached_entry now kid o v).0.last_refresh_attempt ≡ v.last_refresh_attempt
attempt-cached_entry now kid none v = refl
attempt-cached_entry now kid (some t) v = elim (Bool-cases (ltb t now)) [
  | inl e ↦ rw e refl
  | inr e ↦ rw e refl
]

IsSpaced-cons :
    (now : ℕ) (log : List ℕ)
    → recent now (last_of log) ≡ false
    → IsSpaced log
    → IsSpaced (now ∷ log)
IsSpaced-cons now [] e s = tt
IsSpaced-cons now (t ∷ l) e s = (ground arith, s)

start_by-IsLogged :
    (b r : Bool) (now : ℕ) (v : Validator) (log : List ℕ)
    → (r ≡ false → recent now v.last_refresh_attempt ≡ false)
    → IsLogged (v, log)
    → IsLogged ((start_by b r now v).0, noted now (start_by b r now v).1 log)
start_by-IsLogged true r now v log f i = record { spaced = i.spaced; remembered = i.remembered }
start_by-IsLogged false true now v log f i = record { spaced = i.spaced; remembered = i.remembered }
start_by-IsLogged false false now v log f i = record {
  spaced = IsSpaced-cons now log (ap (recent now) (sym i.remembered) ∙ f refl) i.spaced;
  remembered = refl;
}

act-IsLogged :
    (decode : String → Option (List ℕ)) (s : Step) (v : Validator) (log : List ℕ)
    → IsLogged (v, log)
    → IsLogged (act decode s (v, log))
unfolding act start_refresh finish_refresh init_attempt unknown_cached remember_unknown
act-IsLogged decode (starts now) v log i =
    start_by-IsLogged v.refreshing (recent now v.last_refresh_attempt || recent now v.last_fetch)
      now v log (λ e. ground arith) i
act-IsLogged decode (finishes now reply) v log i = record {
  spaced = i.spaced;
  remembered = attempt-fetch_keys decode now reply v ∙ i.remembered;
}
act-IsLogged decode (tries now reply) v log i = record {
  spaced = i.spaced;
  remembered =
      attempt-init_attempt (fetch_keys decode now reply v)
      ∙ attempt-fetch_keys decode now reply v
      ∙ i.remembered;
}
act-IsLogged decode (looks_up now kid) v log i = record {
  spaced = i.spaced;
  remembered = attempt-cached_entry now kid (lookup kid v.unknown_kids) v ∙ i.remembered;
}
act-IsLogged decode (remembers now kid) v log i = record {
  spaced = i.spaced;
  remembered = i.remembered;
}

acts-IsLogged :
    (decode : String → Option (List ℕ)) (steps : List Step) (v : Validator) (log : List ℕ)
    → IsLogged (v, log)
    → IsLogged (acts decode steps (v, log))
unfolding acts
acts-IsLogged decode [] v log i = i
acts-IsLogged decode (s ∷ rest) v log i =
    let w = act decode s (v, log) in
    acts-IsLogged decode rest (w.0) (w.1) (act-IsLogged decode s v log i)

-- Whatever happens to a new validator, in whatever order and at whatever times, two refreshes that
-- requests start are at least a minute apart.
pub acts-IsSpaced :
    (decode : String → Option (List ℕ)) (steps : List Step) (keycloak_url realm : String)
    → IsSpaced (acts decode steps (new_validator keycloak_url realm, [])).1
unfolding new_validator
acts-IsSpaced decode steps keycloak_url realm =
    (acts-IsLogged decode steps (new_validator keycloak_url realm) []
      (record { spaced = tt; remembered = refl })).spaced
