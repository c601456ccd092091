-- ===== src/Pins/Sets.antt =====
-- internal/pins/store.go as a client sees it: per user, a set of service UIDs.
use nebari_landing.Base.{
  String, Bool, true, false, some, List, [], ◌∷◌, ◌≡◌, sym, ap, ◌∙◌, ◌↔◌, inl, inr, Memᴰ, str_eq,
  str_eq-append, Bool-cases, arith, has, has→Memᴰ, Memᴰ→has, if◌then◌else◌,
}
use nebari_landing.Redis.{Redis, Command, sadd, srem, write, effect, effects, target, members_at}
use nebari_landing.Redis.Documented.{IsDocumented}
use nebari_landing.Redis.Effects.{IsMembers, write-sadd, write-srem}
use nebari_landing.Pins.{pin_key, get_pins, pin, unpin}

-- `Pin` and `Unpin` calls, each for a user and a service.
pub data Call : Type 0 where
  pinning : String → String → Call
  unpinning : String → String → Call

-- What a caller expects of a call: it decides for its user and its service, and for no other.
abbrev pub after : Call → (String → String → Bool) → String → String → Bool
after (pinning user uid) pinned u s =
    if str_eq user u then (if str_eq uid s then true else pinned u s) else pinned u s
after (unpinning user uid) pinned u s =
    if str_eq user u then (if str_eq uid s then false else pinned u s) else pinned u s

unfoldable pub replay : List Call → (String → String → Bool) → String → String → Bool
replay [] pinned = pinned
replay (c ∷ rest) pinned = replay rest (after c pinned)

module _ (R : Redis) where
  abbrev pub call : Call → R.Db → R.Db × Bool
  call (pinning user uid) d = pin R user uid d
  call (unpinning user uid) d = unpin R user uid d

  -- The calls one after another, and whether none of them returned an error.
  unfoldable pub run : List Call → R.Db → R.Db × Bool
  run [] d = (d, true)
  run (c ∷ rest) d =
      let later = run rest (call c d).0 in (later.0, if (call c d).1 then later.1 else false)

  -- The server holds, for each user, the set that `pinned` tells.
  abbrev pub Holds : (String → String → Bool) → R.Db → Type 0
  Holds pinned d =
      (user : String)
      → IsMembers (R.view d (pin_key user))
        × ((uid : String) → has uid (members_at (R.view d (pin_key user))) ≡ pinned user uid)

  module _ (doc : IsDocumented R) where
    view-pin :
        (c : Command) (user : String) (d e : R.Db)
        → ((key : String) → R.view e key ≡ effects (c ∷ []) (R.view d) key)
        → R.view e (pin_key user) ≡ (
            if str_eq (target c) (pin_key user)
            then write c (R.view d (pin_key user))
            else R.view d (pin_key user))
    unfolding effects effect
    view-pin c user d e h = h (pin_key user)

    pin-Holds :
        (user uid : String) (pinned : String → String → Bool) (d : R.Db)
        → Holds pinned d
        → (pin R user uid d).1 ≡ true
        → Holds (after (pinning user uid) pinned) (pin R user uid d).0
    unfolding pin
    pin-Holds user uid pinned d h ok u =
        let e = view-pin (sadd (pin_key user) uid) u d _ (doc.pipeline_done _ d ok) in
        let q = str_eq-append "nebari:pins:" user u in
        let (i, m) = write-sadd (pin_key user) uid (R.view d (pin_key u)) (h u).0 in
        elim (Bool-cases (str_eq user u)) [
          | inl y ↦
              rw (e, q, y) (i, λ s. m s ∙ ap (λ b. if str_eq uid s then true else b) ((h u).1 s))
          | inr n ↦ rw (e, q, n) (h u)
        ]

    unpin-Holds :
        (user uid : String) (pinned : String → String → Bool) (d : R.Db)
        → Holds pinned d
        → (unpin R user uid d).1 ≡ true
        → Holds (after (unpinning user uid) pinned) (unpin R user uid d).0
    unfolding unpin
    unpin-Holds user uid pinned d h ok u =
        let e = view-pin (srem (pin_key user) uid) u d _ (doc.pipeline_done _ d ok) in
        let q = str_eq-append "nebari:pins:" user u in
        let (i, m) = write-srem (pin_key user) uid (R.view d (pin_key u)) (h u).0 in
        elim (Bool-cases (str_eq user u)) [
          | inl y ↦
              rw (e, q, y) (i, λ s. m s ∙ ap (λ b. if str_eq uid s then false else b) ((h u).1 s))
          | inr n ↦ rw (e, q, n) (h u)
        ]

    call-Holds :
        (c : Call) (pinned : String → String → Bool) (d : R.Db)
        → Holds pinned d
        → (call c d).1 ≡ true
        → Holds (after c pinned) (call c d).0
    call-Holds (pinning user uid) pinned d h ok = pin-Holds user uid pinned d h ok
    call-Holds (unpinning user uid) pinned d h ok = unpin-Holds user uid pinned d h ok

    run-Holds :
        (calls : List Call) (pinned : String → String → Bool) (d : R.Db)
        → Holds pinned d
        → (run calls d).1 ≡ true
        → Holds (replay calls pinned) (run calls d).0
    unfolding run replay
    run-Holds [] pinned d h ok = h
    run-Holds (c ∷ rest) pinned d h ok =
        let (first, later) = both (call c d).1 (run rest (call c d).0).1 ok in
        run-Holds rest (after c pinned) (call c d).0 (call-Holds c pinned d h first) later
      where
        both : (a b : Bool) → (if a then b else false) ≡ true → (a ≡ true) × (b ≡ true)
        both a b k = ground arith

    -- The store refines a table of Booleans: where the server holds the sets that `pinned` tells and a
    -- sequence of `Pin` and `Unpin` calls returns no error, a `Get` after it that returns no error
    -- lists for each user exactly the services for which the calls, replayed on `pinned`, end in true.
    pub run-refines :
        (calls : List Call) (pinned : String → String → Bool) (d : R.Db)
        → Holds pinned d
        → (run calls d).1 ≡ true
        → (user : String) (uids : List String) → (get_pins R user (run calls d).0).1 ≡ some uids
        → (uid : String) → Memᴰ uid uids ↔ (replay calls pinned user uid ≡ true)
    unfolding get_pins
    run-refines calls pinned d h ok user uids g uid =
        let (_, holds) = run-Holds calls pinned d h ok user in
        let (to, from) = doc.smembers_answer _ _ uids g uid in
        (
          (λ m. sym (holds uid) ∙ Memᴰ→has uid _ (to m)),
          (λ p. from (has→Memᴰ uid _ (holds uid ∙ p))),
        )
