-- ===== src/Tests/Stores.antt =====
-- Runs of the four stores on a server in memory.
use nebari_landing.Base.{
  pos, ◌<ℤ◌, ◌≤ℤ◌, ℕ, String, Bool, true, false, Option, none, some, List, [], ◌∷◌, ◌≡◌, ◌≢◌, ◌⊎◌,
  inl, inr, ◌↔◌, refl, ap, ◌∙◌, suc, zero, drop_prefix, drop_prefix-append, is_blank-append, subst,
  str_eq, is_blank, Memᴰ, ◌+++◌,
}
use nebari_landing.Redis.{Stored, text, Redis}
use nebari_landing.Tests.Memory.{Keys, memory, memory-IsDocumented}
use nebari_landing.Tickets.{TicketClaims, TicketJson, redeemed, issue, redeem, hex}
use nebari_landing.Tickets.SingleUse.{rest, redeem-once}
use nebari_landing.Pins.{pin_key, get_pins}
use nebari_landing.Pins.Sets.{Call, pinning, unpinning, replay, run, run-refines}
use nebari_landing.Requests.{
  Clock, AccessRequest, new_request, create, update_status, Outcome, done, duplicate_pending,
  store_error, dedup_key,
}
use nebari_landing.Requests.Locking.{create-once, update_status-releases}
use nebari_landing.Notification.{Notification, Draft, notification_of}
use nebari_landing.Notification.Store.{
  GroupsJson, create_draft, get_notification, notif_key, Found, found,
}
use nebari_landing.Notification.Store
use nebari_landing.Notification.Store.RoundTrip.{get_notification-create_draft}

abbrev empty : Keys
empty k = none

abbrev alice_claims : TicketClaims
alice_claims = record {
  subject = "u-1";
  preferred_username = "alice";
  groups = "admin" ∷ [];
  expires_at = some 9000;
}

-- A codec that only knows these claims.
abbrev pub claims_json : TicketJson
claims_json = record { marshal = λ c. some c.subject; unmarshal = λ s. some alice_claims }

abbrev bytes : List ℕ
bytes = 255 ∷ 16 ∷ 7 ∷ []

hex_test : hex bytes ≡ "ff1007"
unfolding hex
hex_test = refl

abbrev issued : Keys
issued = (issue memory claims_json (some bytes) alice_claims empty).0

issue_test : (issue memory claims_json (some bytes) alice_claims empty).1 ≡ some "ff1007"
unfolding issue hex
issue_test = refl

redeem_test : (redeem memory claims_json "ff1007" issued).1 ≡ redeemed alice_claims
unfolding redeem issue hex
redeem_test = refl

abbrev spent : Keys
spent = (redeem memory claims_json "ff1007" issued).0

redeem-once_example : (redeem memory claims_json "ff1007" spent).1 ≢ redeemed alice_claims
redeem-once_example =
    redeem-once memory claims_json memory-IsDocumented "ff1007" issued spent alice_claims
      alice_claims redeem_test rest

abbrev calls : List Call
calls = pinning "alice" "a" ∷ pinning "alice" "b" ∷ unpinning "alice" "a" ∷ pinning "bob" "a" ∷ []

get_pins_test : (get_pins memory "alice" (run memory calls empty).0).1 ≡ some ("b" ∷ [])
unfolding get_pins run nebari_landing.Pins.pin nebari_landing.Redis.effects
    nebari_landing.Redis.effect nebari_landing.Pins.unpin nebari_landing.Redis.write
    nebari_landing.Base.keep nebari_landing.Base.has
get_pins_test = refl

run-refines_example :
    Memᴰ {A = String} "b" ("b" ∷ []) ↔ (replay calls (λ u s. false) "alice" "b" ≡ true)
unfolding nebari_landing.Base.has run nebari_landing.Pins.pin nebari_landing.Pins.unpin
run-refines_example =
    run-refines memory memory-IsDocumented calls (λ u s. false) empty (λ user. (tt, λ uid. refl))
      refl "alice" ("b" ∷ []) get_pins_test "b"

-- A time as so many strokes.
abbrev strokes : ℕ → String
strokes zero = ""
strokes (suc n) = String.◌∷◌ "|" (strokes n)

abbrev count : String → ℕ
count String.[] = 0
count (String.◌∷◌ c s) = suc (count s)

abbrev or_zero : Option ℕ → ℕ
or_zero none = 0
or_zero (some n) = n

count-strokes : (t : ℕ) → some (count (strokes t)) ≡ some t
count-strokes zero = refl
count-strokes (suc n) = ap (λ o. some (suc (or_zero o))) (count-strokes n)

abbrev pub clock : Clock
clock = record { format = strokes; parse = λ s. some (count s) }

abbrev asking : AccessRequest
asking = new_request "id-1" 5 "svc" "Service" "alice" "a@x" "please"

abbrev pub asked : Keys
asked = (create clock memory asking empty).0

abbrev asking_again : AccessRequest
asking_again = new_request "id-2" 6 "svc" "Service" "alice" "a@x" "again"

create_test : (create clock memory asking empty).1 ≡ done asking
unfolding create
create_test = refl

create-once_example :
    (((create clock memory asking_again asked).1 ≡ duplicate_pending)
      × ((k : String) → (create clock memory asking_again asked).0 k ≡ asked k))
    ⊎ ((create clock memory asking_again asked).1 ≡ store_error)
unfolding nebari_landing.Base.has_prefix new_request
create-once_example =
    create-once clock memory memory-IsDocumented asking asking asking_again empty asked refl
      create_test refl refl refl

abbrev resolved : Keys
resolved = (update_status clock memory 7 "id-1" "approved" "root" asked).0

-- The request is resolved, another one is made, and the first is resolved once more.
abbrev resolved_twice : Keys
resolved_twice =
    (update_status clock memory 9 "id-1" "denied" "root"
      (create clock memory asking_again resolved).0).0

abbrev approved : AccessRequest
approved = record asking { status = "approved"; resolved_at = some 7; resolved_by = "root" }

update_status_test : (update_status clock memory 7 "id-1" "approved" "root" asked).1 ≡ done approved
unfolding update_status create nebari_landing.Redis.effects nebari_landing.Requests.create_commands
    nebari_landing.Redis.effect new_request nebari_landing.Redis.write nebari_landing.Redis.put_all
    nebari_landing.Base.insert nebari_landing.Requests.from_hash nebari_landing.Base.lookup
update_status_test = refl

update_status-releases_example : (create clock memory asking_again resolved).1 ≢ duplicate_pending
unfolding new_request
update_status-releases_example =
    update_status-releases clock memory memory-IsDocumented 7 "id-1" "approved" "root" approved
      asking_again asked update_status_test refl refl

abbrev draft : Draft
draft = record {
  image = "img";
  title = "Title";
  message = "Body";
  service_uid = "svc";
  visibility = "private";
  required_groups = "data" ∷ [];
}

-- encoding/json, on lists of one text.
abbrev marshal_one : List String → Option String
marshal_one [] = none
marshal_one (g ∷ []) = some ("x" +++ g)
marshal_one (g ∷ h ∷ l) = none

abbrev one_of : Option String → Option (List String)
one_of none = none
one_of (some g) = some (g ∷ [])

abbrev pub groups_json : GroupsJson
groups_json = record { marshal = marshal_one; unmarshal = λ s. one_of (drop_prefix "x" s) }

groups_json_lists :
    (g : List String) (s : String)
    → marshal_one g ≡ some s
    → (one_of (drop_prefix "x" s) ≡ some g) × (is_blank s ≡ false)
groups_json_lists [] s h = cc h
groups_json_lists (g ∷ []) s h =
    let q : "x" +++ g ≡ s = cc h in
    subst (λ u. (one_of (drop_prefix "x" u) ≡ some (g ∷ [])) × (is_blank u ≡ false)) q
      (rw (drop_prefix-append "x" g) (refl, is_blank-append "x" g))
groups_json_lists (g ∷ k ∷ l) s h = cc h

abbrev pub noted : Notification
noted = notification_of "n-1" 3 draft

create_draft_test :
    (create_draft clock groups_json memory (pos 99) "n-1" 3 draft empty).1 ≡ some noted
unfolding create_draft Store.encode_groups notification_of
create_draft_test = refl

abbrev pub with_note : Keys
with_note = (create_draft clock groups_json memory (pos 99) "n-1" 3 draft empty).0

get_notification-create_draft_example :
    ((pos 0 <ℤ pos 99)
      × (((get_notification clock groups_json memory "n-1" with_note).1 ≡ found noted)
          ⊎ ((get_notification clock groups_json memory "n-1" with_note).1 ≡ Store.store_error)))
    ⊎ ((pos 99 ≤ℤ pos 0)
        × (((get_notification clock groups_json memory "n-1" with_note).1 ≡ Store.not_found)
            ⊎ ((get_notification clock groups_json memory "n-1" with_note).1 ≡ Store.store_error)))
get_notification-create_draft_example =
    get_notification-create_draft clock groups_json count-strokes groups_json_lists memory
      memory-IsDocumented (pos 99) "n-1" 3 draft noted empty with_note refl create_draft_test refl

-- With --notifications-retention=0 the notification is gone at once.
no_retention_test :
    (get_notification clock groups_json memory "n-1"
      (create_draft clock groups_json memory (pos 0) "n-1" 3 draft empty).0).1
    ≡ Store.not_found
unfolding create_draft Store.encode_groups notification_of get_notification Store.draft_commands
    nebari_landing.Redis.effects nebari_landing.Redis.effect nebari_landing.Redis.write
no_retention_test = refl
