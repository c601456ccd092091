-- ===== src/Startup/Statics.antt =====
-- cmd/main.go: the static entries, from the start of the process on, next to a running watcher.
use nebari_landing.Base.{
  String, ◌≡◌, ◌∙◌, refl, sym, ap, subst, inl, inr, Bool, false, Option, some, List, [], ◌∷◌, map,
  Memᴰ, Bool-cases, if_passed, str_eq, eq_iff, ◌+++◌, str_eq-append, NoRepeat,
}
use nebari_landing.Probe.{TargetRules, passed}
use nebari_landing.Cache.{ServiceInfo, ServiceCache, new_cache, add, get, listed}
use nebari_landing.Cache.Updates.{get-add}
use nebari_landing.Static.{Service, parse, all_space, app_of, page_of, http_url}
use nebari_landing.Static.Entries.{IsEntry, list_inj}
use nebari_landing.Static.Parsing.{parse-IsParsed}
use nebari_landing.Static.Cards.{IsCard, get-add_static}
use nebari_landing.Watcher.Reading.{Objects}
use nebari_landing.Watcher.{sync_initial}
use nebari_landing.Watcher.Cluster.{Event, run}
use nebari_landing.Watcher.Bystanders.{Lacks, AllSpare, run-sync_initial_keeps}
use nebari_landing.Startup.Configuration.{Settings}
use nebari_landing.Startup.Wiring.{start-IsUp}
use nebari_landing.Startup.{load_statics, Surroundings, Process, start, web_api}

-- The id of an entry, and the key of its card.
abbrev id_of : Service → String
id_of s = s.id

abbrev pub card_key : Service → String
card_key s = "static-" +++ s.id

add_static-other :
    (rules : TargetRules) (t : Service) (id : String) (c : ServiceCache)
    → str_eq t.id id ≡ false
    → get ("static-" +++ id) (add rules (some (app_of t)) c) ≡ get ("static-" +++ id) c
unfolding app_of page_of listed
add_static-other rules t id c h =
    let (card, entries, own, config, carried) = get-add rules (app_of t) (page_of t) c refl in
    entries ("static-" +++ id)
    ∙ if_passed (str_eq ("static-" +++ t.id) ("static-" +++ id)) (some card)
        (get ("static-" +++ id) c) (str_eq-append "static-" t.id id ∙ h)

-- The card of an id that no later entry has stays.
load_statics-other :
    (rules : TargetRules) (l : List Service) (id : String) (c : ServiceCache)
    → ¬ Memᴰ id (map id_of l)
    → get ("static-" +++ id) (load_statics rules l c) ≡ get ("static-" +++ id) c
unfolding load_statics
load_statics-other rules [] id c h = refl
load_statics-other rules (t ∷ l) id c h =
    load_statics-other rules l id (add rules (some (app_of t)) c) (λ m. h (Memᴰ.tail m))
    ∙ add_static-other rules t id c (elim (Bool-cases (str_eq t.id id)) [
      | inl e ↦ absurd (h (Memᴰ.head (sym ((eq_iff t.id id).0 e))))
      | inr e ↦ e
    ])

-- Each entry of a list of distinct accepted entries has its card.
load_statics-IsCard :
    (rules : TargetRules) (l : List Service) (c : ServiceCache) (s : Service)
    → http_url rules "" ≡ false
    → ((t : Service) → Memᴰ t l → IsEntry rules t)
    → NoRepeat (map id_of l)
    → Memᴰ s l
    → (card : ServiceInfo) × (get (card_key s) (load_statics rules l c) ≡ some card) × IsCard s card
unfolding load_statics
load_statics-IsCard rules [] c s h ok d m = elim m [ ]
load_statics-IsCard rules (t ∷ l) c s h ok d (Memᴰ.head e) =
    let (card, found, is_card) = get-add_static rules s c h (ok s (Memᴰ.head e)) in
    (
      card,
      load_statics-other rules l s.id (add rules (some (app_of t)) c)
            (subst (λ (u : Service). ¬ Memᴰ u.id (map id_of l)) (sym e) d.0)
          ∙ (ap (λ u. get (card_key s) (add rules (some (app_of u)) c)) (sym e) ∙ found),
      is_card,
    )
load_statics-IsCard rules (t ∷ l) c s h ok d (Memᴰ.tail m) =
    load_statics-IsCard rules l (add rules (some (app_of t)) c) s h (λ u n. ok u (Memᴰ.tail n)) d.1
      m

-- What `Parse` accepts, on a blank text as well.
record IsAccepted (rules : TargetRules) (out : List Service) : Type 0 where
  entries : (s : Service) → Memᴰ s out → IsEntry rules s
  distinct : NoRepeat (map id_of out)

parse-IsAccepted :
    (rules : TargetRules) (decode : String → Option (List Service × Bool)) (text : String)
    (out : List Service)
    → parse rules decode text ≡ inr out
    → IsAccepted rules out
unfolding parse
parse-IsAccepted rules decode text out h = elim (Bool-cases (all_space text)) [
  | inl b ↦
      subst (IsAccepted rules) (list_inj (rw b at h))
        (record { entries = λ s m. elim m [ ]; distinct = tt })
  | inr b ↦
      let (services, decoded, p) = parse-IsParsed rules decode text out h b in
      record { entries = p.entries; distinct = p.distinct }
]

-- The cache in which the watcher starts.
start-cache :
    (rules : TargetRules) (decode : String → Option (List Service × Bool)) (around : Surroundings)
    (s : Settings) (p : Process) (services : List Service)
    → start rules decode around s ≡ passed (web_api p)
    → parse rules decode s.static_services ≡ inr services
    → p.watcher.cache ≡ load_statics rules services new_cache
start-cache rules decode around s p services h parsed =
    let up = start-IsUp rules decode around s p h in
    ap (λ (q : Process). q.watcher.cache) up.made
    ∙ ap (λ l. load_statics rules l new_cache) (list_inj (sym up.parsed ∙ parsed))

-- A web API that is up holds the card of each configured entry, and keeps it for as long as it runs:
-- whatever the first listing and the events of the watcher are, as long as none of their objects
-- has the UID of the card, the card is found, links to the configured URL, is probed as trusted if
-- at all, and is seen by the callers that the entry names.
pub start-keeps_statics :
    (rules : TargetRules) (decode : String → Option (List Service × Bool)) (around : Surroundings)
    (s : Settings) (p : Process) (services : List Service) (e : Service) (K : Objects)
    (grants : String → Option (List K.Value)) (l : List K.Obj)
    (events : List (Event p.outlets rules K))
    → http_url rules "" ≡ false
    → start rules decode around s ≡ passed (web_api p)
    → parse rules decode s.static_services ≡ inr services
    → Memᴰ e services
    → Lacks p.outlets rules K (card_key e) l
    → AllSpare p.outlets rules K (card_key e) events
    → (card : ServiceInfo) × (get
          (card_key e)
          (run p.outlets rules K events (sync_initial p.outlets rules K grants l p.watcher)).cache
        ≡ some card)
      × IsCard e card
start-keeps_statics rules decode around s p services e K grants l events h up parsed m lacks
      spared =
    let accepted = parse-IsAccepted rules decode s.static_services services parsed in
    let (card, found, is_card) =
      load_statics-IsCard rules services new_cache e h accepted.entries accepted.distinct m in
    (
      card,
      run-sync_initial_keeps p.outlets rules K (card_key e) grants l events p.watcher lacks spared
          ∙ (ap (get (card_key e)) (start-cache rules decode around s p services up parsed)
              ∙ found),
      is_card,
    )
