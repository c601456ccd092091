-- ===== src/Api/Pinning.antt =====
-- internal/api/handlers.go: the routes of pins.
pub mod Reading
use nebari_landing.Base.{
  String, Bool, true, false, not, Option, none, some, List, [], ◌∷◌, ◌⊎◌, inl, inr, if◌then◌else◌,
  str_eq, is_blank, trim_prefix,
}
use nebari_landing.Access.{Claims, can_access_service}
use nebari_landing.Cache.{ServiceInfo, ServiceCache, get}
use nebari_landing.Redis.{Redis}
use nebari_landing.Pins.{get_pins, pin, unpin}
use nebari_landing.Api.{
  Request, Moment, Libraries, Handler, World, Response, pinned, nothing, refuse, reply,
  require_auth, with_claims,
}

module _ (R : Redis) (lib : Libraries) (h : Handler) (m : Moment) where
  abbrev pub add_accessible : Claims → Option ServiceInfo → List ServiceInfo → List ServiceInfo
  add_accessible c none rest = rest
  add_accessible c (some s) rest = if can_access_service s true (some c) then s ∷ rest else rest

  -- The loop over the pinned UIDs.
  unfoldable pub accessible : ServiceCache → Claims → List String → List ServiceInfo
  accessible cache c [] = []
  accessible cache c (uid ∷ rest) = add_accessible c (get uid cache) (accessible cache c rest)

  abbrev pub pins_listed : Claims → World R → R.Db × Option (List String) → World R × Response
  pins_listed c w (d, none) = (record w { db = d }, refuse 500)
  pins_listed c w (d, some uids) =
      (record w { db = d }, reply (pinned (accessible w.cache c uids) uids))

  -- `handleGetPins`
  unfoldable pub handle_get_pins : Request → World R → World R × Response
  handle_get_pins r w =
      if not (str_eq r.method "GET")
      then (w, refuse 405)
      else if not h.pin_store
      then (w, refuse 501)
      else with_claims R lib h m (require_auth R lib h m r w)
          (λ c v. pins_listed c v (get_pins R c.preferred_username v.db))

  abbrev pub pin_done : World R → R.Db × Bool → World R × Response
  pin_done w (d, true) = (record w { db = d }, record { status = 204; body = nothing })
  pin_done w (d, false) = (record w { db = d }, refuse 500)

  abbrev pub pin_by : String → Request → Claims → World R → World R × Response
  pin_by uid r c w =
      if is_blank uid
      then (w, refuse 400)
      else if str_eq r.method "PUT"
      then pin_done w (pin R c.preferred_username uid w.db)
      else if str_eq r.method "DELETE"
      then pin_done w (unpin R c.preferred_username uid w.db)
      else (w, refuse 405)

  -- `handlePinByUID`
  unfoldable pub handle_pin_by_uid : Request → World R → World R × Response
  handle_pin_by_uid r w =
      if h.pin_store
      then with_claims R lib h m (require_auth R lib h m r w)
          (pin_by (trim_prefix r.path "/api/v1/pins/") r)
      else (w, refuse 501)
