-- ===== src/Pins.antt =====
-- internal/pins/store.go: the services that a user has pinned, a Redis set per user.
pub mod Sets
use nebari_landing.Base.{String, Bool, true, false, Option, none, some, List, [], ◌∷◌, ◌+++◌}
use nebari_landing.Redis.{Redis, Command, sadd, srem}

-- `pinKey`
abbrev pub pin_key : String → String
pin_key username = "nebari:pins:" +++ username

module _ (R : Redis) where
  -- `Get`, `none` where it returns an error.
  unfoldable pub get_pins : String → R.Db → R.Db × Option (List String)
  get_pins username d = R.smembers (pin_key username) d

  -- `Pin`, whether it returns no error.
  unfoldable pub pin : String → String → R.Db → R.Db × Bool
  pin username uid d = R.pipeline (sadd (pin_key username) uid ∷ []) d

  -- `Unpin`
  unfoldable pub unpin : String → String → R.Db → R.Db × Bool
  unpin username uid d = R.pipeline (srem (pin_key username) uid ∷ []) d
