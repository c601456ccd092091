-- ===== src/Hub/Privacy.antt =====
-- No client is sent what the access policy keeps from it, whatever frames arrive.
use nebari_landing.Base.{ℕ, String, ◌≡◌, Bool, List, ◌∷◌, ◌++◌, Memᴰ}
use nebari_landing.Hub.{Client, Hub, AccessPolicy, Codec, Happening, message, subscribe}
use nebari_landing.Hub.Filtering.{MayRead}

module _ (codec : Codec) (p : AccessPolicy) where
  -- At some moment a message with this frame came, its writes included, when the client was
  -- registered, and the client may read it.
  abbrev pub IsSentTo : List Happening → Hub → ℕ × String → Client → Type 0
  IsSentTo l h f c =
      (before : List Happening) × (writes : Client → Bool) × (after : List Happening) × (l
        ≡ before ++ message writes f.1 ∷ after)
      × Memᴰ c (subscribe codec before h).clients
      × (f.0 ≡ c.conn)
      × MayRead codec p f.1 c
