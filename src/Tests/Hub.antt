-- ===== src/Tests/Hub.antt =====
-- Runs of the hub.
use nebari_landing.Base.{
  String, ℕ, ◌≢◌, refl, inl, inr, Bool, true, false, none, some, List, [], ◌∷◌, ◌==◌,
}
use nebari_landing.Access.{principal_from_claims}
use nebari_landing.Hub.{
  Client, Happening, message, opened, ended, Hub, allows, event_added, event_notification_create,
}
use nebari_landing.Hub.Delivery.{DistinctConns}
use nebari_landing.Tests.Samples.{busy_hub, up_net}

-- A client that comes late, and a frame of which only the write to it succeeds.
abbrev newcomer : Client
newcomer = record { conn = 4; principal = principal_from_claims none }

abbrev down_net : Client → Bool
down_net c = c.conn == 4

abbrev happenings : List Happening
happenings =
    message up_net event_added
    ∷ message up_net ""
    ∷ message up_net event_notification_create
    ∷ opened newcomer
    ∷ message down_net "later"
    ∷ ended newcomer
    ∷ []

abbrev frames_out : List (ℕ × String)
frames_out = (1, event_added) ∷ (1, event_notification_create) ∷ (4, "later") ∷ []

apart : DistinctConns busy_hub.clients
unfolding nebari_landing.Base.any
apart = (refl, (refl, tt))
