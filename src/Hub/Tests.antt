-- ===== src/Hub/Tests.antt =====
-- The hub with a subscriber of each of two users.
use delivery_api.Base.{none, codes}
use delivery_api.Hub.{Event}
use delivery_api.Hub.Calls.{act, Act, subscribes, act}

abbrev pub ping : Event
ping = record { notification = none; unread_count = none; type = codes "ping" }

abbrev joined : Act
joined = subscribes (codes "u")

abbrev also_joined : Act
also_joined = subscribes (codes "uv")
