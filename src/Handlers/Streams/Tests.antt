-- ===== src/Handlers/Streams/Tests.antt =====
-- A stream with two events, one of them read.
use delivery_api.Base.{◌≡◌, refl, none, some, List, [], ◌∷◌, codes, true}
use delivery_api.Hub.{subscribe, new_hub}
use delivery_api.Hub.Tests.{ping}
use delivery_api.Handlers.Streams.{
  Frame, hello, event, Stream, Turn, arrives, receives, beats, greeted, watch, streamed,
  stream_notifications,
}
use delivery_api.Listed.{list_db, list_table-IsLive}
use delivery_api.Models.{Notification, notification_model}
use delivery_api.Hub.{Hub}
use delivery_api.Hub.Calls.{started}
use delivery_api.Handlers.Notifications.{
  created, load_prefs, is_muted, unread_count, service_notify,
}
use delivery_api.Handlers.Notifications.Announced.{noted, counted}
use delivery_api.Handlers.Notifications.Tests
use delivery_api.Handlers.Streams.Live.{service_notify-stream_notifications}
use delivery_api.Handlers.Streams.Order.{accepted, taken, stream_notifications-accepted}

abbrev turns : List Turn
turns = arrives ping ∷ beats ∷ arrives ping ∷ receives ∷ []

stream_notifications-accepted_example :
    (s : Stream) × (stream_notifications (codes "u") (some new_hub) true (some 3) turns
      ≡ streamed s)
    × (taken (subscribe (codes "u") new_hub).1 s ≡ accepted 0 turns)
stream_notifications-accepted_example =
    stream_notifications-accepted (codes "u") new_hub (some 3) turns (λ e. cc)

service_notify-stream_notifications_example :
    let (st, n) = greeted (codes "u") (unread_count list_db (codes "u") []) new_hub in
    let (i, a) =
      service_notify list_db Tests.env none
        (some Tests.request)
        (record { notifications = []; hub = some st.hub; pushes = [] }) in
    (note : Notification) × (h : Hub) × (a ≡ created note)
    × (note.title ≡ codes "T")
    × (note.body ≡ [])
    × (i.hub ≡ some h)
    × ((watch (codes "u") n (receives ∷ receives ∷ []) (record st { hub = h })).sent
        ≡ hello (st.hub.heap n).id ∷ Frame.unread 0 ∷ event (noted note) ∷ event (counted 1) ∷ [])
unfolding load_prefs is_muted
service_notify-stream_notifications_example =
    service_notify-stream_notifications list_db (list_table-IsLive notification_model) new_hub
      started Tests.env none Tests.request [] [] refl refl refl
