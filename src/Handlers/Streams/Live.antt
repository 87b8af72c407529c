-- ===== src/Handlers/Streams/Live.antt =====
-- A notification from ServiceNotify through the hub to a stream.
use delivery_api.Base.{
  ℕ, ◌+◌, ◌≡◌, ◌∙◌, refl, ap, true, false, Option, some, List, [], ◌∷◌, ◌++◌, Str, count_where,
  is_empty, ◌||◌,
}
use delivery_api.Models.{Notification}
use delivery_api.Db.{Database, IsLive}
use delivery_api.Hub.{Event, Hub, subscribe, publish, receive}
use delivery_api.Hub.Fanout.{receive_lem, subscribe-buffer}
use delivery_api.Hub.Calls.{Reach}
use delivery_api.Hub.Calls.Members.{publish-subscribe, publish-subs}
use delivery_api.Handlers.Notifications.{
  NotificationPreference, NotifyRequest, Env, Push, Inbox, created, load_prefs, is_muted, unread,
  unread_count, service_notify,
}
use delivery_api.Handlers.Notifications.Announced.{
  noted, counted, unread_count-live, service_notify-announces,
}
use delivery_api.Handlers.Streams.{Frame, hello, event, Stream, receives, watch, greeted}

publish_two :
    (user : Str) (h : Hub)
    → Reach h
    → (e f : Event)
    → let (h', n) = subscribe user h in
      ((publish user f (publish user e h')).heap n).buffer ≡ e ∷ f ∷ []
publish_two user h r e f =
    let (h', n) = subscribe user h in
    let (empty, live) = subscribe-buffer user h in
    let first : (publish user e h').heap n ≡ record (h'.heap n) { buffer = e ∷ [] } =
      publish-subscribe user h h' r e refl ∙ rw (empty, live) refl in
    ap (λ s. s.buffer) (publish-subscribe user h (publish user e h') r f (publish-subs user e h'))
    ∙ rw (first, live) refl

watch_two :
    (user : Str) (n : ℕ) (s : Stream) (e f : Event)
    → (s.hub.heap n).buffer ≡ e ∷ f ∷ []
    → (watch user n (receives ∷ receives ∷ []) s).sent
      ≡ (s.sent ++ (s.held ++ event e ∷ [])) ++ event f ∷ []
unfolding watch
watch_two user n s e f held =
    let now : ((receive n s.hub).heap n).buffer ≡ f ∷ [] =
      ap (λ x. x.buffer) (receive_lem n s.hub) ∙ rw held refl in
    rw (watch, held, now) refl

module _ (db : Database) (live : IsLive db.notifications) where
  -- In a table of notifications none of whose calls fails, a user opens a stream, whatever calls came
  -- before on the hub, and a complete request of ServiceNotify for the user follows, of a type that
  -- is not muted and with the in-app channel on. The notification is created with the request's title
  -- and body. When the stream has received twice, it has written its greeting, the number of the
  -- unread notifications, the new notification, and one more than that number.
  pub service_notify-stream_notifications :
      (h : Hub)
      → Reach h
      → (env : Env) (row : Option NotificationPreference) (req : NotifyRequest)
        (s : db.notifications.State) (pushes : List Push)
      → (is_empty req.user_id || (is_empty req.type || is_empty req.title)) ≡ false
      → (load_prefs req.user_id row).in_app_enabled ≡ true
      → is_muted env (load_prefs req.user_id row) req.type ≡ false
      → let user = req.user_id in
        let (st, n) = greeted user (unread_count db user s) h in
        let k = count_where (unread user) (db.notifications.rows s) in
        let (i', a) =
          service_notify db env row
            (some req)
            (record { notifications = s; hub = some st.hub; pushes = pushes }) in
        (note : Notification) × (h' : Hub) × (a ≡ created note)
        × (note.title ≡ req.title)
        × (note.body ≡ req.body)
        × (i'.hub ≡ some h')
        × ((watch user n (receives ∷ receives ∷ []) (record st { hub = h' })).sent
            ≡ hello (st.hub.heap n).id
              ∷ Frame.unread k
              ∷ event (noted note)
              ∷ event (counted (k + 1))
              ∷ [])
  service_notify-stream_notifications h r env row req s pushes full on heard =
      let user = req.user_id in
      let (h', n) = subscribe user h in
      let k = count_where (unread user) (db.notifications.rows s) in
      let count = unread_count-live db live user s in
      let i : Inbox db = record { notifications = s; hub = some h'; pushes = pushes } in
      let (note, made, title, body, told) =
        service_notify-announces db live env row req h' i refl full on heard in
      let after = publish user (counted (k + 1)) (publish user (noted note) h') in
      rw count (
        note,
        after,
        made,
        title,
        body,
        told,
        watch_two user n (record (greeted user (some k) h).0 { hub = after }) (noted note)
            (counted (k + 1)) (publish_two user h r (noted note) (counted (k + 1))),
      )
