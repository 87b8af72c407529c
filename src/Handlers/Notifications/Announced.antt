-- ===== src/Handlers/Notifications/Announced.antt =====
-- What ServiceNotify publishes in a database none of whose calls fails.
use delivery_api.Base.{
  ℕ, ◌+◌, ◌≡◌, ◌∙◌, refl, ap, Bool, true, false, Option, none, some, [], ◌∷◌, Str, codes,
  count_where, count_where-append, is_empty, ◌||◌, str_eq_refl,
}
use delivery_api.Models.{Notification}
use delivery_api.Db.{Database, IsLive}
use delivery_api.Hub.{Event, Hub, publish}
use delivery_api.Handlers.Notifications.{
  NotificationPreference, NotifyRequest, Env, Push, Inbox, created, load_prefs, is_muted,
  new_notification, unread, unread_count, publish_unread, announce, push_if, push_of, emit,
  service_notify,
}

abbrev pub noted : Notification → Event
noted n = record { notification = some n; unread_count = none; type = codes "notification" }

abbrev pub counted : ℕ → Event
counted c = record { notification = none; unread_count = some c; type = codes "unread_count" }

module _ (db : Database) (live : IsLive db.notifications) where
  pub unread_count-live :
      (user : Str) (s : db.notifications.State)
      → unread_count db user s ≡ some (count_where (unread user) (db.notifications.rows s))
  unfolding unread_count
  unread_count-live user s = live.count_live (unread user) s

  announce-live :
      (user : Str) (note : Notification) (h : Hub) (i : Inbox db)
      → i.hub ≡ some h
      → (announce db user note i).hub
        ≡ some (
            publish user
              (counted (count_where (unread user) (db.notifications.rows i.notifications)))
              (publish user (noted note) h))
  unfolding publish_unread
  announce-live user note h i has =
      rw (has, publish_unread, unread_count-live user i.notifications) refl

  push_if-hub : (b : Bool) (p : Push) (i : Inbox db) → (push_if db b p i).hub ≡ i.hub
  push_if-hub true p i = refl
  push_if-hub false p i = refl

  -- A complete request for a user with the in-app channel on, of a type that is not muted.
  pub service_notify-announces :
      (env : Env) (row : Option NotificationPreference) (req : NotifyRequest) (h : Hub)
      (i : Inbox db)
      → i.hub ≡ some h
      → (is_empty req.user_id || (is_empty req.type || is_empty req.title)) ≡ false
      → (load_prefs req.user_id row).in_app_enabled ≡ true
      → is_muted env (load_prefs req.user_id row) req.type ≡ false
      → let user = req.user_id in
        let k = count_where (unread user) (db.notifications.rows i.notifications) in
        (note : Notification) × ((service_notify db env row (some req) i).1 ≡ created note)
        × (note.title ≡ req.title)
        × (note.body ≡ req.body)
        × ((service_notify db env row (some req) i).0.hub
            ≡ some (publish user (counted (k + 1)) (publish user (noted note) h)))
  unfolding service_notify emit new_notification
  service_notify-announces env row req h i has full on heard =
      let user = req.user_id in
      let prefs = load_prefs user row in
      let row_of_req = new_notification env req in
      let (g, made, rows, _) = live.create_live row_of_req i.notifications in
      let note : Notification = record row_of_req { id = g.id } in
      let made_state = (db.notifications.create row_of_req i.notifications).0 in
      let i' : Inbox db = record i { notifications = made_state } in
      let one_more : count_where (unread user) (db.notifications.rows made_state)
          ≡ count_where (unread user) (db.notifications.rows i.notifications) + 1 =
        ap (count_where (unread user)) rows
        ∙ count_where-append (unread user) (db.notifications.rows i.notifications) (note ∷ [])
        ∙ rw (str_eq_refl user) refl in
      (
        note,
        rw (service_notify, full, on, heard, emit, made) refl,
        refl,
        refl,
        rw (service_notify, full, on, heard, emit, made, on)
            (push_if-hub env.has_dispatcher (push_of db prefs note) (announce db user note i')
              ∙ announce-live user note h i' has
              ∙ ap (λ c. some (publish user (counted c) (publish user (noted note) h))) one_more),
      )
