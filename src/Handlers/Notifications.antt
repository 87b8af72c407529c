-- ===== src/Handlers/Notifications.antt =====
-- internal/handlers/notifications.go: emitting a notification, and the caller's inbox. The row of
-- the preferences that is read, if any, is an argument; a call of the dispatcher is noted with the
-- drivers that are left to it.
pub mod Emission
pub mod Inboxes
pub mod Announced
pub mod Tests
use delivery_api.Base.{
  ℕ, Bool, true, false, not, ◌&&◌, ◌||◌, Option, none, some, List, [], ◌∷◌, ◌++◌, Str, codes, ltb,
  ◌==◌, if◌then◌else◌, is_empty, str_eq, any_of, is_some,
}
use delivery_api.Models.{Notification}
use delivery_api.Db.{Database}
use delivery_api.Hub.{Event, Hub, publish}

pub record NotificationPreference : Type 0 where
  pub user_id : Str
  pub in_app_enabled : Bool
  pub web_push_enabled : Bool
  pub mobile_enabled : Bool
  pub email_fallback : Bool
  pub muted_types : Option Str

-- A body that was decoded; a missing payload is empty.
pub record NotifyRequest : Type 0 where
  pub user_id : Str
  pub source : Str
  pub type : Str
  pub title : Str
  pub body : Str
  pub link : Str
  pub payload : Str

-- json.Unmarshal of the muted types, uuid.NewString, the clock, and whether there is a dispatcher.
pub record Env : Type 0 where
  pub read_types : Str → Option (List Str)
  pub uuid : Str
  pub now : ℕ
  pub has_dispatcher : Bool

pub record Push : Type 0 where
  pub notification : Notification
  pub web : Bool
  pub mobile : Bool

pub data Answer : Type 0 where
  created : Notification → Answer
  skipped : Str → Answer
  done : Answer
  counted : ℕ → Answer
  failed : ℕ → Str → Answer

-- loadPrefs, from the row that is read
unfoldable pub load_prefs : Str → Option NotificationPreference → NotificationPreference
load_prefs user (some p) = p
load_prefs user none = record {
  user_id = user;
  in_app_enabled = true;
  web_push_enabled = true;
  mobile_enabled = true;
  email_fallback = false;
  muted_types = none;
}

unfoldable pub is_muted : Env → NotificationPreference → Str → Bool
is_muted env p t = elim p.muted_types [
  | none ↦ false
  | some text ↦ elim (env.read_types text) [ none ↦ false | some muted ↦ any_of (str_eq t) muted ]
]

abbrev pub unread : Str → Notification → Bool
unread user n = str_eq n.user_id user && not (is_some n.read_at)

abbrev pub owned : Str → Str → Notification → Bool
owned id user n = str_eq n.external_id id && str_eq n.user_id user

-- The row that both handlers create.
pub new_notification : Env → NotifyRequest → Notification
new_notification env req = record {
  id = 0;
  external_id = env.uuid;
  user_id = req.user_id;
  source = req.source;
  type = req.type;
  title = req.title;
  body = req.body;
  link = req.link;
  payload = if is_empty req.payload then none else some req.payload;
  read_at = none;
  created_at = env.now;
}

module _ (db : Database) where
  pub record Inbox : Type 0 where
    pub notifications : db.notifications.State
    pub hub : Option Hub
    pub pushes : List Push

  pub unread_count : Str → db.notifications.State → Option ℕ
  unread_count user s = db.notifications.count (unread user) s

  -- UnreadCount
  pub count_unread : Str → Inbox → Answer
  unfolding unread_count
  count_unread user i =
      if is_empty user
      then failed 401 (codes "unauthorized")
      else elim (unread_count user i.notifications) [
        | none ↦ failed 500 (codes "query failed")
        | some c ↦ counted c
      ]

  -- publishUnread
  pub publish_unread : Str → Inbox → Inbox
  unfolding unread_count
  publish_unread user i = elim i.hub [
    | none ↦ i
    | some h ↦ elim (unread_count user i.notifications) [
      | none ↦ i
      | some c ↦ record i {
        hub = some (
            publish user
              (record { notification = none; unread_count = some c; type = codes "unread_count" })
              h);
      }
    ]
  ]

  abbrev pub announce : Str → Notification → Inbox → Inbox
  announce user n i = elim i.hub [
    | none ↦ i
    | some h ↦ publish_unread user (record i {
      hub = some (
          publish user
            (record { notification = some n; unread_count = none; type = codes "notification" }) h);
    })
  ]

  -- The announcement, if the in-app channel is on, and the call of the dispatcher, if there is one.
  abbrev pub show_if : Bool → Str → Notification → Inbox → Inbox
  show_if true user n i = announce user n i
  show_if false user n i = i

  abbrev pub push_if : Bool → Push → Inbox → Inbox
  push_if true p i = record i { pushes = i.pushes ++ p ∷ [] }
  push_if false p i = i

  abbrev pub push_of : NotificationPreference → Notification → Push
  push_of prefs n = record {
    notification = n;
    web = prefs.web_push_enabled;
    mobile = prefs.mobile_enabled;
  }

  -- From the creation of the row on, which ServiceNotify and SelfNotify share.
  unfoldable pub emit : Env → NotificationPreference → NotifyRequest → Inbox → Inbox × Answer
  unfolding new_notification publish_unread
  emit env prefs req i =
      let made = db.notifications.create (new_notification env req) i.notifications in
      let i' = record i { notifications = made.0 } in
      elim made.1 [
        | none ↦ (i', failed 500 (codes "insert failed"))
        | some n ↦ (
          push_if env.has_dispatcher (push_of prefs n)
              (show_if prefs.in_app_enabled req.user_id n i'),
          created n,
        )
      ]

  -- ServiceNotify behind its guard
  unfoldable pub service_notify :
      Env → Option NotificationPreference → Option NotifyRequest → Inbox → Inbox × Answer
  unfolding load_prefs is_muted emit
  service_notify env row none i = (i, failed 400 (codes "invalid body"))
  service_notify env row (some req) i =
      let prefs = load_prefs req.user_id row in
      if is_empty req.user_id || (is_empty req.type || is_empty req.title)
      then (i, failed 400 (codes "user_id, type, title required"))
      else if not prefs.in_app_enabled && (not prefs.web_push_enabled && not prefs.mobile_enabled)
      then (i, skipped (codes "user has all channels disabled"))
      else if is_muted env prefs req.type
      then (i, skipped (codes "type muted"))
      else emit env prefs req i

  -- The request of SelfNotify with its defaults, addressed to the caller.
  abbrev pub to_self : Str → NotifyRequest → NotifyRequest
  to_self user req = record req {
    user_id = user;
    type = if is_empty req.type then codes "self.message" else req.type;
    source = if is_empty req.source then codes "self" else req.source;
  }

  pub self_notify :
      Env → Str → Option NotificationPreference → Option NotifyRequest → Inbox → Inbox × Answer
  unfolding load_prefs is_muted emit
  self_notify env user row none i = (
    i,
    if is_empty user then failed 401 (codes "unauthorized") else failed 400 (codes "invalid body"),
  )
  self_notify env user row (some req) i =
      let prefs = load_prefs user row in
      if is_empty user
      then (i, failed 401 (codes "unauthorized"))
      else if is_empty req.title
      then (i, failed 400 (codes "title required"))
      else if is_muted env prefs (to_self user req).type
      then (i, skipped (codes "type muted"))
      else emit env prefs (to_self user req) i

  abbrev pub read_now : ℕ → Notification → Notification
  read_now now n = record n { read_at = some now }

  -- MarkRead
  pub mark_read : ℕ → Str → Str → Inbox → Inbox × Answer
  unfolding publish_unread
  mark_read now user id i =
      let updated =
        db.notifications.update (λ n. owned id user n && not (is_some n.read_at)) (read_now now)
          i.notifications in
      let i' = record i { notifications = updated.0 } in
      if is_empty user
      then (i, failed 401 (codes "unauthorized"))
      else if updated.1 == 0
      then (i', failed 404 (codes "not found"))
      else (publish_unread user i', done)

  pub mark_all_read : ℕ → Str → Inbox → Inbox × Answer
  unfolding publish_unread
  mark_all_read now user i = if is_empty user then (i, failed 401 (codes "unauthorized")) else (
    publish_unread user (record i {
      notifications = (db.notifications.update (unread user) (read_now now) i.notifications).0;
    }),
    done,
  )

  -- DeleteNotification; an error of the deletion counts as no row.
  pub delete_notification : Str → Str → Inbox → Inbox × Answer
  unfolding publish_unread
  delete_notification user id i =
      let removed = db.notifications.delete (owned id user) i.notifications in
      let i' = record i { notifications = removed.0 } in
      if is_empty user then (i, failed 401 (codes "unauthorized")) else elim removed.1 [
        | none ↦ (i', failed 404 (codes "not found"))
        | some n ↦
            if n == 0 then (i', failed 404 (codes "not found")) else (publish_unread user i', done)
      ]
