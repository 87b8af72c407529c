-- ===== src/Handlers/Operators.antt =====
-- The operators' counts and test notification: AdminStats of internal/handlers/admin.go, and
-- AdminNotificationStats and AdminSendTestNotification of admin_notifications.go. A count that fails
-- counts as 0. What the two grouping queries return is an argument.
pub mod Totals
pub mod Trials
use delivery_api.Base.{
  ℕ, ◌+◌, ◌-◌, ◌*◌, ◌%◌, List, ◌^◌, ◌≤◌, Bool, true, false, not, ◌&&◌, ◌||◌, Option, none, some,
  get_or, is_some, Str, codes, leb, if◌then◌else◌, is_empty, str_eq,
}
use delivery_api.Models.{
  Model, Message, MessageStatus, SendingDomain, DomainStatus, Notification, DeviceToken,
}
use delivery_api.Db.{Table, Database, Store}
use delivery_api.Handlers.Notifications.{
  NotifyRequest, Env, Inbox, Answer, load_prefs, emit, failed,
}

abbrev pub is_sent : MessageStatus → Bool
is_sent MessageStatus.sent = true
is_sent _ = false

abbrev pub is_waiting : MessageStatus → Bool
is_waiting MessageStatus.queued = true
is_waiting MessageStatus.sending = true
is_waiting _ = false

abbrev pub is_failed : MessageStatus → Bool
is_failed MessageStatus.failed = true
is_failed _ = false

abbrev pub is_bounced : MessageStatus → Bool
is_bounced MessageStatus.bounced = true
is_bounced _ = false

abbrev pub is_verified : DomainStatus → Bool
is_verified DomainStatus.verified = true
is_verified _ = false

abbrev pub counted :
    {Row : Type 0} {model : Model Row} (t : Table model) → (Row → Bool) → t.State → ℕ
counted t p s = get_or (t.count p s) 0

pub record Stats : Type 0 where
  pub total : ℕ
  pub sent : ℕ
  pub queued : ℕ
  pub failed : ℕ
  pub bounced : ℕ
  pub domains : ℕ
  pub verified : ℕ
  pub keys : ℕ

-- A key of a grouping with the number of its rows.
pub record Bucket : Type 0 where
  pub key : Str
  pub count : ℕ

-- `read` is the residue of a 64-bit difference.
pub record NotificationStats : Type 0 where
  pub total : ℕ
  pub unread : ℕ
  pub last_24h : ℕ
  pub read : ℕ
  pub by_source : List Bucket
  pub by_type : List Bucket
  pub web_subscriptions : ℕ
  pub device_tokens : ℕ
  pub ios : ℕ
  pub android : ℕ

-- The test request with its defaults.
abbrev pub to_oracle : NotifyRequest → NotifyRequest
to_oracle req = record req {
  source = if is_empty req.source then codes "oracle" else req.source;
  type = if is_empty req.type then codes "test.message" else req.type;
}

module _ (db : Database) where
  pub admin_stats : Store db → Stats
  admin_stats s = record {
    total = counted db.messages (λ m. true) s.messages;
    sent = counted db.messages (λ m. is_sent m.status) s.messages;
    queued = counted db.messages (λ m. is_waiting m.status) s.messages;
    failed = counted db.messages (λ m. is_failed m.status) s.messages;
    bounced = counted db.messages (λ m. is_bounced m.status) s.messages;
    domains = counted db.domains (λ d. true) s.domains;
    verified = counted db.domains (λ d. is_verified d.status) s.domains;
    keys = counted db.keys (λ k. true) s.keys;
  }

  -- `grouped` is the query that groups by a column: the 20 largest groups.
  pub admin_notification_stats :
      ((Notification → Str) → db.notifications.State → List Bucket)
      → ℕ
      → db.notifications.State
      → db.subscriptions.State
      → db.devices.State
      → NotificationStats
  unfolding str_eq
  admin_notification_stats grouped now ns ss ds =
      let total = counted db.notifications (λ n. true) ns in
      let unread = counted db.notifications (λ n. not (is_some n.read_at)) ns in
      record {
        total = total;
        unread = unread;
        last_24h = counted db.notifications (λ n. leb (now - 24 * 3600 * 10 ^ 9) n.created_at) ns;
        read = (total + (2 ^ 64 - unread)) % 2 ^ 64;
        by_source = grouped (λ n. n.source) ns;
        by_type = grouped (λ n. n.type) ns;
        web_subscriptions = counted db.subscriptions (λ w. true) ss;
        device_tokens = counted db.devices (λ d. true) ds;
        ios = counted db.devices (λ d. str_eq d.platform (codes "ios")) ds;
        android = counted db.devices (λ d. str_eq d.platform (codes "android")) ds;
      }

  -- AdminSendTestNotification, which reads no preferences: the channels are as they are without a
  -- row.
  pub admin_send_test_notification : Env → Option NotifyRequest → Inbox db → Inbox db × Answer
  unfolding load_prefs emit
  admin_send_test_notification env none i = (i, failed 400 (codes "invalid body"))
  admin_send_test_notification env (some req) i =
      if is_empty req.user_id || is_empty req.title
      then (i, failed 400 (codes "user_id and title required"))
      else emit db env (load_prefs req.user_id none) (to_oracle req) i
