-- ===== src/Handlers/Notifications/Tests.antt =====
-- Two inboxes with one notification each.
use delivery_api.Base.{count_where, not, ◌&&◌, ◌≡◌, true, none, some, [], ◌∷◌, Str, codes, str_eq}
use delivery_api.Models.{Notification, notification_model}
use delivery_api.Listed.{list_db, list_table-IsLive}
use delivery_api.Handlers.Notifications.{
  count_unread, counted, unread, NotifyRequest, Env, Inbox, load_prefs, service_notify,
}
use delivery_api.Handlers.Notifications.Emission.{IsEmitted, service_notify-IsEmitted}
use delivery_api.Handlers.Notifications.Inboxes.Counts.{count_unread-perform}
use delivery_api.Handlers.Notifications.Inboxes.{inbox_of, perform-others, reads, perform}

abbrev note : Str → Notification
note user = record {
  id = 1;
  external_id = codes "n";
  user_id = user;
  source = codes "s";
  type = codes "t";
  title = codes "T";
  body = [];
  link = [];
  payload = none;
  read_at = none;
  created_at = 0;
}

abbrev inbox : Inbox list_db
inbox = record {
  notifications = note (codes "u") ∷ note (codes "uv") ∷ [];
  hub = none;
  pushes = [];
}

abbrev pub request : NotifyRequest
request = record {
  user_id = codes "u";
  source = codes "s";
  type = codes "t";
  title = codes "T";
  body = [];
  link = [];
  payload = [];
}

abbrev pub env : Env
env = record { read_types = λ s. none; uuid = codes "id"; now = 7; has_dispatcher = true }

service_notify-IsEmitted_example :
    IsEmitted list_db env
      (load_prefs (codes "u") none)
      request
      inbox
      (service_notify list_db env none (some request) inbox)
service_notify-IsEmitted_example = service_notify-IsEmitted list_db env none request inbox

count_unread-perform_example :
    count_unread list_db (codes "u") (perform list_db 7 (codes "u") (reads (codes "n")) inbox).0
    ≡ counted (
        count_where
          (λ n.
            unread (codes "u") n
            && not (str_eq n.user_id (codes "u") && str_eq n.external_id (codes "n")))
          inbox.notifications)
count_unread-perform_example =
    count_unread-perform list_db (list_table-IsLive notification_model) 7 (codes "u") (codes "u")
      (reads (codes "n")) inbox (λ e. cc) (λ e. cc)

perform-others_example :
    inbox_of list_db (codes "uv") (perform list_db 7 (codes "u") (reads (codes "n")) inbox).0
    ≡ note (codes "uv") ∷ []
unfolding str_eq
perform-others_example =
    perform-others list_db 7 (codes "u") (codes "uv") (reads (codes "n")) inbox (λ e. cc)
