-- ===== src/Handlers/Operators/Trials.antt =====
-- The test notification beside the services'.
use delivery_api.Base.{◌≡◌, refl, inl, inr, false, none, some, is_empty, Bool-cases}
use delivery_api.Db.{Database}
use delivery_api.Handlers.Notifications.{
  NotifyRequest, Env, Inbox, load_prefs, is_muted, service_notify,
}
use delivery_api.Handlers.Operators.{to_oracle, admin_send_test_notification}

-- For a request that names a user and a title, the test does what ServiceNotify does, with the
-- defaults filled in, for a user who has no row of preferences.
pub admin_send_test_notification-service_notify :
    (db : Database) (env : Env) (req : NotifyRequest) (i : Inbox db)
    → is_empty req.user_id ≡ false
    → is_empty req.title ≡ false
    → admin_send_test_notification db env (some req) i
      ≡ service_notify db env none (some (to_oracle req)) i
unfolding admin_send_test_notification service_notify load_prefs is_muted
admin_send_test_notification-service_notify db env req i named titled =
    elim (Bool-cases (is_empty req.type)) [
      | inl bare ↦ rw (admin_send_test_notification, service_notify, named, titled, bare) refl
      | inr typed ↦
          rw (admin_send_test_notification, service_notify, named, titled, typed) (rw typed refl)
    ]
