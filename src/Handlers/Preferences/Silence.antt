-- ===== src/Handlers/Preferences/Silence.antt =====
-- A user who turns every channel off is told nothing.
use delivery_api.Base.{◌≡◌, refl, ◌∙◌, ap, false, some, List, Str, codes, is_empty, ◌||◌}
use delivery_api.Db.{Database}
use delivery_api.Handlers.Notifications.{
  NotificationPreference, NotifyRequest, Env, Inbox, service_notify, load_prefs, skipped,
}
use delivery_api.Handlers.Preferences.{Preferences, PrefsUpdate, applied, update_preferences}
use delivery_api.Handlers.Preferences.Updates.{IsLive, row_of-update_preferences}

module _ (t : Preferences) (live : IsLive t) (marshal : List Str → Str) (user : Str)
    (named : is_empty user ≡ false) (req : PrefsUpdate) (s : t.State) (p : NotificationPreference)
    (found : t.row_of s user ≡ some p) where
  -- In a table none of whose calls fails, when a user has a row and an update leaves the three
  -- channels off, ServiceNotify creates and sends nothing for that user.
  pub service_notify-update_preferences :
      (applied marshal req p).in_app_enabled ≡ false
      → (applied marshal req p).web_push_enabled ≡ false
      → (applied marshal req p).mobile_enabled ≡ false
      → (db : Database) (env : Env) (r : NotifyRequest) (i : Inbox db) → r.user_id ≡ user
      → (is_empty r.user_id || (is_empty r.type || is_empty r.title)) ≡ false
      → service_notify db env
          (t.read r.user_id (update_preferences t marshal user (some req) s).0)
          (some r)
          i
        ≡ (i, skipped (codes "user has all channels disabled"))
  unfolding service_notify load_prefs
  service_notify-update_preferences in_app web mobile db env r i its complete =
      let after = (update_preferences t marshal user (some req) s).0 in
      let row : t.read r.user_id after ≡ some (applied marshal req p) =
        ap (λ u. t.read u after) its
        ∙ row_of-update_preferences t live marshal user named req s p found in
      rw row (rw (service_notify, load_prefs, complete, in_app, web, mobile) refl)
