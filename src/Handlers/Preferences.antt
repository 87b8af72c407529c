-- ===== src/Handlers/Preferences.antt =====
-- GetPreferences and UpdatePreferences of internal/handlers/notifications.go. The table, whose key
-- is the user, and json.Marshal of the muted types are parameters.
pub mod Updates
pub mod Silence
pub mod Tests
use delivery_api.Base.{
  ◌≡◌, ◌⊎◌, Bool, true, false, Option, none, some, get_or, is_some, List, Str, codes, if◌then◌else◌,
  is_empty, str_eq,
}
use delivery_api.Handlers.Reply.{Reply, reply, error}
use delivery_api.Handlers.Notifications.{NotificationPreference, load_prefs}

-- What an insertion writes for a member: the zero value of its type is written as the default of
-- its column.
abbrev pub or_default : Bool → Bool → Bool
or_default value column_default = if value then value else column_default

-- What an insertion makes of a row, with the defaults that the tags of the struct give.
abbrev pub inserted : NotificationPreference → NotificationPreference
inserted p = record p {
  in_app_enabled = or_default p.in_app_enabled true;
  web_push_enabled = or_default p.web_push_enabled true;
  mobile_enabled = or_default p.mobile_enabled true;
  email_fallback = or_default p.email_fallback false;
}

abbrev pub written {ℓ} :
    {A : Type ℓ} → Str → NotificationPreference → (Str → A) → (NotificationPreference → A) → Str → A
written key p old new user = if str_eq key user then new p else old user

pub record Preferences : Type 1 where
  pub State : Type 0
  -- The row of a user.
  pub row_of : State → Str → Option NotificationPreference
  -- Where("user_id = ?", ...).First: the error is `none`.
  pub read : Str → State → Option NotificationPreference
  -- Save, with the row as it is left: it updates the row with the key, or inserts one.
  pub save : NotificationPreference → State → State × NotificationPreference
  pub row_law :
      (s : State) (user : Str) (p : NotificationPreference)
      → row_of s user ≡ some p
      → p.user_id ≡ user
  pub read_law : (user : Str) (s : State) → (read user s ≡ none) ⊎ (read user s ≡ row_of s user)
  pub save_law :
      (p : NotificationPreference) (s : State)
      → ((user : Str) → row_of (save p s).0 user ≡ row_of s user)
        ⊎ ((is_some (row_of s p.user_id) ≡ true)
            × ((save p s).1 ≡ p)
            × ((user : Str)
                → row_of (save p s).0 user ≡ written p.user_id p (row_of s) (λ r. some r) user))
        ⊎ ((is_some (row_of s p.user_id) ≡ false)
            × ((save p s).1 ≡ inserted p)
            × ((user : Str)
                → row_of (save p s).0 user
                  ≡ written p.user_id p (row_of s) (λ r. some (inserted r)) user))

-- A member that is missing from the body is `none`.
pub record PrefsUpdate : Type 0 where
  pub in_app_enabled : Option Bool
  pub web_push_enabled : Option Bool
  pub mobile_enabled : Option Bool
  pub email_fallback : Option Bool
  pub muted_types : Option (List Str)

-- The row with the members of the body.
pub applied : (List Str → Str) → PrefsUpdate → NotificationPreference → NotificationPreference
applied marshal req p = record p {
  in_app_enabled = get_or req.in_app_enabled p.in_app_enabled;
  web_push_enabled = get_or req.web_push_enabled p.web_push_enabled;
  mobile_enabled = get_or req.mobile_enabled p.mobile_enabled;
  email_fallback = get_or req.email_fallback p.email_fallback;
  muted_types = elim req.muted_types [ none ↦ p.muted_types | some types ↦ some (marshal types) ];
}

module _ (t : Preferences) where
  pub get_preferences : Str → t.State → Reply NotificationPreference
  get_preferences user s =
      if is_empty user
      then error 401 (codes "unauthorized")
      else reply 200 (load_prefs user (t.read user s))

  -- UpdatePreferences; `none` is a body that cannot be decoded.
  pub update_preferences :
      (List Str → Str) → Str → Option PrefsUpdate → t.State → t.State × Reply NotificationPreference
  update_preferences marshal user none s = (
    s,
    if is_empty user then error 401 (codes "unauthorized") else error 400 (codes "invalid body"),
  )
  update_preferences marshal user (some req) s =
      let saved = t.save (applied marshal req (load_prefs user (t.read user s))) s in
      if is_empty user then (s, error 401 (codes "unauthorized")) else (saved.0, reply 200 saved.1)
