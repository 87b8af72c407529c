-- ===== src/Handlers/Preferences/Updates.antt =====
-- What a user reads after an update.
use mathlib.Core.Option
use delivery_api.Base.{
  ◌≡◌, ◌⊎◌, refl, ◌∙◌, ap, inl, inr, arith, Bool, true, false, Option, none, some, is_some, List,
  Str, is_empty, str_eq, str_eq_iff, Option-cases,
}
use delivery_api.Handlers.Reply.{Reply, reply}
use delivery_api.Handlers.Notifications.{NotificationPreference, load_prefs}
use delivery_api.Handlers.Preferences.{
  inserted, written, Preferences, PrefsUpdate, applied, update_preferences,
}

-- A member after an update: the body's value, if it has one, and else as before.
abbrev pub Follows {ℓ} : {A : Type ℓ} → Option A → A → A → Type ℓ
Follows none old new = new ≡ old
Follows (some value) old new = new ≡ value

-- A row after an update, member by member.
pub record IsChanged (marshal : List Str → Str) (req : PrefsUpdate) (p p' : NotificationPreference)
    : Type 0 where
  pub user : p'.user_id ≡ p.user_id
  pub in_app : Follows req.in_app_enabled p.in_app_enabled p'.in_app_enabled
  pub web_push : Follows req.web_push_enabled p.web_push_enabled p'.web_push_enabled
  pub mobile : Follows req.mobile_enabled p.mobile_enabled p'.mobile_enabled
  pub fallback : Follows req.email_fallback p.email_fallback p'.email_fallback
  pub muted :
      Follows
        (Option.map (λ types. some (marshal types)) req.muted_types)
        p.muted_types
        p'.muted_types

-- A table none of whose calls fails.
pub record IsLive (t : Preferences) : Type 0 where
  pub read_live : (user : Str) (s : t.State) → t.read user s ≡ t.row_of s user
  pub save_live :
      (p : NotificationPreference) (s : t.State)
      → ((is_some (t.row_of s p.user_id) ≡ true)
          × ((t.save p s).1 ≡ p)
          × ((user : Str)
              → t.row_of (t.save p s).0 user ≡ written p.user_id p (t.row_of s) (λ r. some r) user))
        ⊎ ((is_some (t.row_of s p.user_id) ≡ false)
            × ((t.save p s).1 ≡ inserted p)
            × ((user : Str)
                → t.row_of (t.save p s).0 user
                  ≡ written p.user_id p (t.row_of s) (λ r. some (inserted r)) user))

module _ (t : Preferences) (live : IsLive t) (marshal : List Str → Str) (user : Str)
    (named : is_empty user ≡ false) (req : PrefsUpdate) (s : t.State) where
  abbrev after : t.State × Reply NotificationPreference
  after = update_preferences t marshal user (some req) s

  abbrev asked : NotificationPreference
  asked = applied marshal req (load_prefs user (t.row_of s user))

  after-save : after ≡ ((t.save asked s).0, reply 200 (t.save asked s).1)
  unfolding update_preferences
  after-save = rw (after, update_preferences, named, live.read_live user s) refl

  load_prefs-user : (load_prefs user (t.row_of s user)).user_id ≡ user
  unfolding load_prefs
  load_prefs-user = elim (Option-cases (t.row_of s user)) [
    | inl e ↦ rw e refl
    | inr (p, e) ↦ rw e (t.row_law s user p e)
  ]

  asked_user : asked.user_id ≡ user
  unfolding applied
  asked_user = load_prefs-user

  abbrev Wrote : (NotificationPreference → Option NotificationPreference) → Type 0
  Wrote f =
      (other : Str)
      → t.row_of (t.save asked s).0 other ≡ written asked.user_id asked (t.row_of s) f other

  saved_own :
      (f : NotificationPreference → Option NotificationPreference)
      → Wrote f
      → t.row_of (t.save asked s).0 user ≡ f asked
  saved_own f rows =
      let own : str_eq asked.user_id user ≡ true = (str_eq_iff asked.user_id user).1 asked_user in
      rows user ∙ rw own refl

  asked-row :
      (p : NotificationPreference) → t.row_of s user ≡ some p → asked ≡ applied marshal req p
  unfolding load_prefs
  asked-row p found = ap (λ o. applied marshal req (load_prefs user o)) found

  has_row : (b : Bool) → is_some (t.row_of s user) ≡ b → is_some (t.row_of s asked.user_id) ≡ b
  has_row b h = ap (λ u. is_some (t.row_of s u)) asked_user ∙ h

  -- The row that the table then has.
  pub row_of-update_preferences :
      (p : NotificationPreference)
      → t.row_of s user ≡ some p
      → t.read user (update_preferences t marshal user (some req) s).0
        ≡ some (applied marshal req p)
  row_of-update_preferences p found = elim (live.save_live asked s) [
    | inr (fresh, answer, rows) ↦ absurd (ground (arith, has_row true (ap is_some found)))
    | inl (has, answer, rows) ↦ rw after-save (
        live.read_live user (t.save asked s).0
        ∙ saved_own (λ r. some r) rows
        ∙ ap some (asked-row p found))
  ]
