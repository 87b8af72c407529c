-- ===== src/Handlers/Preferences/Tests.antt =====
-- A table of preferences held as a function, with one user's row.
use mathlib.Core.Option
use delivery_api.Base.{
  ◌≡◌, ◌⊎◌, refl, sym, ◌∙◌, ap, inl, inr, Bool, true, false, Option, none, some, is_some, [], List,
  Str, codes, str_eq, str_eq_iff, Option-cases, Bool-cases, if◌then◌else◌,
}
use delivery_api.Listed.{list_db}
use delivery_api.Handlers.Notifications.{
  NotificationPreference, NotifyRequest, Env, Inbox, load_prefs,
}
use delivery_api.Handlers.Preferences.{inserted, written, Preferences, PrefsUpdate}

abbrev Rows : Type 0
Rows = Str → Option NotificationPreference

abbrev keyed_by : Str → Option NotificationPreference → Option NotificationPreference
keyed_by user none = none
keyed_by user (some p) = some (record p { user_id = user })

abbrev rows_of : Rows → Str → Option NotificationPreference
rows_of s user = keyed_by user (s user)

abbrev put_row : NotificationPreference → Rows → Rows
put_row p s user = if str_eq p.user_id user then some p else s user

abbrev save_row : Bool → NotificationPreference → Rows → Rows × NotificationPreference
save_row true p s = (put_row p s, p)
save_row false p s = (put_row (inserted p) s, inserted p)

rows_of-key :
    (o : Option NotificationPreference) (user : Str) (p : NotificationPreference)
    → keyed_by user o ≡ some p
    → p.user_id ≡ user
rows_of-key none user p h = cc
rows_of-key (some q) user p h = sym (ap (λ r. r.user_id) (Option.some_inj.0 h))

rows_of-put_row :
    (p : NotificationPreference) (s : Rows) (user : Str)
    → rows_of (put_row p s) user ≡ written p.user_id p (rows_of s) (λ r. some r) user
rows_of-put_row p s user = elim (Bool-cases (str_eq p.user_id user)) [
  | inl same ↦
      rw same (ap (λ u. some (record p { user_id = u })) (sym ((str_eq_iff p.user_id user).0 same)))
  | inr apart ↦ rw apart refl
]

rows_of-some : (s : Rows) (user : Str) → is_some (rows_of s user) ≡ is_some (s user)
rows_of-some s user = elim (Option-cases (s user)) [ inl e ↦ rw e refl | inr (p, e) ↦ rw e refl ]

abbrev SaveLaw : NotificationPreference → Rows → Rows × NotificationPreference → Type 0
SaveLaw p s r =
    ((is_some (rows_of s p.user_id) ≡ true)
      × (r.1 ≡ p)
      × ((user : Str) → rows_of r.0 user ≡ written p.user_id p (rows_of s) (λ r. some r) user))
    ⊎ ((is_some (rows_of s p.user_id) ≡ false)
        × (r.1 ≡ inserted p)
        × ((user : Str)
            → rows_of r.0 user ≡ written p.user_id p (rows_of s) (λ r. some (inserted r)) user))

save_row-SaveLaw :
    (p : NotificationPreference) (s : Rows) → SaveLaw p s (save_row (is_some (s p.user_id)) p s)
save_row-SaveLaw p s = elim (Bool-cases (is_some (s p.user_id))) [
  | inl has ↦ rw has (inl (rows_of-some s p.user_id ∙ has, refl, rows_of-put_row p s))
  | inr new ↦ rw new (inr (rows_of-some s p.user_id ∙ new, refl, rows_of-put_row (inserted p) s))
]

abbrev table : Preferences
table = record {
  State = Rows;
  row_of = rows_of;
  read = λ user s. rows_of s user;
  save = λ p s. save_row (is_some (s p.user_id)) p s;
  row_law = λ s user p h. rows_of-key (s user) user p h;
  read_law = λ user s. inr refl;
  save_law = λ p s. inr (save_row-SaveLaw p s);
}

abbrev quiet : PrefsUpdate
quiet = record {
  in_app_enabled = some false;
  web_push_enabled = some false;
  mobile_enabled = some false;
  email_fallback = none;
  muted_types = none;
}

abbrev defaults : NotificationPreference
defaults = load_prefs (codes "u") none

abbrev nobody : Rows
nobody user = none

abbrev one_user : Rows
one_user = put_row defaults nobody

abbrev marshal : List Str → Str
marshal types = []

abbrev env : Env
env = record { read_types = λ s. none; uuid = codes "id"; now = 7; has_dispatcher = true }

abbrev inbox : Inbox list_db
inbox = record { notifications = []; hub = none; pushes = [] }

abbrev notice : NotifyRequest
notice = record {
  user_id = codes "u";
  source = codes "s";
  type = codes "t";
  title = codes "T";
  body = [];
  link = [];
  payload = [];
}
