-- ===== src/Handlers/Notifications/Inboxes/Counts.antt =====
-- What UnreadCount answers after a call on the inbox.
use delivery_api.Base.{
  ℕ, ◌≡◌, ◌≢◌, ◌∙◌, refl, inl, inr, Bool, true, false, not, ◌&&◌, Option-cases, Bool-cases, Str,
  arith, is_empty, is_empty_iff, ap, str_eq, is_some, [], count_where, count_where-update_as,
  count_where-reject_as, ◌==◌, if◌then◌else◌,
}
use delivery_api.Models.{Notification}
use delivery_api.Db.{Database, IsLive}
use delivery_api.Handlers.Notifications.{
  Inbox, counted, unread, owned, unread_count, count_unread, mark_read, mark_all_read,
  delete_notification, read_now,
}
use delivery_api.Handlers.Notifications.Inboxes.{
  publish_unread-rows, Verb, reads, deletes, reads_all, perform,
}

-- The notifications that a call names.
abbrev pub is_named : (db : Database) → Verb db → Notification → Bool
is_named db (reads id) n = str_eq n.external_id id
is_named db (deletes id) n = str_eq n.external_id id
is_named db reads_all n = true

module _ (db : Database) (live : IsLive db.notifications) (now : ℕ) (user reader : Str)
    (named : is_empty user ≡ false) (i : Inbox db) where
  -- The reader's unread notifications that are not the caller's and named by the call.
  abbrev pub left : Verb db → ℕ
  left v =
      count_where (λ n. unread reader n && not (str_eq n.user_id user && is_named db v n))
        (db.notifications.rows i.notifications)

  count-update :
      (v : Verb db) (q : Notification → Bool)
      → ((n : Notification)
          → unread reader (if q n then read_now db now n else n)
            ≡ (unread reader n && not (str_eq n.user_id user && is_named db v n)))
      → count_where
          (unread reader)
          (db.notifications.rows (db.notifications.update q (read_now db now) i.notifications).0)
        ≡ left v
  count-update v q same =
      ap (count_where (unread reader)) (live.update_live q (read_now db now) i.notifications).1
      ∙ count_where-update_as (unread reader) q
          (λ n. unread reader n && not (str_eq n.user_id user && is_named db v n)) (read_now db now)
          same (db.notifications.rows i.notifications)

  perform-count :
      (v : Verb db)
      → count_where
          (unread reader)
          (db.notifications.rows (perform db now user v i).0.notifications)
        ≡ left v
  unfolding perform mark_read mark_all_read delete_notification
  perform-count (reads id) =
      let q = λ (n : Notification). owned id user n && not (is_some n.read_at) in
      let counts = count-update (reads id) q (λ n. ground arith) in
      elim (Bool-cases ((db.notifications.update q (read_now db now) i.notifications).1 == 0)) [
        | inl none_ ↦ rw (mark_read, named, none_) counts
        | inr some_ ↦ rw (mark_read, named, some_, publish_unread-rows) counts
      ]
  perform-count (deletes id) =
      let counts : count_where (unread reader)
            (db.notifications.rows (db.notifications.delete (owned id user) i.notifications).0)
          ≡ left (deletes id) =
        ap (count_where (unread reader)) (live.delete_live (owned id user) i.notifications).1
        ∙ count_where-reject_as (unread reader) (owned id user)
            (λ n. unread reader n && not (str_eq n.user_id user && is_named db (deletes id) n))
            (λ n. ground arith) (db.notifications.rows i.notifications) in
      elim (Option-cases (db.notifications.delete (owned id user) i.notifications).1) [
        | inl broken ↦ rw (delete_notification, named, broken) counts
        | inr (k, gone) ↦ elim (Bool-cases (k == 0)) [
          | inl none_ ↦ rw (delete_notification, named, gone, none_) counts
          | inr some_ ↦ rw (delete_notification, named, gone, some_, publish_unread-rows) counts
        ]
      ]
  perform-count reads_all =
      rw (mark_all_read, named, publish_unread-rows)
        (count-update reads_all (unread user) (λ n. ground arith))

-- In a table of notifications none of whose calls fails, and for a named caller and a named reader:
-- after MarkRead, DeleteNotification or MarkAllRead, UnreadCount answers the reader the number of
-- the reader's notifications that were unread before, without those of the caller that the call
-- names: those with the given id, or all.
pub count_unread-perform :
    (db : Database) (live : IsLive db.notifications) (now : ℕ) (user reader : Str) (v : Verb db)
    (i : Inbox db)
    → user ≢ []
    → reader ≢ []
    → count_unread db reader (perform db now user v i).0
      ≡ counted (
          count_where
            (λ n. unread reader n && not (str_eq n.user_id user && is_named db v n))
            (db.notifications.rows i.notifications))
unfolding count_unread unread_count
count_unread-perform db live now user reader v i caller asks =
    let named : is_empty user ≡ false = ground (arith, is_empty_iff user) in
    let known : is_empty reader ≡ false = ground (arith, is_empty_iff reader) in
    rw
      (
        known,
        live.count_live (unread reader) (perform db now user v i).0.notifications,
        perform-count db live now user reader named i v,
      )
      refl
