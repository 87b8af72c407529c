-- ===== src/Handlers/Notifications/Inboxes.antt =====
-- The calls on a caller's own inbox.
pub mod Counts
use delivery_api.Base.{
  ℕ, ◌≡◌, ◌≢◌, ◌∙◌, refl, inl, inr, Bool, true, false, not, ◌&&◌, some, Option-cases, Bool-cases,
  List, [], Str, arith, is_empty, is_empty_iff, ap, str_eq, str_eq_iff, select, select-update_where,
  select-reject, count_where-update_where, ◌==◌, is_some,
}
use delivery_api.Models.{Notification}
use delivery_api.Db.{Database, IsLive}
use delivery_api.Handlers.Notifications.{
  Inbox, Answer, unread, owned, unread_count, publish_unread, mark_read, mark_all_read,
  delete_notification, read_now,
}

module _ (db : Database) where
  pub publish_unread-rows :
      (user : Str) (i : Inbox db) → (publish_unread db user i).notifications ≡ i.notifications
  unfolding publish_unread
  publish_unread-rows user i = elim (Option-cases i.hub) [
    | inl e ↦ rw (publish_unread, e)
    | inr (h, e) ↦ elim (Option-cases (unread_count db user i.notifications)) [
      | inl c ↦ rw (publish_unread, e, c)
      | inr (n, c) ↦ rw (publish_unread, e, c)
    ]
  ]

  -- What a caller may do to an inbox.
  pub data Verb : Type 0 where
    reads deletes : Str → Verb
    reads_all : Verb

  pub perform : ℕ → Str → Verb → Inbox db → Inbox db × Answer
  perform now user (reads id) i = mark_read db now user id i
  perform now user (deletes id) i = delete_notification db user id i
  perform now user reads_all i = mark_all_read db now user i

  abbrev pub owned_by : Str → Notification → Bool
  owned_by user n = str_eq n.user_id user

  abbrev pub inbox_of : Str → Inbox db → List Notification
  inbox_of user i = select (owned_by user) (db.notifications.rows i.notifications)

  apart :
      (user other : Str) (n : Notification)
      → other ≢ user
      → str_eq n.user_id user ≡ true
      → str_eq n.user_id other ≡ false
  apart user other n differ mine =
      ground (arith, str_eq_iff n.user_id user, str_eq_iff n.user_id other)

  update-others :
      (p : Notification → Bool) (now : ℕ) (user other : Str) (s : db.notifications.State)
      → other ≢ user
      → ((n : Notification) → p n ≡ true → str_eq n.user_id user ≡ true)
      → select
          (owned_by other)
          (db.notifications.rows (db.notifications.update p (read_now db now) s).0)
        ≡ select (owned_by other) (db.notifications.rows s)
  update-others p now user other s differ mine =
      elim (db.notifications.update_law p (read_now db now) s) [
        | inl (_, same) ↦ rw same refl
        | inr (_, changed) ↦ rw changed (
            select-update_where p (owned_by other) (read_now db now)
              (λ n h. (apart user other n differ (mine n h), apart user other n differ (mine n h)))
              (db.notifications.rows s))
      ]

  delete-others :
      (id user other : Str) (s : db.notifications.State)
      → other ≢ user
      → select
          (owned_by other)
          (db.notifications.rows (db.notifications.delete (owned id user) s).0)
        ≡ select (owned_by other) (db.notifications.rows s)
  delete-others id user other s differ = elim (db.notifications.delete_law (owned id user) s) [
    | inl (_, same) ↦ rw same refl
    | inr (_, gone) ↦ rw gone (
        select-reject (owned id user) (owned_by other)
          (λ n h. apart user other n differ (ground arith)) (db.notifications.rows s))
  ]

  -- Marking as read, one or all, and deleting leave the notifications of every other user.
  pub perform-others :
      (now : ℕ) (user other : Str) (v : Verb) (i : Inbox db)
      → other ≢ user
      → inbox_of other (perform now user v i).0 ≡ inbox_of other i
  unfolding perform mark_read mark_all_read delete_notification
  perform-others now user other (reads id) i differ =
      let p = λ (n : Notification). owned id user n && not (is_some n.read_at) in
      let kept = update-others p now user other i.notifications differ (λ n h. ground arith) in
      elim (Bool-cases (is_empty user)) [
        | inl e ↦ rw (mark_read, e) refl
        | inr e ↦
            elim (Bool-cases
              ((db.notifications.update p (read_now db now) i.notifications).1 == 0)) [
                | inl none_ ↦ rw (mark_read, e, none_) kept
                | inr some_ ↦ rw (mark_read, e, some_, publish_unread-rows) kept
              ]
      ]
  perform-others now user other (deletes id) i differ =
      let kept = delete-others id user other i.notifications differ in
      elim (Bool-cases (is_empty user)) [
        | inl e ↦ rw (delete_notification, e) refl
        | inr e ↦ elim (Option-cases (db.notifications.delete (owned id user) i.notifications).1) [
          | inl broken ↦ rw (delete_notification, e, broken) kept
          | inr (n, count) ↦ elim (Bool-cases (n == 0)) [
            | inl none_ ↦ rw (delete_notification, e, count, none_) kept
            | inr some_ ↦ rw (delete_notification, e, count, some_, publish_unread-rows) kept
          ]
        ]
      ]
  perform-others now user other reads_all i differ =
      let kept =
        update-others (unread user) now user other i.notifications differ (λ n h. ground arith) in
      elim (Bool-cases (is_empty user)) [
        | inl e ↦ rw (mark_all_read, e) refl
        | inr e ↦ rw (mark_all_read, e, publish_unread-rows) kept
      ]

-- After marking all as read, the caller has no unread notification, in a table none of whose calls
-- fails.
pub mark_all_read-unread_count :
    (db : Database) (live : IsLive db.notifications) (now : ℕ) (user : Str) (i : Inbox db)
    → user ≢ []
    → unread_count db user (mark_all_read db now user i).0.notifications ≡ some 0
unfolding mark_all_read unread_count
mark_all_read-unread_count db live now user i named =
    let given : is_empty user ≡ false = ground (arith, is_empty_iff user) in
    let changed = (live.update_live (unread user) (read_now db now) i.notifications).1 in
    rw (mark_all_read, given, publish_unread-rows)
      (live.count_live (unread user) _
        ∙ rw changed (
            ap some (
              count_where-update_where (unread user) (read_now db now) (λ n. ground arith)
                (db.notifications.rows i.notifications))))
