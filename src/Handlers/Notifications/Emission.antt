-- ===== src/Handlers/Notifications/Emission.antt =====
-- What ServiceNotify and SelfNotify do, whatever calls of the database fail.
use delivery_api.Base.{
  ◌≡◌, ◌≢◌, ◌∙◌, ap, refl, ◌⊎◌, inl, inr, Bool, true, false, not, ◌&&◌, ◌||◌, Option, none, some,
  Option-cases, Bool-cases, [], ◌∷◌, ◌++◌, Str, is_empty, if◌then◌else◌,
}
use delivery_api.Models.{Notification}
use delivery_api.Db.{Database}
use delivery_api.Handlers.Notifications.{
  NotificationPreference, NotifyRequest, Env, Push, Inbox, Answer, created, failed, load_prefs,
  is_muted, new_notification, announce, publish_unread, unread_count, show_if, push_if, push_of,
  emit, service_notify, self_notify, to_self,
}
use delivery_api.Handlers.Notifications.Inboxes.{publish_unread-rows}

module _ (db : Database) where
  publish_unread-pushes : (user : Str) (i : Inbox db) → (publish_unread db user i).pushes ≡ i.pushes
  unfolding publish_unread
  publish_unread-pushes user i = elim (Option-cases i.hub) [
    | inl e ↦ rw (publish_unread, e)
    | inr (h, e) ↦ elim (Option-cases (unread_count db user i.notifications)) [
      | inl c ↦ rw (publish_unread, e, c)
      | inr (n, c) ↦ rw (publish_unread, e, c)
    ]
  ]

  announce-rows :
      (user : Str) (n : Notification) (i : Inbox db)
      → (announce db user n i).notifications ≡ i.notifications
  announce-rows user n i = elim (Option-cases i.hub) [
    | inl e ↦ rw e refl
    | inr (h, e) ↦ rw e (publish_unread-rows db user _)
  ]

  announce-pushes :
      (user : Str) (n : Notification) (i : Inbox db) → (announce db user n i).pushes ≡ i.pushes
  announce-pushes user n i = elim (Option-cases i.hub) [
    | inl e ↦ rw e refl
    | inr (h, e) ↦ rw e (publish_unread-pushes user _)
  ]

  show_if-rows :
      (b : Bool) (user : Str) (n : Notification) (i : Inbox db)
      → (show_if db b user n i).notifications ≡ i.notifications
  show_if-rows true user n i = announce-rows user n i
  show_if-rows false user n i = refl

  show_if-pushes :
      (b : Bool) (user : Str) (n : Notification) (i : Inbox db)
      → (show_if db b user n i).pushes ≡ i.pushes
  show_if-pushes true user n i = announce-pushes user n i
  show_if-pushes false user n i = refl

  push_if-rows :
      (b : Bool) (p : Push) (i : Inbox db) → (push_if db b p i).notifications ≡ i.notifications
  push_if-rows true p i = refl
  push_if-rows false p i = refl

  push_if-pushes :
      (b : Bool) (p : Push) (i : Inbox db)
      → (push_if db b p i).pushes ≡ (if b then i.pushes ++ p ∷ [] else i.pushes)
  push_if-pushes true p i = refl
  push_if-pushes false p i = refl

  show_if-hub :
      (b c : Bool) (user : Str) (n : Notification) (i : Inbox db) (p : Push)
      → (b ≡ true) ⊎ ((push_if db c p (show_if db b user n i)).hub ≡ i.hub)
  show_if-hub true c user n i p = inl refl
  show_if-hub false true user n i p = inr refl
  show_if-hub false false user n i p = inr refl

  -- What a call leaves of the inbox: nothing new, or one row with one push to the enabled drivers.
  pub data IsEmitted (env : Env) (prefs : NotificationPreference) (req : NotifyRequest)
      (i : Inbox db) : Inbox db × Answer → Type 0 where
    silent :
        (answer : Answer)
        → ((n : Notification) → answer ≢ created n)
        → IsEmitted env prefs req i (i, answer)
    broken :
        (i' : Inbox db) (text : Str)
        → db.notifications.rows i'.notifications ≡ db.notifications.rows i.notifications
        → i'.hub ≡ i.hub
        → i'.pushes ≡ i.pushes
        → IsEmitted env prefs req i (i', failed 500 text)
    emitted :
        (i' : Inbox db) (n : Notification)
        → is_muted env prefs req.type ≡ false
        → db.notifications.rows i'.notifications ≡ db.notifications.rows i.notifications ++ n ∷ []
        → n.user_id ≡ req.user_id
        → n.read_at ≡ none
        → (prefs.in_app_enabled ≡ true) ⊎ (i'.hub ≡ i.hub)
        → i'.pushes ≡ (
            if env.has_dispatcher
            then i.pushes
              ++ record {
                notification = n;
                web = prefs.web_push_enabled;
                mobile = prefs.mobile_enabled;
              }
                ∷ []
            else i.pushes)
        → IsEmitted env prefs req i (i', created n)

  emit-IsEmitted :
      (env : Env) (prefs : NotificationPreference) (req : NotifyRequest) (i : Inbox db)
      → is_muted env prefs req.type ≡ false
      → IsEmitted env prefs req i (emit db env prefs req i)
  unfolding emit new_notification
  emit-IsEmitted env prefs req i heard =
      elim (db.notifications.create_law (new_notification env req) i.notifications) [
        | inl (e, same) ↦ rw (emit, e) (broken _ _ same refl refl)
        | inr (g, e, rows, _) ↦
            let n : Notification = record (new_notification env req) { id = g.id } in
            let i' : Inbox db = record i {
              notifications =
                  (db.notifications.create (new_notification env req) i.notifications).0;
            } in
            let shown = show_if db prefs.in_app_enabled req.user_id n i' in
            rw (emit, e)
              (emitted _ n heard
                (ap db.notifications.rows (
                    push_if-rows env.has_dispatcher (push_of db prefs n) shown
                    ∙ show_if-rows prefs.in_app_enabled req.user_id n i')
                  ∙ rows)
                refl refl (show_if-hub prefs.in_app_enabled env.has_dispatcher req.user_id n i' _)
                (push_if-pushes env.has_dispatcher (push_of db prefs n) shown
                  ∙ ap (λ ps. if env.has_dispatcher then ps ++ push_of db prefs n ∷ [] else ps)
                      (show_if-pushes prefs.in_app_enabled req.user_id n i')))
      ]

  -- ServiceNotify with a decoded body either emits nothing new, or creates one unread row for the
  -- addressee of a type that is not muted; it is announced in the app only if that channel is on,
  -- and handed to the dispatcher, if there is one, for the enabled drivers.
  pub service_notify-IsEmitted :
      (env : Env) (row : Option NotificationPreference) (req : NotifyRequest) (i : Inbox db)
      → IsEmitted env (load_prefs req.user_id row) req i (service_notify db env row (some req) i)
  unfolding service_notify
  service_notify-IsEmitted env row req i =
      let prefs = load_prefs req.user_id row in
      elim (Bool-cases (is_empty req.user_id || (is_empty req.type || is_empty req.title))) [
        | inl e ↦ rw (service_notify, e) (silent _ (λ n h. cc))
        | inr full ↦
            elim (Bool-cases (
              not prefs.in_app_enabled
              && (not prefs.web_push_enabled && not prefs.mobile_enabled))) [
                | inl e ↦ rw (service_notify, full, e) (silent _ (λ n h. cc))
                | inr on ↦ elim (Bool-cases (is_muted env prefs req.type)) [
                  | inl e ↦ rw (service_notify, full, on, e) (silent _ (λ n h. cc))
                  | inr heard ↦
                      rw (service_notify, full, on, heard) (emit-IsEmitted env prefs req i heard)
                ]
              ]
      ]

  -- SelfNotify with a decoded body either emits nothing new, or creates one unread row for the
  -- caller, announced and handed on as by ServiceNotify.
  pub self_notify-IsEmitted :
      (env : Env) (user : Str) (row : Option NotificationPreference) (req : NotifyRequest)
      (i : Inbox db)
      → IsEmitted env
          (load_prefs user row)
          (to_self db user req)
          i
          (self_notify db env user row (some req) i)
  unfolding self_notify
  self_notify-IsEmitted env user row req i =
      let prefs = load_prefs user row in
      elim (Bool-cases (is_empty user)) [
        | inl e ↦ rw (self_notify, e) (silent _ (λ n h. cc))
        | inr known ↦ elim (Bool-cases (is_empty req.title)) [
          | inl e ↦ rw (self_notify, known, e) (silent _ (λ n h. cc))
          | inr titled ↦ elim (Bool-cases (is_muted env prefs (to_self db user req).type)) [
            | inl e ↦ rw (self_notify, known, titled, e) (silent _ (λ n h. cc))
            | inr heard ↦
                rw (self_notify, known, titled, heard)
                  (emit-IsEmitted env prefs (to_self db user req) i heard)
          ]
        ]
      ]
