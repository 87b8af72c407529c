-- ===== src/Handlers/Send/Acceptance.antt =====
-- What SendEmail and ServiceSend leave behind, whatever calls of the database fail.
use delivery_api.Base.{
  ◌⊎◌, if◌then◌else◌, ◌&&◌, count_where, str_eq, sym, ◌∙◌, ℕ, ◌<◌, ◌≡◌, ◌≢◌, refl, inl, inr, Bool,
  true, false, ◌||◌, Option, none, some, Option-cases, Bool-cases, [], ◌∷◌, ◌++◌, Str, arith, All,
  is_empty, is_empty_iff, ltb, get_or, str_eq_iff,
}
use delivery_api.Models.{Suppression, Message, SendingDomain, DomainStatus}
use delivery_api.Db.{Database, first_sound, count_sound}
use delivery_api.Queue.{Worker, enqueue}
use delivery_api.Handlers.Reply.{Reply, reply, error}
use delivery_api.Handlers.Send.{
  SendRequest, SendEnv, Accepted, validate, new_message, create_message, send_email, is_verified,
  verified_domain, suppressed, ServiceRequest, service_message, service_send, sender_of,
  extract_domain,
}
use delivery_api.Handlers.Send.Attachments.{IsAcceptable, validate_iff}

is_verified_sound : (s : DomainStatus) → is_verified s ≡ true → s ≡ DomainStatus.verified
is_verified_sound DomainStatus.verified h = refl
is_verified_sound DomainStatus.pending h = cc
is_verified_sound DomainStatus.failed h = cc

module _ (db : Database) where
  -- Only the row m is new, and its id waits in the queue.
  pub record IsQueued (m : Message) (w w' : Worker db) : Type 0 where
    pub appended : db.messages.rows w'.store.messages ≡ db.messages.rows w.store.messages ++ m ∷ []
    pub fresh : All (λ old. old.id < m.id) (db.messages.rows w.store.messages)
    pub enqueued : w'.queue ≡ enqueue m.id w.queue
    pub domains : w'.store.domains ≡ w.store.domains
    pub suppressions : w'.store.suppressions ≡ w.store.suppressions

  -- No row was added and nothing was queued.
  pub record IsRefused (w w' : Worker db) : Type 0 where
    pub messages : db.messages.rows w'.store.messages ≡ db.messages.rows w.store.messages
    pub events : w'.store.events ≡ w.store.events
    pub queue : w'.queue ≡ w.queue
    pub domains : w'.store.domains ≡ w.store.domains
    pub suppressions : w'.store.suppressions ≡ w.store.suppressions

  -- An answer of a sending handler: an error, or 202 for a row that is new in the queue and
  -- comes from the message m but for its generated columns. Only SendEmail answers with the time.
  pub data IsAnswer (with_time : Bool) (P : Message → Type 0) (w : Worker db)
      : Worker db × Reply Accepted → Type 0 where
    refused :
        (w' : Worker db) (code : ℕ) (text : Str)
        → IsRefused w w'
        → IsAnswer with_time P w (w', error code text)
    accepted :
        (w' : Worker db) (m : Message) (id at : ℕ)
        → P m
        → IsQueued (record m { id = id; created_at = at }) w w'
        → IsAnswer with_time P w (
          w',
          reply 202
              (record { id = m.external_id; created_at = if with_time then some at else none }),
        )

  unchanged : (w : Worker db) → IsRefused w w
  unchanged w = record {
    messages = refl;
    events = refl;
    queue = refl;
    domains = refl;
    suppressions = refl;
  }

  create_message-IsAnswer :
      (P : Message → Type 0) (with_event : Bool) (m : Message) (w : Worker db)
      → P m
      → IsAnswer with_event P w (create_message db with_event m w)
  unfolding create_message
  create_message-IsAnswer P with_event m w p = elim (db.messages.create_law m w.store.messages) [
    | inl (failed, same) ↦
        rw (create_message, failed)
          (refused _ 500 _ (record {
            messages = same;
            events = refl;
            queue = refl;
            domains = refl;
            suppressions = refl;
          }))
    | inr (g, made, rows, fresh) ↦
        rw (create_message, made)
          (accepted _ m g.id g.created_at p (record {
            appended = rows;
            fresh = fresh;
            enqueued = refl;
            domains = refl;
            suppressions = refl;
          }))
  ]

  -- A message of SendEmail: composed from an acceptable request and the verified row of the shared
  -- domain, for a recipient that no suppression of the caller names, unless the count of them failed.
  pub record IsPermitted (env : SendEnv) (body : Option SendRequest) (w : Worker db) (m : Message)
      : Type 0 where
    pub req : SendRequest
    pub decoded : body ≡ some req
    pub acceptable : IsAcceptable env.decode req
    pub configured : env.shared ≢ []
    pub domain : SendingDomain
    pub found : db.domains.first (verified_domain db env.shared) w.store.domains ≡ some domain
    pub named : domain.domain ≡ env.shared
    pub verified : domain.status ≡ DomainStatus.verified
    pub unsuppressed :
        (count_where
            (λ x. str_eq x.user_id env.user_id && str_eq x.email req.to)
            (db.suppressions.rows w.store.suppressions)
          ≡ 0)
        ⊎ (db.suppressions.count (suppressed db env.user_id req.to) w.store.suppressions ≡ none)
    pub composed : m ≡ new_message env req domain

  unsuppressed_sound :
      (p : Suppression → Bool) (s : db.suppressions.State)
      → ltb 0 (get_or (db.suppressions.count p s) 0) ≡ false
      → (count_where p (db.suppressions.rows s) ≡ 0) ⊎ (db.suppressions.count p s ≡ none)
  unsuppressed_sound p s h = elim (Option-cases (db.suppressions.count p s)) [
    | inl failed ↦ inr failed
    | inr (n, e) ↦
        let zero_count : n ≡ 0 = ground (arith) in
        inl (sym (count_sound db.suppressions p s n e) ∙ zero_count)
  ]

  verified_domain_sound :
      (name : Str) (d : SendingDomain)
      → verified_domain db name d ≡ true
      → (d.domain ≡ name) × (d.status ≡ DomainStatus.verified)
  verified_domain_sound name d h =
      ground (arith, str_eq_iff d.domain name, is_verified_sound d.status)

  -- SendEmail answers an error and leaves the messages, the events and the queue as they were, or
  -- 202 for one new row, with a fresh id that joins the queue; the row is composed from an
  -- acceptable request and the verified shared domain, and no suppression of the caller names the
  -- recipient, unless the query that counts the suppressions failed.
  pub send_email-IsAnswer :
      (env : SendEnv) (body : Option SendRequest) (w : Worker db)
      → IsAnswer true (IsPermitted env body w) w (send_email db env body w)
  unfolding send_email
  send_email-IsAnswer env none w = refused w 400 _ (unchanged w)
  send_email-IsAnswer env (some req) w = elim (Option-cases (validate env.decode req)) [
    | inr (text, e) ↦ rw (send_email, e) (refused w 400 text (unchanged w))
    | inl valid ↦ elim (Bool-cases (is_empty env.shared)) [
      | inl e ↦ rw (send_email, valid, e) (refused w 503 _ (unchanged w))
      | inr configured ↦
          elim (Option-cases (db.domains.first (verified_domain db env.shared) w.store.domains)) [
            | inl e ↦ rw (send_email, valid, configured, e) (refused w 503 _ (unchanged w))
            | inr (d, found) ↦
                let count =
                  get_or
                    (db.suppressions.count (suppressed db env.user_id req.to) w.store.suppressions)
                    0 in
                elim (Bool-cases (ltb 0 count)) [
                  | inl e ↦
                      rw (send_email, valid, configured, found, e) (refused w 400 _ (unchanged w))
                  | inr unsuppressed ↦
                      let (named, verified) =
                        verified_domain_sound env.shared d
                          (first_sound db.domains _ w.store.domains d found) in
                      rw (send_email, valid, configured, found, unsuppressed)
                        (create_message-IsAnswer (IsPermitted env (some req) w) true
                          (new_message env req d) w
                          (record {
                            req = req;
                            decoded = refl;
                            acceptable = (validate_iff env.decode req).0 valid;
                            configured = ground (arith, is_empty_iff env.shared);
                            domain = d;
                            found = found;
                            named = named;
                            verified = verified;
                            unsuppressed =
                                unsuppressed_sound (suppressed db env.user_id req.to)
                                  w.store.suppressions unsuppressed;
                            composed = refl;
                          }))
                ]
          ]
    ]
  ]

  -- A message of ServiceSend: its sender's domain has a verified row, whose owner it gets.
  pub record IsServed (uuid : Str) (body : Option ServiceRequest) (m : Message) : Type 0 where
    pub req : ServiceRequest
    pub decoded : body ≡ some req
    pub recipient : req.to ≢ []
    pub subject : req.subject ≢ []
    pub domain : SendingDomain
    pub named : domain.domain ≡ extract_domain (sender_of req)
    pub verified : domain.status ≡ DomainStatus.verified
    pub composed : m ≡ service_message uuid req domain

  -- ServiceSend answers an error and leaves the messages, the events and the queue as they were,
  -- or 202 for one new row, with a fresh id that joins the queue; the row is composed from a
  -- request with a recipient and a subject, and a verified domain that is the sender's.
  pub service_send-IsAnswer :
      (uuid : Str) (body : Option ServiceRequest) (w : Worker db)
      → IsAnswer false (IsServed uuid body) w (service_send db uuid body w)
  unfolding service_send
  service_send-IsAnswer uuid none w = refused w 400 _ (unchanged w)
  service_send-IsAnswer uuid (some req) w =
      let name = extract_domain (sender_of req) in
      elim (Bool-cases (is_empty req.to || is_empty req.subject)) [
        | inl e ↦ rw (service_send, e) (refused w 400 _ (unchanged w))
        | inr filled ↦
            elim (Option-cases (db.domains.first (verified_domain db name) w.store.domains)) [
              | inl e ↦ rw (service_send, filled, e) (refused w 400 _ (unchanged w))
              | inr (d, found) ↦
                  let (named, verified) =
                    verified_domain_sound name d
                      (first_sound db.domains _ w.store.domains d found) in
                  rw (service_send, filled, found)
                    (create_message-IsAnswer (IsServed uuid (some req)) false
                      (service_message uuid req d) w
                      (record {
                        req = req;
                        decoded = refl;
                        recipient = ground (arith, is_empty_iff req.to);
                        subject = ground (arith, is_empty_iff req.subject);
                        domain = d;
                        named = named;
                        verified = verified;
                        composed = refl;
                      }))
            ]
      ]
