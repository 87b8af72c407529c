-- ===== src/Handlers/Send/Journey.antt =====
-- A message from SendEmail through the queue to the mail servers.
use delivery_api.Base.{
  ◌≡◌, ap, ◌∙◌, ◌≢◌, ◌⊎◌, ◌↔◌, refl, true, false, none, some, [], find_where, count_where,
}
use delivery_api.Models.{Generated, Message, SendingDomain, message_model, sent, failed}
use delivery_api.Db.{Database, IsLive}
use delivery_api.Smtp.Sender.{Network, send}
use delivery_api.Queue.{Worker, Env, enqueue, raw_message, process, rate_limit}
use delivery_api.Queue.Outcomes.{message_at}
use delivery_api.Queue.Delivery.{with_sender, rate_limit-enqueue, process_final, find_where-by_id}
use delivery_api.Handlers.Reply.{reply}
use delivery_api.Handlers.Send.{
  SendRequest, SendEnv, new_message, create_message, send_email, verified_domain, suppressed,
}
use delivery_api.Handlers.Send.Attachments.{IsAcceptable}
use delivery_api.Handlers.Send.Completion.{send_email-create_message}
use delivery_api.Handlers.Send.Acceptance.{IsQueued}

module _ (db : Database) (live : IsLive db.messages) where
  create_message-IsQueued :
      (m : Message) (w : Worker db)
      → (g : Generated) × IsQueued db (message_model.fill g m) w (create_message db true m w).0
        × ((create_message db true m w).1
            ≡ reply 202 (record { id = m.external_id; created_at = some g.created_at }))
  unfolding create_message
  create_message-IsQueued m w =
      let (g, made, rows, fresh) = live.create_live m w.store.messages in
      (
        g,
        rw (create_message, made)
            (record {
              appended = rows;
              fresh = fresh;
              enqueued = refl;
              domains = refl;
              suppressions = refl;
            }),
        rw (create_message, made) refl,
      )

  message_at-IsQueued :
      (m : Message) (w w' : Worker db) → IsQueued db m w w' → message_at db m.id w' ≡ some m
  message_at-IsQueued m w w' q =
      rw q.appended (find_where-by_id db m (db.messages.rows w.store.messages) [] q.fresh)

module _ (db : Database) (messages : IsLive db.messages) (domains : IsLive db.domains)
    (suppressions : IsLive db.suppressions) where
  -- In a database none of whose calls fails, an acceptable request, whose shared domain is verified
  -- and whose recipient has no suppression, is answered 202 and puts a new id at the end of the
  -- channel. If the rate limit lets the next call of process, with this id, the row is then sent
  -- exactly if Send reports no error for the row's sender, the recipient and the message that is made
  -- of the row; else it is failed.
  pub send_email-process :
      (senv : SendEnv) (req : SendRequest) (w : Worker db) (d : SendingDomain)
      → IsAcceptable senv.decode req
      → senv.shared ≢ []
      → find_where (verified_domain db senv.shared) (db.domains.rows w.store.domains) ≡ some d
      → count_where (suppressed db senv.user_id req.to) (db.suppressions.rows w.store.suppressions)
        ≡ 0
      → (net : Network) (env : Env) → (rate_limit env.now w.queue).1 ≡ false
      → let w' = (send_email db senv (some req) w).0 in
        (g : Generated) × ((send_email db senv (some req) w).1
          ≡ reply 202 (record { id = senv.uuid; created_at = some g.created_at }))
        × (w'.queue ≡ enqueue g.id w.queue)
        × (let m = message_model.fill g (new_message senv req d) in
            (m' : Message) × (message_at db g.id (process db (with_sender net env) g.id w').0
              ≡ some m')
            × ((m'.status ≡ sent) ⊎ (m'.status ≡ failed))
            × ((m'.status ≡ sent)
                ↔ (send net m.from_email req.to (raw_message (with_sender net env) m) ≡ none)))
  unfolding new_message
  send_email-process senv req w d ok configured found free net env open_limit =
      let made =
        send_email-create_message db domains suppressions senv req w d ok configured found free in
      let (g, q, answer) = create_message-IsQueued db messages (new_message senv req d) w in
      let m = message_model.fill g (new_message senv req d) in
      let w' = (create_message db true (new_message senv req d) w).0 in
      rw made (
        g,
        answer,
        q.enqueued,
        process_final db messages net env g.id w' m (message_at-IsQueued db messages m w w' q) refl
            (ap (λ x. (rate_limit env.now x).1) q.enqueued
              ∙ rate_limit-enqueue env.now g.id w.queue
              ∙ open_limit),
      )
