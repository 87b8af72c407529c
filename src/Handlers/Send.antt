-- ===== src/Handlers/Send.antt =====
-- internal/handlers/send.go. What a handler takes
-- from the outside (the decoded body, the caller, the drawn id, encoders) is an argument.
pub mod Request
pub mod Address
pub mod Attachments
pub mod Acceptance
pub mod Completion
pub mod Journey
pub mod Tests
unfoldable pub use Request.*
use delivery_api.Base.{
  ℕ, ◌*◌, Bool, true, false, ◌&&◌, ◌||◌, not, Option, none, some, List, [], ◌∷◌, ◌++◌, Str, codes,
  ltb, if◌then◌else◌, is_empty, str_eq, get_or,
}
use delivery_api.Models.{
  Message, MessageStatus, MessageEvent, EventType, SendingDomain, DomainStatus, Suppression,
}
use delivery_api.Db.{Database}
use delivery_api.Queue.{Worker, enqueue}
use delivery_api.Handlers.Reply.{Reply, reply, error}
use delivery_api.Handlers.Layout.{apply_layout}

-- What a call takes from outside: Cfg.SharedSendingDomain ("" if there is no configuration), the
-- caller, uuid.New, and the decoder and encoders.
pub record SendEnv : Type 0 where
  pub shared : Str
  pub user_id : Str
  pub api_key_id : ℕ
  pub uuid : Str
  pub decode : Str → Option Str
  pub marshal_headers : List (Str × Str) → Str
  pub marshal_attachments : List SendAttachment → Str

abbrev headers_column : SendEnv → List (Str × Str) → Option Str
headers_column env [] = none
headers_column env (h ∷ hs) = some (env.marshal_headers (h ∷ hs))

abbrev attachments_column : SendEnv → List SendAttachment → Option Str
attachments_column env [] = none
attachments_column env (a ∷ rest) = some (env.marshal_attachments (a ∷ rest))

abbrev pub shared_from : Str → Str
shared_from shared = codes "Construct <noreply@" ++ shared ++ codes ">"

-- The row that SendEmail creates.
pub new_message : SendEnv → SendRequest → SendingDomain → Message
unfolding parse_from
new_message env req domain =
    let sender = parse_from (shared_from env.shared) in
    record {
      id = 0;
      external_id = env.uuid;
      user_id = env.user_id;
      domain_id = domain.id;
      api_key_id = env.api_key_id;
      from_email = sender.0;
      from_name = sender.1;
      to_email = req.to;
      subject = req.subject;
      html_body = nil_if_empty (apply_layout req.layout req.space req.subject req.html);
      text_body = nil_if_empty req.text;
      headers = headers_column env req.headers;
      template_id = none;
      tags = tags_column req.tags;
      attachments = attachments_column env req.attachments;
      status = MessageStatus.queued;
      retries = 0;
      next_retry_at = none;
      error = none;
      sent_at = none;
      created_at = 0;
    }

abbrev pub is_verified : DomainStatus → Bool
is_verified DomainStatus.verified = true
is_verified _ = false

-- The answer for an accepted message: its id, and its time from SendEmail alone.
pub record Accepted : Type 0 where
  pub id : Str
  pub created_at : Option ℕ

module _ (db : Database) where
  abbrev pub verified_domain : Str → SendingDomain → Bool
  verified_domain name d = str_eq d.domain name && is_verified d.status

  abbrev pub suppressed : Str → Str → Suppression → Bool
  suppressed user email s = str_eq s.user_id user && str_eq s.email email

  abbrev queued_event : ℕ → MessageEvent
  queued_event id = record {
    id = 0;
    message_id = id;
    type = EventType.queued;
    payload = none;
    created_at = 0;
  }

  -- From the creation of the row on; a request from another service gets no event.
  pub create_message : Bool → Message → Worker db → Worker db × Reply Accepted
  create_message with_event m w =
      let made = db.messages.create m w.store.messages in
      elim made.1 [
        | none ↦ (
          record w { store = record (w.store) { messages = made.0 } },
          error 500 (codes "failed to create message"),
        )
        | some row ↦ (
          record w {
            store = record (w.store) {
              messages = made.0;
              events =
                  if with_event
                  then (db.events.create (queued_event row.id) w.store.events).0
                  else w.store.events;
            };
            queue = enqueue row.id w.queue;
          },
          reply 202 (record {
            id = row.external_id;
            created_at = if with_event then some row.created_at else none;
          }),
        )
      ]

  -- SendEmail; a body that cannot be decoded is `none`.
  pub send_email : SendEnv → Option SendRequest → Worker db → Worker db × Reply Accepted
  unfolding validate new_message create_message
  send_email env none w = (w, error 400 (codes "invalid request body"))
  send_email env (some req) w = elim (validate env.decode req) [
    | some text ↦ (w, error 400 text)
    | none ↦
        if is_empty env.shared
        then (w, error 503 (codes "shared sending domain not configured"))
        else elim (db.domains.first (verified_domain env.shared) w.store.domains) [
          | none ↦ (w, error 503 (codes "shared sending domain not configured: " ++ env.shared))
          | some domain ↦
              if ltb 0 (
                get_or (db.suppressions.count (suppressed env.user_id req.to) w.store.suppressions)
                  0)
              then (w, error 400 (codes "recipient is suppressed (previous bounce or complaint)"))
              else create_message true (new_message env req domain) w
        ]
  ]

-- The decoded body of ServiceSend. Template and Data, which it does not read, are left out.
pub record ServiceRequest : Type 0 where
  pub from : Str
  pub to : Str
  pub subject : Str
  pub html : Str
  pub text : Str
  pub tags : List Str

abbrev pub sender_of : ServiceRequest → Str
sender_of req = if is_empty req.from then codes "Construct <noreply@lisaos.dev>" else req.from

pub service_message : Str → ServiceRequest → SendingDomain → Message
unfolding parse_from
service_message uuid req domain =
    let sender = parse_from (sender_of req) in
    record {
      id = 0;
      external_id = uuid;
      user_id = domain.user_id;
      domain_id = domain.id;
      api_key_id = 0;
      from_email = sender.0;
      from_name = sender.1;
      to_email = req.to;
      subject = req.subject;
      html_body = nil_if_empty req.html;
      text_body = nil_if_empty req.text;
      headers = none;
      template_id = none;
      tags = tags_column req.tags;
      attachments = none;
      status = MessageStatus.queued;
      retries = 0;
      next_retry_at = none;
      error = none;
      sent_at = none;
      created_at = 0;
    }

module _ (db : Database) where
  -- ServiceSend, with the drawn id; a body that cannot be decoded is `none`.
  pub service_send : Str → Option ServiceRequest → Worker db → Worker db × Reply Accepted
  unfolding extract_domain service_message create_message
  service_send uuid none w = (w, error 400 (codes "invalid request body"))
  service_send uuid (some req) w =
      if is_empty req.to || is_empty req.subject
      then (w, error 400 (codes "to and subject are required"))
      else (let from_domain = extract_domain (sender_of req) in
          elim (db.domains.first (verified_domain db from_domain) w.store.domains) [
            | none ↦ (w, error 400 (codes "sending domain not configured: " ++ from_domain))
            | some domain ↦ create_message db false (service_message uuid req domain) w
          ])
