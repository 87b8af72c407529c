-- ===== src/Handlers/Send/Tests.antt =====
-- The sending handlers on one request.
use delivery_api.Base.{
  true, false, ◌≡◌, ◌↔◌, ◌⊎◌, refl, inl, some, none, [], ◌∷◌, codes, arith, str_eq,
}
use delivery_api.Models.{message_model, domain_model, suppression_model}
use delivery_api.Listed.{list_db, list_table-IsLive}
use delivery_api.Queue.{Worker, raw_message}
use delivery_api.Queue.Tests.{store, empty_queue, empty_queue-open, env, unreachable}
use delivery_api.Smtp.Dkim.Tests.{sending_domain}
use delivery_api.Handlers.Reply.{reply}
use delivery_api.Handlers.Send.{
  SendRequest, SendAttachment, SendEnv, ServiceRequest, validate, new_message, send_email,
  service_send,
}
use delivery_api.Models.{Generated, Message, sent, failed}
use delivery_api.Smtp.Sender.{send}
use delivery_api.Queue.{enqueue, process}
use delivery_api.Queue.Outcomes.{message_at}
use delivery_api.Queue.Delivery.{with_sender}
use delivery_api.Handlers.Send.Journey.{send_email-process}
use delivery_api.Handlers.Send.Attachments.{IsAcceptable, validate_iff}
use delivery_api.Handlers.Send.Acceptance.{
  IsAnswer, IsPermitted, IsServed, send_email-IsAnswer, service_send-IsAnswer,
}

abbrev senv : SendEnv
senv = record {
  shared = codes "b.c";
  user_id = codes "u";
  api_key_id = 1;
  uuid = codes "id";
  decode = λ s. some s;
  marshal_headers = λ hs. codes "{}";
  marshal_attachments = λ atts. codes "[]";
}

abbrev attached : SendAttachment
attached = record { filename = codes "f"; content_type = []; content = codes "data" }

abbrev request : SendRequest
request = record {
  from = codes "boss@bank";
  to = codes "x@y.z";
  subject = codes "hi";
  html = codes "From: boss";
  text = [];
  headers = [];
  tags = codes "t" ∷ codes "v" ∷ [];
  layout = codes "none";
  space = [];
  attachments = attached ∷ [];
}

abbrev ready : Worker list_db
ready = record { store = record store { domains = sending_domain ∷ [] }; queue = empty_queue }

abbrev service_request : ServiceRequest
service_request = record {
  from = codes "A <a@b.c>";
  to = codes "x@y.z";
  subject = codes "hi";
  html = [];
  text = codes "hi";
  tags = [];
}

validate_iff_example : (validate senv.decode request ≡ none) ↔ IsAcceptable senv.decode request
validate_iff_example = validate_iff senv.decode request

send_email-IsAnswer_example :
    IsAnswer list_db true
      (IsPermitted list_db senv (some request) ready)
      ready
      (send_email list_db senv (some request) ready)
send_email-IsAnswer_example = send_email-IsAnswer list_db senv (some request) ready

service_send-IsAnswer_example :
    IsAnswer list_db false
      (IsServed list_db (codes "id") (some service_request))
      ready
      (service_send list_db (codes "id") (some service_request) ready)
service_send-IsAnswer_example =
    service_send-IsAnswer list_db (codes "id") (some service_request) ready

request-IsAcceptable : IsAcceptable senv.decode request
request-IsAcceptable = record {
  recipient = λ e. cc;
  subject = λ e. cc;
  body = inl (λ e. cc);
  few = omega arith;
  usable = ((λ e. cc, λ e. cc, omega arith), tt);
  fits = omega arith;
}

abbrev text_only : SendRequest
text_only = record request { html = []; text = codes "hi"; layout = [] }

send_email-process_example :
    let w' = (send_email list_db senv (some request) ready).0 in
    (g : Generated) × ((send_email list_db senv (some request) ready).1
      ≡ reply 202 (record { id = codes "id"; created_at = some g.created_at }))
    × (w'.queue ≡ enqueue g.id ready.queue)
    × (let m = message_model.fill g (new_message senv request sending_domain) in
        (m' : Message) × (message_at list_db g.id
            (process list_db (with_sender unreachable env) g.id w').0
          ≡ some m')
        × ((m'.status ≡ sent) ⊎ (m'.status ≡ failed))
        × ((m'.status ≡ sent) ↔ (
            send unreachable m.from_email request.to (raw_message (with_sender unreachable env) m)
            ≡ none)))
unfolding str_eq
send_email-process_example =
    send_email-process list_db (list_table-IsLive message_model) (list_table-IsLive domain_model)
      (list_table-IsLive suppression_model) senv request ready sending_domain request-IsAcceptable
      (λ e. cc) refl refl unreachable env empty_queue-open
