-- ===== src/Smtp/Relay/Tests.antt =====
-- A session of the relay: a client that signs in and sends to two recipients.
use delivery_api.Base.{
  ◌≡◌, refl, List, ◌++◌, map, All, str_eq, has_prefix, last_index, ◌≢◌, ◌⊎◌, true, none, some, [],
  ◌∷◌, Str, codes, decimal,
}
use delivery_api.Models.{Message, message_model, domain_model, ApiKey, SendingDomain, verified}
use delivery_api.Db.{Store}
use delivery_api.Listed.{list_db, list_table-IsLive}
use delivery_api.Queue.Tests.{store, empty_queue, same_text, unreachable, env, empty_queue-open}
use delivery_api.Queue.Raw.{is_raw-from}
use delivery_api.Smtp.Relay.Journey.{IsDelivered, submit-process}
use delivery_api.Smtp.Dkim.Tests.{sending_domain}
use delivery_api.Smtp.Relay.{Session, new_session, Relay, domain_of, submit}
use delivery_api.Smtp.Relay.Access.{
  Verb, auths, step, connected, did, tried, IsSound, Reach-IsSound,
}
use delivery_api.Smtp.Relay.Submission.{Queues, submit-Queues}

abbrev key : ApiKey
key = record {
  id = 1;
  user_id = codes "u";
  name = codes "k";
  key_hash = codes "h";
  key_prefix = codes "h";
  domain_id = none;
  scopes = codes "send";
  last_used_at = none;
  expires_at = none;
  created_at = 0;
}

abbrev stocked : Store list_db
stocked = record store { keys = key ∷ []; domains = sending_domain ∷ [] }

abbrev start_of : Session → Relay list_db
start_of s = record { session = s; store = stocked; queue = empty_queue }

abbrev signed_in : Session
signed_in = record {
  authenticated = true;
  user_id = codes "u";
  api_key_id = 1;
  from = codes "a@b.c";
  to = codes "x@y.z" ∷ codes "w@y.z" ∷ [];
}

abbrev sign_in : Verb
sign_in = auths 5 true (codes "apikey") (codes "h")

Reach-IsSound_example :
    IsSound list_db same_text
      (tried list_db same_text sign_in (start_of new_session) [])
      (step list_db same_text sign_in (start_of new_session)).0.session
Reach-IsSound_example =
    Reach-IsSound list_db same_text (tried list_db same_text sign_in (start_of new_session) [])
      (step list_db same_text sign_in (start_of new_session)).0
      (did [] (start_of new_session) sign_in (connected stocked empty_queue))

submit-Queues_example :
    let done = submit list_db (some (codes "Subject: hi")) decimal (start_of signed_in) in
    (done.0 ≡ start_of signed_in) × (done.1 ≢ none)
    ⊎ ((raw : Str) × (d : SendingDomain) × (some (codes "Subject: hi") ≡ some raw)
        × (true ≡ true)
        × (d.domain ≡ domain_of signed_in.from)
        × (d.user_id ≡ signed_in.user_id)
        × (d.status ≡ verified)
        × Queues list_db d raw signed_in.to (start_of signed_in) done)
submit-Queues_example =
    submit-Queues list_db (some (codes "Subject: hi")) decimal (start_of signed_in)

abbrev letter : Str
letter = codes "From: a@b.c"

submit-process_example :
    let (r, err) = submit list_db (some letter) decimal (start_of signed_in) in
    (err ≡ none)
    × ((made : List Message) × (map (λ m. m.to_email) made ≡ signed_in.to)
        × (r.queue.pending ≡ empty_queue.pending ++ map (λ m. m.id) made)
        × All
            (IsDelivered list_db
              (list_table-IsLive message_model)
              unreachable
              env
              (record { store = r.store; queue = r.queue })
              signed_in.from
              letter)
            made)
unfolding str_eq has_prefix last_index
submit-process_example =
    submit-process list_db (list_table-IsLive message_model) (list_table-IsLive domain_model) letter
      decimal (start_of signed_in) sending_domain unreachable env refl refl
      (is_raw-from letter refl) empty_queue-open
