-- ===== src/Smtp/Relay.antt =====
-- internal/smtp/relay.go: a session of the submission server. What a verb takes from outside the
-- package (the hash of a key, the clock, new ids) is an argument.
pub mod Access
pub mod Submission
pub mod Journey
pub mod Tests
use delivery_api.Base.{
  ℕ, ◌+◌, Bool, true, false, ◌&&◌, ◌||◌, not, Option, none, some, List, [], ◌∷◌, ◌++◌, Str, codes,
  ltb, ◌==◌, if◌then◌else◌, is_empty, str_eq, to_lower, has_prefix, trim_space, last_index, drop,
  length,
}
use delivery_api.Models.{
  Message, MessageStatus, MessageEvent, EventType, SendingDomain, DomainStatus, ApiKey,
}
use delivery_api.Db.{Database, Store}
use delivery_api.Queue.{Queue, enqueue}

pub record Session : Type 0 where
  pub authenticated : Bool
  pub user_id : Str
  pub api_key_id : ℕ
  pub from : Str
  pub to : List Str

-- NewSession
abbrev pub new_session : Session
new_session = record { authenticated = false; user_id = []; api_key_id = 0; from = []; to = [] }

pub data RelayError : Type 0 where
  auth_required unsupported_mechanism missing_key unreadable : RelayError
  reply : ℕ → Str → RelayError

-- The callback takes the key from either position.
credential : Str → Str → Str
credential username password =
    if not (str_eq (to_lower username) (codes "apikey"))
      && not (str_eq (to_lower username) (codes "api"))
    then username
    else password

-- ExpiresAt.Before(now), false for a key with no expiry
abbrev pub is_expired : ℕ → ApiKey → Bool
is_expired now k = elim k.expires_at [ none ↦ false | some at ↦ ltb at now ]

-- The loop over the lines, up to the first empty one. `found` is the text behind the name.
find_header : Str → List Str → Str
find_header name [] = []
find_header name (line ∷ lines) =
    let rest = find_header name lines in
    if has_prefix (to_lower line) (to_lower name ++ codes ":")
    then trim_space (drop (length name + 1) line)
    else if is_empty line || str_eq line (13 ∷ [])
    then []
    else rest

-- strings.Split(s, "\n"), with the bytes of the current line
split_lines : Str → Str → List Str
split_lines cur [] = cur ∷ []
split_lines cur (c ∷ s) =
    let same = split_lines (cur ++ c ∷ []) s in
    let next = split_lines [] s in if c == 10 then cur ∷ next else same

pub extract_header : Str → Str → Str
unfolding find_header split_lines
extract_header text name = find_header name (split_lines [] text)

abbrev pub domain_of : Str → Str
domain_of from = elim (last_index from b'@') [ none ↦ from | some i ↦ drop (i + 1) from ]

module _ (db : Database) where
  pub record Relay : Type 0 where
    pub session : Session
    pub store : Store db
    pub queue : Queue

  abbrev pub key_hashed : Str → ApiKey → Bool
  key_hashed hash k = str_eq k.key_hash hash

  abbrev key_numbered : ℕ → ApiKey → Bool
  key_numbered id k = k.id == id

  abbrev sign_in : ℕ → ApiKey → Relay → Relay
  sign_in now key r = record r {
    session = record (r.session) {
      authenticated = true;
      user_id = key.user_id;
      api_key_id = key.id;
    };
    store = record (r.store) {
      keys =
          (db.keys.update (key_numbered key.id) (λ k. record k { last_used_at = some now })
            r.store.keys).0;
    };
  }

  -- Auth with the callback of NewPlainServer; `hash` is HashAPIKey.
  pub auth : (Str → Str) → ℕ → Bool → Str → Str → Relay → Relay × Option RelayError
  unfolding credential
  auth hash now plain username password r =
      if not plain
      then (r, some unsupported_mechanism)
      else (let key = credential username password in
          if is_empty key
          then (r, some missing_key)
          else elim (db.keys.first (key_hashed (hash key)) r.store.keys) [
            | none ↦ (r, some (reply 535 (codes "Invalid API key")))
            | some found ↦
                if is_expired now found
                then (r, some (reply 535 (codes "API key expired")))
                else (sign_in now found r, none)
          ])

  pub mail : Str → Relay → Relay × Option RelayError
  mail from r =
      if r.session.authenticated
      then (record r { session = record (r.session) { from = from } }, none)
      else (r, some auth_required)

  pub rcpt : Str → Relay → Relay × Option RelayError
  rcpt to r =
      if r.session.authenticated
      then (record r { session = record (r.session) { to = r.session.to ++ to ∷ [] } }, none)
      else (r, some auth_required)

  abbrev pub usable_domain : Str → Str → SendingDomain → Bool
  usable_domain name user d =
      str_eq d.domain name
      && (str_eq d.user_id user && elim d.status [ DomainStatus.verified ↦ true | _ ↦ false ])

  -- The row for one recipient.
  abbrev pub relayed : Session → SendingDomain → Str → Str → Str → Str → Message
  relayed s domain subject raw uuid to = record {
    id = 0;
    external_id = uuid;
    user_id = s.user_id;
    domain_id = domain.id;
    api_key_id = s.api_key_id;
    from_email = s.from;
    from_name = [];
    to_email = to;
    subject = subject;
    html_body = some raw;
    text_body = none;
    headers = none;
    template_id = none;
    tags = none;
    attachments = none;
    status = MessageStatus.queued;
    retries = 0;
    next_retry_at = none;
    error = none;
    sent_at = none;
    created_at = 0;
  }

  abbrev queued_event : ℕ → MessageEvent
  queued_event id = record {
    id = 0;
    message_id = id;
    type = EventType.queued;
    payload = none;
    created_at = 0;
  }

  abbrev queue_row : db.messages.State → Message → Relay → Relay
  queue_row messages row r = record r {
    store = record (r.store) {
      messages = messages;
      events = (db.events.create (queued_event row.id) r.store.events).0;
    };
    queue = enqueue row.id r.queue;
  }

  -- The loop over the recipients; `uuids` gives the id of the n-th. The first row that cannot be
  -- created ends it, with the rows before it queued.
  pub queue_all :
      SendingDomain → Str → Str → (ℕ → Str) → ℕ → List Str → Relay → Relay × Option RelayError
  queue_all domain subject raw uuids n [] r = (r, none)
  queue_all domain subject raw uuids n (to ∷ rest) r =
      let made =
        db.messages.create (relayed r.session domain subject raw (uuids n) to) r.store.messages in
      elim made.1 [
        | none ↦ (
          record r { store = record (r.store) { messages = made.0 } },
          some (reply 451 (codes "Failed to queue")),
        )
        | some row ↦ queue_all domain subject raw uuids (n + 1) rest (queue_row made.0 row r)
      ]

  -- `body` is what io.ReadAll reads; an error is `none`.
  pub submit : Option Str → (ℕ → Str) → Relay → Relay × Option RelayError
  unfolding extract_header queue_all
  submit body uuids r = if not r.session.authenticated then (r, some auth_required) else elim body [
    | none ↦ (r, some unreadable)
    | some raw ↦
        let name = domain_of r.session.from in
        elim (db.domains.first (usable_domain name r.session.user_id) r.store.domains) [
          | none ↦
              (r, some (reply 550 (codes "Sending domain not verified for this account: " ++ name)))
          | some domain ↦
              queue_all domain (extract_header raw (codes "Subject")) raw uuids 0 r.session.to r
        ]
  ]

  pub reset : Relay → Relay
  reset r = record r { session = record (r.session) { from = []; to = [] } }
