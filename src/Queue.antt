-- ===== src/Queue.antt =====
-- internal/queue/worker.go. The channel is the list of its message ids, those of blocked senders
-- behind them; `delayed` holds the ids whose goroutines sleep a minute before they send them back.
-- A call of `process` runs as a whole; its environment says what its calls of the clock, the
-- decoders and the network return. The row of the domain, which it reads and does not use, is left
-- out.
pub mod Outcomes
pub mod Attempts
pub mod Recovery
pub mod Delivery
pub mod Raw
pub mod Tests
use mathlib.Core.Option
use delivery_api.Base.{
  ℕ, ◌+◌, ◌-◌, ◌*◌, ◌^◌, Bool, true, false, ◌&&◌, ◌||◌, not, Option, none, some, List, [], ◌∷◌,
  ◌++◌, map, Str, codes, ltb, leb, ◌==◌, if◌then◌else◌, get_or, is_empty, has_prefix, select, take,
  length,
}
use delivery_api.Models.{
  MessageStatus, queued, sending, sent, delivered, failed, Message, EventType, MessageEvent, Reason,
  Suppression,
}
use delivery_api.Db.{Database, Store}
use delivery_api.Smtp.Sender.{SmtpError, SendError, smtp, other, error_text}
use delivery_api.Smtp.Message.{Attachment, Mime, Draw, build_message}

-- Nanoseconds, as in time.Duration.
abbrev pub minute : ℕ
minute = 60 * 10 ^ 9

abbrev pub hour : ℕ
hour = 60 * minute

pub record Queue : Type 0 where
  pub pending : List ℕ
  pub delayed : List ℕ
  pub max_per_hour : ℕ
  pub sent_count : ℕ
  pub last_reset : ℕ

-- New
pub new : ℕ → ℕ → Queue
new max_per_hour now = record {
  pending = [];
  delayed = [];
  max_per_hour = max_per_hour;
  sent_count = 0;
  last_reset = now;
}

unfoldable pub enqueue : ℕ → Queue → Queue
enqueue id q = record q { pending = q.pending ++ id ∷ [] }

-- Stats. The channel holds 10000 ids; those behind them are of blocked senders.
pub record Stats : Type 0 where
  pub pending : ℕ
  pub sent_this_hour : ℕ
  pub max_per_hour : ℕ

pub stats : Queue → Stats
stats q = record {
  pending = if leb 10000 (length q.pending) then 10000 else length q.pending;
  sent_this_hour = q.sent_count;
  max_per_hour = q.max_per_hour;
}

-- An attachment as it is stored: the content in base64.
pub record StoredAttachment : Type 0 where
  pub filename : Str
  pub content_type : Str
  pub content : Str

-- What a call of `process` takes from outside the package.
pub record Env : Type 0 where
  -- time.Now() at the rate limit and after the send
  pub now : ℕ
  pub done_at : ℕ
  -- json.Unmarshal: of the headers, what the map then holds; of the attachments, `none` on an error
  pub read_headers : Str → List (Str × Str)
  pub read_attachments : Str → Option (List StoredAttachment)
  -- base64.StdEncoding.DecodeString
  pub decode : Str → Option Str
  pub mime : Mime
  pub draw : Draw
  -- q.sender.Send
  pub send : Str → Str → Str → Option SendError

-- The rate limit: the queue, with a new window if the last is over an hour old, and whether the
-- message has to wait.
pub rate_limit : ℕ → Queue → Queue × Bool
rate_limit now q =
    if ltb 0 q.max_per_hour
    then (let q' =
          if ltb hour (now - q.last_reset)
          then record q { sent_count = 0; last_reset = now }
          else q in
        (q', leb q'.max_per_hour q'.sent_count))
    else (q, false)

abbrev pub is_processed : MessageStatus → Bool
is_processed sent = true
is_processed delivered = true
is_processed failed = true
is_processed _ = false

-- The loop over the stored attachments; one that cannot be decoded is dropped.
decode_attachments : (Str → Option Str) → List StoredAttachment → List Attachment
decode_attachments decode [] = []
decode_attachments decode (a ∷ rest) =
    let more = decode_attachments decode rest in
    elim (decode a.content) [
      | none ↦ more
      | some bytes ↦
          record { filename = a.filename; content_type = a.content_type; content = bytes } ∷ more
    ]

stored_attachments : Env → Option Str → List Attachment
unfolding decode_attachments
stored_attachments env none = []
stored_attachments env (some text) =
    if is_empty text then [] else elim (env.read_attachments text) [
      | none ↦ []
      | some stored ↦ decode_attachments env.decode stored
    ]

-- A body that starts like a header is taken for a whole message from the relay.
pub is_raw : Str → Bool
is_raw html =
    not (is_empty html)
    && (has_prefix html (codes "From:")
        || has_prefix html (codes "DKIM-")
        || has_prefix html (codes "Received:")
        || has_prefix html (codes "MIME-Version:"))

pub raw_message : Env → Message → Str
unfolding stored_attachments
raw_message env m =
    let html = get_or m.html_body [] in
    if is_raw html
    then html
    else build_message env.mime env.draw m.from_email m.from_name m.to_email m.subject html
        (get_or m.text_body []) (get_or (Option.map env.read_headers m.headers) [])
        (stored_attachments env m.attachments)

-- The delay before the next try: 5 minutes, doubled by every retry.
abbrev pub backoff : ℕ → ℕ
backoff retries = 2 ^ retries * 5 * minute

-- The assignments of Updates on each way out.
abbrev pub mark_sent : ℕ → Message → Message
mark_sent at m = record m { status = sent; sent_at = some at }

abbrev pub mark_deferred : ℕ → ℕ → SmtpError → Message → Message
mark_deferred retries at e m = record m {
  status = queued;
  retries = retries + 1;
  next_retry_at = some (at + backoff retries);
  error = some (error_text (smtp e));
}

abbrev pub mark_failed : SendError → Message → Message
mark_failed e m = record m { status = failed; error = some (error_text e) }

-- Where a call of `process` returned.
pub data Outcome : Type 0 where
  limited missing already_processed : Outcome
  attempted : Option SendError → Outcome

module _ (db : Database) where
  -- The tables and the queue that a worker shares with the rest of the program.
  pub record Worker : Type 0 where
    pub store : Store db
    pub queue : Queue

  abbrev with_messages : db.messages.State → Worker → Worker
  with_messages s w = record w { store = record (w.store) { messages = s } }

  abbrev pub by_id : ℕ → Message → Bool
  by_id id m = m.id == id

  -- Model(&msg).Updates
  abbrev update_message : ℕ → (Message → Message) → Worker → Worker
  update_message id f w = with_messages (db.messages.update (by_id id) f w.store.messages).0 w

  abbrev new_event : ℕ → EventType → Option Str → MessageEvent
  new_event id type payload = record {
    id = 0;
    message_id = id;
    type = type;
    payload = payload;
    created_at = 0;
  }

  -- addEvent
  add_event : ℕ → EventType → Option Str → Worker → Worker
  add_event id type payload w = record w {
    store = record (w.store) {
      events = (db.events.create (new_event id type payload) w.store.events).0;
    };
  }

  abbrev bounce : Message → SmtpError → Suppression
  bounce m e = record {
    id = 0;
    user_id = m.user_id;
    email = m.to_email;
    reason = Reason.bounce;
    source = error_text (smtp e);
    created_at = 0;
  }

  add_suppression : Suppression → Worker → Worker
  add_suppression s w = record w {
    store = record (w.store) { suppressions = (db.suppressions.create s w.store.suppressions).0 };
  }

  -- The permanent failure; a bounce also goes to the suppression list.
  fail : Message → SendError → Worker → Worker
  unfolding add_event add_suppression
  fail m e w =
      let text = some (error_text e) in
      let w' = add_event m.id EventType.failed text (update_message m.id (mark_failed e) w) in
      elim e [
        | other _ ↦ w'
        | smtp x ↦
            if x.permanent
            then add_event m.id EventType.bounced text (add_suppression (bounce m x) w')
            else w'
      ]

  -- What follows the send.
  settle : ℕ → Message → Option SendError → Worker → Worker
  unfolding add_event fail
  settle at m none w =
      let w' = add_event m.id EventType.sent none (update_message m.id (mark_sent at) w) in
      record w' { queue = record (w'.queue) { sent_count = w'.queue.sent_count + 1 } }
  settle at m (some (smtp e)) w =
      if not e.permanent && ltb m.retries 3
      then add_event m.id EventType.deferred (some (error_text (smtp e)))
          (update_message m.id (mark_deferred m.retries at e) w)
      else fail m (smtp e) w
  settle at m (some (other text)) w = fail m (other text) w

  -- From the status check on, with the row that was read.
  pub deliver : Env → Message → Worker → Worker × Outcome
  unfolding settle raw_message is_raw
  deliver env m w =
      if is_processed m.status
      then (w, already_processed)
      else (let w' = update_message m.id (λ r. record r { status = sending }) w in
          let result = env.send m.from_email m.to_email (raw_message env m) in
          (settle env.done_at m result w', attempted result))

  pub process : Env → ℕ → Worker → Worker × Outcome
  unfolding rate_limit deliver
  process env id w =
      let (q, wait) = rate_limit env.now w.queue in
      let w' = record w { queue = q } in
      if wait
      then (record w { queue = record q { delayed = q.delayed ++ id ∷ [] } }, limited)
      else elim (db.messages.first (by_id id) w'.store.messages) [
        | none ↦ (w', missing)
        | some m ↦ deliver env m w'
      ]
