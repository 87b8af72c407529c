-- ===== src/Queue/Tests.antt =====
-- The queue on one message, with a server that is busy and one that answers nothing.
use delivery_api.Base.{ℕ, ◌≡◌, ◌≤◌, refl, false, none, some, List, [], ◌∷◌, Str, codes}
use delivery_api.Models.{MessageStatus, queued, sent, Message}
use delivery_api.Db.{Store}
use delivery_api.Listed.{list_db, list_table-IsLive}
use delivery_api.Models.{message_model}
use delivery_api.Smtp.Sender.{SendError, smtp, Answers, Network}
use delivery_api.Smtp.Message.{Mime, Draw}
use delivery_api.Queue.{Env, attempted, Queue, Worker, process, rate_limit}
use delivery_api.Queue.Outcomes.{message_at, IsSettled, process-IsSettled}
use delivery_api.Queue.Attempts.{attempts, attempts-le-four}

abbrev pub letter : ℕ → MessageStatus → Message
letter id status = record {
  id = id;
  external_id = codes "m";
  user_id = codes "u";
  domain_id = 1;
  api_key_id = 1;
  from_email = codes "a@b.c";
  from_name = [];
  to_email = codes "x@y.z";
  subject = codes "hi";
  html_body = some (codes "From: a");
  text_body = none;
  headers = none;
  template_id = none;
  tags = none;
  attachments = none;
  status = status;
  retries = 0;
  next_retry_at = none;
  error = none;
  sent_at = none;
  created_at = 0;
}

abbrev pub messages : List Message
messages = letter 1 queued ∷ letter 2 sent ∷ []

abbrev pub store : Store list_db
store = record {
  messages = messages;
  events = [];
  domains = [];
  keys = [];
  suppressions = [];
  notifications = [];
}

abbrev pub empty_queue : Queue
empty_queue = record {
  pending = [];
  delayed = [];
  max_per_hour = 20;
  sent_count = 0;
  last_reset = 0;
}

abbrev pub worker : Worker list_db
worker = record { store = store; queue = empty_queue }

abbrev pub same_text : Str → Str
same_text s = s

abbrev pub mime : Mime
mime = record {
  q_encode = same_text;
  base64 = same_text;
  parse_address = λ s. none;
  drop_script_style = same_text;
  block_end_to_newline = same_text;
  br_to_newline = same_text;
  tag_to_space = same_text;
  squash_spaces = same_text;
  squash_newlines = same_text;
}

abbrev pub draw : Draw
draw = record {
  message_id = codes "ab";
  nanos = 5;
  date = codes "today";
  mixed = codes "m";
  alternative = codes "a";
}

abbrev pub busy : SendError
busy = smtp (record { code = 450; msg = codes "450 busy"; permanent = false })

abbrev pub env : Env
env = record {
  now = 1;
  done_at = 2;
  read_headers = λ s. [];
  read_attachments = λ s. none;
  decode = λ s. none;
  mime = mime;
  draw = draw;
  send = λ from to raw. some busy;
}

-- No server can be reached.
abbrev pub silent : Answers
silent = record {
  dial = some (codes "timeout");
  client = none;
  hello = none;
  mail = none;
  rcpt = none;
  payload = none;
  write = none;
  close = none;
  quit = none;
}

pub empty_queue-open : (rate_limit env.now empty_queue).1 ≡ false
unfolding rate_limit
empty_queue-open = refl

abbrev pub unreachable : Network
unreachable = record {
  sign = λ domain raw. none;
  lookup_mx = λ domain. none;
  answers = λ n t. silent;
}

process-IsSettled_example :
    ((process list_db env 1 worker).1 ≡ attempted (some busy))
    × ((m : Message) × (message_at list_db 1 (process list_db env 1 worker).0 ≡ some m)
        × IsSettled 2 (letter 1 queued) m (some busy))
unfolding rate_limit
process-IsSettled_example =
    process-IsSettled list_db (list_table-IsLive message_model) env 1 worker (letter 1 queued) refl
      refl refl

attempts-le-four_example : attempts list_db 1 ((env, 1) ∷ (env, 1) ∷ []) worker ≤ 4
attempts-le-four_example =
    attempts-le-four list_db (list_table-IsLive message_model) 1 ((env, 1) ∷ (env, 1) ∷ []) worker
