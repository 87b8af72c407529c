-- ===== src/Queue/Delivery.antt =====
-- The worker with the sender of the same program.
use delivery_api.Base.{
  ℕ, ◌<◌, ◌≡◌, ◌≢◌, ◌↔◌, ◌∙◌, ==_iff, List, [], ◌∷◌, ◌++◌, All, find_where, find_where-append,
  arith, refl, ◌⊎◌, inl, inr, false, Option, none, some, Option-cases, Bool-cases,
}
use delivery_api.Models.{sent, failed, Message}
use delivery_api.Db.{Database, IsLive}
use delivery_api.Smtp.Sender.{SmtpError, SendError, smtp, other, Network, send}
use delivery_api.Smtp.Sender.Attempts.{send-ne-smtp}
use delivery_api.Queue.{
  Queue, enqueue, Env, is_processed, raw_message, Worker, by_id, fail, settle, deliver, process,
  rate_limit,
}
use delivery_api.Queue.Outcomes.{
  message_at, IsSettled, accepted, deferred, refused, broken, process-IsSettled,
}

-- q.sender.Send, with what the network answers during this call.
abbrev pub with_sender : Network → Env → Env
with_sender net env = record env { send = send net }

-- Whether a message has to wait does not depend on the ids that are pending.
pub rate_limit-enqueue :
    (now id : ℕ) (q : Queue) → (rate_limit now (enqueue id q)).1 ≡ (rate_limit now q).1
unfolding rate_limit enqueue
rate_limit-enqueue now id q = ground arith

module _ (db : Database) where
  settle-suppressions :
      (at : ℕ) (m : Message) (r : Option SendError) (w : Worker db)
      → ((e : SmtpError) → r ≢ some (smtp e))
      → (settle db at m r w).store.suppressions ≡ w.store.suppressions
  unfolding settle fail
  settle-suppressions at m none w plain = refl
  settle-suppressions at m (some (other text)) w plain = refl
  settle-suppressions at m (some (smtp e)) w plain = absurd (plain e refl)

  deliver-suppressions :
      (env : Env) (m : Message) (w : Worker db)
      → ((e : SmtpError) → env.send m.from_email m.to_email (raw_message env m) ≢ some (smtp e))
      → (deliver db env m w).0.store.suppressions ≡ w.store.suppressions
  unfolding deliver
  deliver-suppressions env m w plain = elim (Bool-cases (is_processed m.status)) [
    | inl old ↦ rw old
    | inr new ↦ rw new (settle-suppressions env.done_at m _ _ plain)
  ]

  -- With the sender of the program no call ever adds a suppression, whatever the servers answer.
  pub process-suppressions :
      (net : Network) (env : Env) (id : ℕ) (w : Worker db)
      → (process db (with_sender net env) id w).0.store.suppressions ≡ w.store.suppressions
  unfolding process
  process-suppressions net env id w = elim (Bool-cases (rate_limit env.now w.queue).1) [
    | inl wait ↦ rw wait
    | inr free ↦ elim (Option-cases (db.messages.first (by_id db id) w.store.messages)) [
      | inl gone ↦ rw (free, gone)
      | inr (m, here) ↦
          rw (free, here) (deliver-suppressions (with_sender net env) m _ (send-ne-smtp net _ _ _))
    ]
  ]

  -- What the sender of the program answers is what becomes of the message.
  IsSettled-sent_iff :
      (at : ℕ) (m m' : Message) (r : Option SendError)
      → ((e : SmtpError) → r ≢ some (smtp e))
      → IsSettled at m m' r
      → ((m'.status ≡ sent) ⊎ (m'.status ≡ failed)) × ((m'.status ≡ sent) ↔ (r ≡ none))
  IsSettled-sent_iff at m m' r plain (accepted s _ _) = (inl s, (λ e. refl, λ e. s))
  IsSettled-sent_iff at m m' r plain (broken text s _ _) = (inr s, (λ e. cc, λ e. cc))
  IsSettled-sent_iff at m m' r plain (deferred e _ _ _ _ _) = absurd (plain e refl)
  IsSettled-sent_iff at m m' r plain (refused e _ _ _ _) = absurd (plain e refl)

  -- In a database none of whose calls fails, a call that finds the message unprocessed and the rate
  -- limit open settles it for good with the sender of the program: it is sent if the sender reports
  -- no error, and failed if it does, also when the server's refusal was temporary.
  pub process_final :
      (live : IsLive db.messages) (net : Network) (env : Env) (id : ℕ) (w : Worker db) (m : Message)
      → message_at db id w ≡ some m
      → is_processed m.status ≡ false
      → (rate_limit env.now w.queue).1 ≡ false
      → (m' : Message) × (message_at db id (process db (with_sender net env) id w).0 ≡ some m')
        × ((m'.status ≡ sent) ⊎ (m'.status ≡ failed))
        × ((m'.status ≡ sent)
            ↔ (send net m.from_email m.to_email (raw_message (with_sender net env) m) ≡ none))
  process_final live net env id w m here new free =
      let (_, (m', found, settled)) =
        process-IsSettled db live (with_sender net env) id w m here new free in
      let (final, sent_iff) =
        IsSettled-sent_iff env.done_at m m' _ (send-ne-smtp net _ _ _) settled in
      (m', found, final, sent_iff)

  missing-below :
      (id : ℕ) (rows : List Message)
      → All (λ old. old.id < id) rows
      → find_where (by_id db id) rows ≡ none
  missing-below id [] h = refl
  missing-below id (m ∷ rows) (below, h) = ground (arith, missing-below id rows)

  -- A row is found by its id when the rows before it have smaller ids.
  pub find_where-by_id :
      (m : Message) (before after : List Message)
      → All (λ old. old.id < m.id) before
      → find_where (by_id db m.id) (before ++ m ∷ after) ≡ some m
  find_where-by_id m before after below =
      find_where-append (by_id db m.id) before (m ∷ after) (missing-below m.id before below)
      ∙ rw ((==_iff m.id m.id).1 refl) refl
