-- ===== src/Queue/Outcomes.antt =====
-- What a call of `process` leaves behind, in a database none of whose calls fails.
use mathlib.Core.Option
use delivery_api.Base.{
  ◌≢◌, ◌∙◌, Option-cases, ◌≤◌, ◌⊎◌, ℕ, ◌+◌, ◌^◌, ◌*◌, ◌<◌, ◌≡◌, ◌≢◌, refl, inl, inr, true, false,
  not, ◌&&◌, ltb, Option, none, some, Str, arith, ◌==◌, ==_iff, if◌then◌else◌, Bool-cases,
  find_where, find_where_sound, find_where-update_where, find_where-update_other,
}
use delivery_api.Models.{queued, sending, sent, failed, Message}
use delivery_api.Db.{Database, IsLive}
use delivery_api.Smtp.Sender.{SmtpError, SendError, smtp, other, error_text}
use delivery_api.Queue.{
  Env, attempted, minute, mark_sent, mark_deferred, mark_failed, is_processed, raw_message, Worker,
  by_id, update_message, fail, settle, deliver, process, rate_limit,
}

module _ (db : Database) where
  -- The row of a message.
  abbrev pub message_at : ℕ → Worker db → Option Message
  message_at id w = find_where (by_id db id) (db.messages.rows w.store.messages)

  -- How the row of a message changes by the answer of the mail server.
  abbrev pub answered : ℕ → ℕ → Option SendError → Message → Message
  answered at retries none = mark_sent at
  answered at retries (some (smtp e)) =
      if not e.permanent && ltb retries 3 then mark_deferred retries at e else mark_failed (smtp e)
  answered at retries (some (other text)) = mark_failed (other text)

module _ (db : Database) (live : IsLive db.messages) where
  message_at-update :
      (i j : ℕ) (f : Message → Message) (w : Worker db)
      → ((m : Message) → (f m).id ≡ m.id)
      → message_at db j (update_message db i f w)
        ≡ (if i == j then Option.map f (message_at db j w) else message_at db j w)
  message_at-update i j f w same =
      rw ((live.update_live (by_id db i) f w.store.messages).1) (elim (Bool-cases (i == j)) [
        | inl e ↦
            rw e
              (rw ((==_iff i j).0 e) (find_where-update_where (by_id db j) f (λ m. rw (same m)) _))
        | inr e ↦ rw e (
            find_where-update_other (by_id db i) (by_id db j) f
              (λ m h. (ground arith, ground (arith, same m))) _)
      ])

  message_at-fail :
      (j : ℕ) (m : Message) (e : SendError) (w : Worker db)
      → message_at db j (fail db m e w) ≡ message_at db j (update_message db m.id (mark_failed e) w)
  unfolding fail
  message_at-fail j m (other text) w = refl
  message_at-fail j m (smtp e) w = ground arith

  -- Only the row of the message changes, and as its answer says.
  message_at-settle :
      (j at : ℕ) (m : Message) (r : Option SendError) (w : Worker db)
      → message_at db j (settle db at m r w) ≡ (
          if m.id == j
          then Option.map (answered db at m.retries r) (message_at db j w)
          else message_at db j w)
  unfolding settle
  message_at-settle j at m none w = message_at-update m.id j (mark_sent at) w (λ r. refl)
  message_at-settle j at m (some (other text)) w =
      message_at-fail j m (other text) w
      ∙ message_at-update m.id j (mark_failed (other text)) w (λ r. refl)
  message_at-settle j at m (some (smtp e)) w = ground (
    arith,
    message_at-fail j m (smtp e) w,
    message_at-update m.id j (mark_failed (smtp e)) w (λ r. refl),
    message_at-update m.id j (mark_deferred m.retries at e) w (λ r. refl),
  )

  pub message_at-deliver :
      (j : ℕ) (env : Env) (m : Message) (w : Worker db)
      → is_processed m.status ≡ false
      → message_at db j (deliver db env m w).0 ≡ (
          if m.id == j
          then Option.map
              (λ r.
                answered db env.done_at m.retries
                  (env.send m.from_email m.to_email (raw_message env m))
                  (record r { status = sending }))
              (message_at db j w)
          else message_at db j w)
  unfolding deliver
  message_at-deliver j env m w new =
      let result = env.send m.from_email m.to_email (raw_message env m) in
      let mark = λ (r : Message). record r { status = sending } in
      rw new (
        ground (
          arith,
          message_at-settle j env.done_at m result (update_message db m.id mark w),
          message_at-update m.id j mark w (λ r. refl),
          Option-cases (message_at db j w),
        ))

-- What one attempt makes of a message.
pub data IsSettled (at : ℕ) (m m' : Message) : Option SendError → Type 0 where
  accepted :
      m'.status ≡ sent → m'.sent_at ≡ some at → m'.retries ≡ m.retries → IsSettled at m m' none
  deferred :
      (e : SmtpError)
      → e.permanent ≡ false
      → m.retries < 3
      → m'.status ≡ queued
      → m'.retries ≡ m.retries + 1
      → m'.next_retry_at ≡ some (at + 2 ^ m.retries * 5 * minute)
      → IsSettled at m m' (some (smtp e))
  refused :
      (e : SmtpError)
      → (e.permanent ≡ true) ⊎ (3 ≤ m.retries)
      → m'.status ≡ failed
      → m'.error ≡ some (error_text (smtp e))
      → m'.retries ≡ m.retries
      → IsSettled at m m' (some (smtp e))
  broken :
      (text : Str)
      → m'.status ≡ failed
      → m'.error ≡ some (error_text (other text))
      → m'.retries ≡ m.retries
      → IsSettled at m m' (some (other text))

module _ (db : Database) where
  answered-IsSettled :
      (at : ℕ) (m : Message) (r : Option SendError)
      → IsSettled at m (answered db at m.retries r (record m { status = sending })) r
  answered-IsSettled at m none = accepted refl refl refl
  answered-IsSettled at m (some (other text)) = broken text refl refl refl
  answered-IsSettled at m (some (smtp e)) = elim (Bool-cases (not e.permanent && ltb m.retries 3)) [
    | inl h ↦ rw h (deferred e (ground arith) (ground arith) refl refl refl)
    | inr h ↦ rw h (refused e (ground arith) refl refl refl)
  ]

module _ (db : Database) (live : IsLive db.messages) where
  pub process_open :
      (env : Env) (id : ℕ) (w : Worker db) (m : Message)
      → message_at db id w ≡ some m
      → (rate_limit env.now w.queue).1 ≡ false
      → process db env id w ≡ deliver db env m (record w { queue = (rate_limit env.now w.queue).0 })
  unfolding process
  process_open env id w m here open_limit =
      rw (open_limit, live.first_live (by_id db id) w.store.messages, here)

  pub deliver-attempted :
      (env : Env) (m : Message) (w : Worker db)
      → is_processed m.status ≡ false
      → (deliver db env m w).1 ≡ attempted (env.send m.from_email m.to_email (raw_message env m))
  unfolding deliver
  deliver-attempted env m w new = rw new

  deliver-other :
      (env : Env) (id j : ℕ) (m : Message) (w : Worker db)
      → m.id ≡ id
      → j ≢ id
      → message_at db j (deliver db env m w).0 ≡ message_at db j w
  deliver-other env id j m w same apart = elim (Bool-cases (is_processed m.status)) [
    | inl old ↦ unfold deliver in rw old
    | inr new ↦ ground (arith, message_at-deliver db live j env m w new)
  ]

  -- In a database none of whose calls fails, a call that finds the message unprocessed and the rate
  -- limit open attempts it once. The row is then sent, or queued again with one more retry and a
  -- doubled delay (a temporary refusal, at most three times), or failed.
  pub process-IsSettled :
      (env : Env) (id : ℕ) (w : Worker db) (m : Message)
      → message_at db id w ≡ some m
      → is_processed m.status ≡ false
      → (rate_limit env.now w.queue).1 ≡ false
      → let result = env.send m.from_email m.to_email (raw_message env m) in
        let done = process db env id w in
        (done.1 ≡ attempted result)
        × ((m' : Message) × (message_at db id done.0 ≡ some m') × IsSettled env.done_at m m' result)
  process-IsSettled env id w m here new open_limit =
      let w' = record w { queue = (rate_limit env.now w.queue).0 } in
      let same = (==_iff m.id id).0 (find_where_sound (by_id db id) _ here) in
      rw (process_open env id w m here open_limit) (
        deliver-attempted env m w' new,
        (
          answered db env.done_at m.retries (env.send m.from_email m.to_email (raw_message env m))
              (record m { status = sending }),
          ground (arith, message_at-deliver db live id env m w' new),
          answered-IsSettled db env.done_at m _,
        ),
      )

  -- In a database none of whose calls fails, a call changes no other message's row.
  pub process-other :
      (env : Env) (id j : ℕ) (w : Worker db)
      → j ≢ id
      → message_at db j (process db env id w).0 ≡ message_at db j w
  unfolding process
  process-other env id j w apart = elim (Bool-cases (rate_limit env.now w.queue).1) [
    | inl wait ↦ rw wait
    | inr free ↦ elim (Option-cases (message_at db id w)) [
      | inl gone ↦ rw (free, live.first_live (by_id db id) w.store.messages, gone)
      | inr (m, here) ↦ rw (process_open env id w m here free) (
          deliver-other env id j m (record w { queue = (rate_limit env.now w.queue).0 })
            ((==_iff m.id id).0 (find_where_sound (by_id db id) _ here)) apart)
    ]
  ]
