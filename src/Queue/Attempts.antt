-- ===== src/Queue/Attempts.antt =====
-- How often a message is handed to the mail server, whatever the order of the calls.
use delivery_api.Base.{
  ℕ, suc, ◌+◌, ◌-◌, ◌≤◌, ◌<◌, ◌≡◌, refl, inl, inr, Bool, true, false, ◌&&◌, Option, none, some,
  Option-cases, List, [], ◌∷◌, arith, ◌==◌, ==_iff, if◌then◌else◌, Bool-cases, find_where_sound,
}
use delivery_api.Models.{sending, Message}
use delivery_api.Db.{Database, IsLive}
use delivery_api.Smtp.Sender.{SendError, smtp, other}
use delivery_api.Queue.{
  Env, Outcome, attempted, is_processed, raw_message, Worker, by_id, deliver, process, rate_limit,
}
use delivery_api.Queue.Outcomes.{
  message_at, answered, message_at-deliver, process_open, deliver-attempted,
}

module _ (db : Database) where
  -- A history of whole calls of `process`, each with its environment and message id.
  pub run : List (Env × ℕ) → Worker db → Worker db
  run [] w = w
  run ((env, id) ∷ calls) w = run calls (process db env id w).0

  abbrev pub is_attempt : Outcome → Bool
  is_attempt (attempted _) = true
  is_attempt _ = false

  -- How often the history hands the message to the mail server.
  pub attempts : ℕ → List (Env × ℕ) → Worker db → ℕ
  attempts id [] w = 0
  attempts id ((env, i) ∷ calls) w =
      (if i == id && is_attempt (process db env i w).1 then 1 else 0)
      + attempts id calls (process db env i w).0

  abbrev budget : Option Message → ℕ
  budget none = 0
  budget (some m) = if is_processed m.status then 0 else suc (3 - m.retries)

  abbrev pub is_closed : Option Message → Bool
  is_closed none = true
  is_closed (some m) = is_processed m.status

  budget_closed : (o : Option Message) → is_closed o ≡ true → budget o ≡ 0
  budget_closed none h = refl
  budget_closed (some m) h = rw h

  answered-budget :
      (at retries : ℕ) (r : Option SendError) (m : Message)
      → m.retries ≡ retries
      → budget (some (answered db at retries r (record m { status = sending }))) < suc (3 - retries)
  answered-budget at retries none m e = omega arith
  answered-budget at retries (some (other text)) m e = omega arith
  answered-budget at retries (some (smtp x)) m e = ground arith

  budget-le-four : (o : Option Message) → budget o ≤ 4
  budget-le-four none = omega arith
  budget-le-four (some m) = ground arith

module _ (db : Database) (live : IsLive db.messages) where
  -- One attempt, if the call is about the message and makes one, and what is left afterwards.
  abbrev Spends : ℕ → ℕ → Worker db → Worker db × Outcome → Type 0
  Spends id i w done =
      (if i == id && is_attempt db done.1 then 1 else 0) + budget db (message_at db id done.0)
      ≤ budget db (message_at db id w)

  deliver-Spends :
      (id i : ℕ) (env : Env) (m : Message) (w : Worker db)
      → message_at db i w ≡ some m
      → Spends id i w (deliver db env m w)
  deliver-Spends id i env m w here = elim (Bool-cases (is_processed m.status)) [
    | inl old ↦ unfold deliver in rw old (ground arith)
    | inr new ↦
        let r = env.send m.from_email m.to_email (raw_message env m) in
        ground (
          arith,
          (==_iff m.id i).0 (find_where_sound (by_id db i) _ here),
          deliver-attempted db live env m w new,
          message_at-deliver db live id env m w new,
          answered-budget db env.done_at m.retries r m refl,
        )
  ]

  process-Spends : (id i : ℕ) (env : Env) (w : Worker db) → Spends id i w (process db env i w)
  process-Spends id i env w = elim (Bool-cases (rate_limit env.now w.queue).1) [
    | inl wait ↦ unfold process in rw wait (ground arith)
    | inr free ↦ elim (Option-cases (message_at db i w)) [
      | inl gone ↦
          unfold process in
          rw (free, live.first_live (by_id db i) w.store.messages, gone) (ground arith)
      | inr (m, here) ↦
          rw (process_open db live env i w m here free)
            (deliver-Spends id i env m (record w { queue = (rate_limit env.now w.queue).0 }) here)
    ]
  ]

  attempts-budget :
      (id : ℕ) (calls : List (Env × ℕ)) (w : Worker db)
      → attempts db id calls w + budget db (message_at db id (run db calls w))
        ≤ budget db (message_at db id w)
  unfolding attempts run
  attempts-budget id [] w = omega arith
  attempts-budget id ((env, i) ∷ calls) w =
      omega (arith, process-Spends id i env w, attempts-budget id calls (process db env i w).0)

  -- In a database none of whose calls fails, any history of calls hands a message to the mail
  -- server at most four times.
  pub attempts-le-four :
      (id : ℕ) (calls : List (Env × ℕ)) (w : Worker db) → attempts db id calls w ≤ 4
  attempts-le-four id calls w =
      omega (arith, attempts-budget id calls w, budget-le-four db (message_at db id w))

  -- In a database none of whose calls fails, a message that is processed, or has no row, is never
  -- handed to the mail server again, whatever calls follow.
  pub attempts_closed :
      (id : ℕ) (calls : List (Env × ℕ)) (w : Worker db)
      → is_closed db (message_at db id w) ≡ true
      → attempts db id calls w ≡ 0
  attempts_closed id calls w closed =
      omega (arith, attempts-budget id calls w, budget_closed db (message_at db id w) closed)
