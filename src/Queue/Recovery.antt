-- ===== src/Queue/Recovery.antt =====
-- Start and retryScheduler: which messages are put into the channel again.
use mathlib.Core.List.{Perm, append_assoc, map-append}
use mathlib.Core.List.Perm
use delivery_api.Base.{
  ℕ, Bool, true, false, ◌&&◌, none, some, List, ◌++◌, map, leb, select, take, drop,
  take-append-drop,
}
use delivery_api.Models.{MessageStatus, queued, sending, Message}
use delivery_api.Db.{Database, IsLive}
use delivery_api.Queue.{Worker}

abbrev pub is_unfinished : MessageStatus → Bool
is_unfinished queued = true
is_unfinished sending = true
is_unfinished _ = false

abbrev pub is_queued : MessageStatus → Bool
is_queued queued = true
is_queued _ = false

-- next_retry_at IS NULL OR next_retry_at <= now
abbrev pub is_startable : ℕ → Message → Bool
is_startable now m =
    is_unfinished m.status && elim m.next_retry_at [ none ↦ true | some at ↦ leb at now ]

-- status = 'queued' AND next_retry_at <= now, which a null does not meet
abbrev pub is_due : ℕ → Message → Bool
is_due now m = is_queued m.status && elim m.next_retry_at [ none ↦ false | some at ↦ leb at now ]

abbrev pub ids : List Message → List ℕ
ids = map (λ m. m.id)

module _ (db : Database) where
  abbrev push : List Message → Worker db → Worker db
  push ms w = record w { queue = record (w.queue) { pending = w.queue.pending ++ ids ms } }

  -- The recovery of Start, before any worker runs.
  pub start : ℕ → Worker db → Worker db
  start now w = push (db.messages.find (is_startable now) w.store.messages) w

  -- One tick of the scheduler.
  pub retry_tick : ℕ → Worker db → Worker db
  retry_tick now w = push (take 100 (db.messages.find (is_due now) w.store.messages)) w

module _ (db : Database) (live : IsLive db.messages) (now : ℕ) (w : Worker db) where
  -- In a database none of whose calls fails, Start puts exactly the queued and half-sent messages
  -- that are due into the channel, once each.
  pub start-perm :
      Perm
        (start db now w).queue.pending
        (w.queue.pending ++ ids (select (is_startable now) (db.messages.rows w.store.messages)))
  unfolding start
  start-perm =
      Perm.append (Perm.refl w.queue.pending)
        (Perm.map (λ m. m.id) (live.find_live (is_startable now) w.store.messages))

  -- In a database none of whose calls fails, a tick adds messages that wait for a retry which is
  -- due, each at most once: what it adds and some rest are together the due messages.
  pub retry_tick-perm :
      (left : List ℕ) × Perm
        ((retry_tick db now w).queue.pending ++ left)
        (w.queue.pending ++ ids (select (is_due now) (db.messages.rows w.store.messages)))
  unfolding retry_tick
  retry_tick-perm =
      let found = db.messages.find (is_due now) w.store.messages in
      (
        ids (drop 100 found),
        rw
            (
              append_assoc,
              ← map-append (λ (m : Message). m.id) (take 100 found) (drop 100 found),
              take-append-drop,
            )
            (Perm.append (Perm.refl w.queue.pending)
              (Perm.map (λ m. m.id) (live.find_live (is_due now) w.store.messages))),
      )
