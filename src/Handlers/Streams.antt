-- ===== src/Handlers/Streams.antt =====
-- The streams of internal/handlers/notifications.go; here StreamNotifications. A loop over a select
-- is a list of turns: what the loop chooses, and between its turns what other goroutines send to
-- the channel.
pub mod Order
pub mod Socket
pub mod Live
pub mod Tests
use delivery_api.Base.{
  ℕ, Bool, true, false, not, Option, none, some, List, [], ◌∷◌, ◌++◌, Str, codes, if◌then◌else◌,
  is_empty,
}
use delivery_api.Hub.{Event, Hub, subscribe, detach, close, offer, receive}

pub data Frame : Type 0 where
  hello : Str → Frame
  unread : ℕ → Frame
  event : Event → Frame
  ping : Frame

-- The response: what is flushed, and what is written since.
pub record Stream : Type 0 where
  pub hub : Hub
  pub sent : List Frame
  pub held : List Frame

abbrev pub write : Frame → Stream → Stream
write f s = record s { held = s.held ++ f ∷ [] }

abbrev pub flush : Stream → Stream
flush s = record s { sent = s.sent ++ s.held; held = [] }

-- json.Marshal of the three kinds of data
pub record Marshal : Type 0 where
  pub hello : Str → Str
  pub unread : ℕ → Str
  pub event : Event → Str

pub write_sse : Str → Str → Str
write_sse name data_text = codes "event: " ++ name ++ codes "\ndata: " ++ data_text ++ codes "\n\n"

pub text_of_frame : Marshal → Frame → Str
unfolding write_sse
text_of_frame m (hello conn_id) = write_sse (codes "hello") (m.hello conn_id)
text_of_frame m (unread c) = write_sse (codes "unread_count") (m.unread c)
text_of_frame m (event evt) = write_sse evt.type (m.event evt)
text_of_frame m ping = codes ": ping\n\n"

-- unsub, which is deferred
abbrev pub leave : Str → ℕ → Stream → Stream
leave user n s = record s { hub = close n (detach user n s.hub) }

pub data Turn : Type 0 where
  arrives : Event → Turn
  receives : Turn
  beats : Turn
  ends : Turn

-- The loop of the subscriber at the address n; a receive waits on an open channel that is empty.
pub watch : Str → ℕ → List Turn → Stream → Stream
watch user n [] s = s
watch user n (arrives evt ∷ ts) s = watch user n ts (record s { hub = offer evt n s.hub })
watch user n (receives ∷ ts) s = elim (s.hub.heap n).buffer [
  | evt ∷ later ↦ watch user n ts (flush (write (event evt) (record s { hub = receive n s.hub })))
  | [] ↦ elim (s.hub.heap n).is_open [ true ↦ watch user n ts s | false ↦ leave user n s ]
]
watch user n (beats ∷ ts) s = watch user n ts (flush (write ping s))
watch user n (ends ∷ ts) s = leave user n s

-- Up to the loop, with the address of the subscriber.
abbrev pub greeted : Str → Option ℕ → Hub → Stream × ℕ
greeted user count h =
    let (h', n) = subscribe user h in
    let s = write (hello (h'.heap n).id) (record { hub = h'; sent = []; held = [] }) in
    (elim count [ none ↦ s | some c ↦ flush (write (unread c) s) ], n)

pub data Streamed : Type 0 where
  refused : ℕ → Str → Streamed
  streamed : Stream → Streamed

-- The user, the hub, whether the writer can flush, the count of unread rows, and the turns.
pub stream_notifications : Str → Option Hub → Bool → Option ℕ → List Turn → Streamed
unfolding watch
stream_notifications user hub can_flush count turns =
    if is_empty user then refused 401 (codes "unauthorized") else elim hub [
      | none ↦ refused 503 (codes "stream unavailable")
      | some h ↦
          if not can_flush
          then refused 500 (codes "streaming unsupported")
          else streamed (let (s, n) = greeted user count h in watch user n turns s)
    ]
