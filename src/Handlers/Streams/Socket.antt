-- ===== src/Handlers/Streams/Socket.antt =====
-- WSStreamNotifications of internal/handlers/notifications.go. A turn comes with whether the write
-- or the ping that it makes succeeds; the goroutine that reads only ends the turns.
use delivery_api.Base.{
  ℕ, ◌≡◌, ◌∙◌, sym, refl, ap, inl, inr, Bool, true, false, Option, none, some, List, [], ◌∷◌, ◌++◌,
  Str, codes, map, if◌then◌else◌, is_empty, append-nil, Bool-cases,
}
use delivery_api.Hub.{Event, Hub, subscribe, offer, receive}
use delivery_api.Handlers.Streams.{
  Frame, hello, unread, event, ping, Stream, write, flush, leave, Turn, arrives, receives, beats,
  ends, watch, Streamed, refused, streamed,
}
use delivery_api.Handlers.Streams.Order.{events, events-flush, List-cases}

-- A write that succeeds is sent; one that fails leaves nothing.
abbrev pub write_json : Bool → Frame → Stream → Stream
write_json true f s = flush (write f s)
write_json false f s = s

pub watch_socket : Str → ℕ → List (Turn × Bool) → Stream → Stream
watch_socket user n [] s = s
watch_socket user n ((arrives evt, ok) ∷ ts) s =
    watch_socket user n ts (record s { hub = offer evt n s.hub })
watch_socket user n ((receives, ok) ∷ ts) s = elim (s.hub.heap n).buffer [
  | evt ∷ later ↦
      let s' = write_json ok (event evt) (record s { hub = receive n s.hub }) in
      elim ok [ true ↦ watch_socket user n ts s' | false ↦ leave user n s' ]
  | [] ↦ elim (s.hub.heap n).is_open [ true ↦ watch_socket user n ts s | false ↦ leave user n s ]
]
watch_socket user n ((beats, ok) ∷ ts) s = elim ok [
  | true ↦ watch_socket user n ts s
  | false ↦ leave user n s
]
watch_socket user n ((ends, ok) ∷ ts) s = leave user n s

-- Up to the loop: the results of the two writes are ignored.
abbrev pub welcomed : Str → Bool → Bool → Option ℕ → Hub → Stream × ℕ
welcomed user ok_hello ok_count count h =
    let (h', n) = subscribe user h in
    let s =
      write_json ok_hello (hello (h'.heap n).id) (record { hub = h'; sent = []; held = [] }) in
    (elim count [ none ↦ s | some c ↦ write_json ok_count (unread c) s ], n)

-- `none` if the connection could not be made a web socket.
pub ws_stream_notifications :
    Str → Option Hub → Bool → Bool → Bool → Option ℕ → List (Turn × Bool) → Option Streamed
unfolding watch_socket
ws_stream_notifications user hub accepts ok_hello ok_count count turns =
    if is_empty user then some (refused 401 (codes "unauthorized")) else elim hub [
      | none ↦ some (refused 503 (codes "stream unavailable"))
      | some h ↦
          if accepts
          then some (
              streamed (
                let (s, n) = welcomed user ok_hello ok_count count h in
                watch_socket user n turns s))
          else none
    ]

abbrev flawless : List Turn → List (Turn × Bool)
flawless = map (λ t. (t, true))

abbrev written : Stream → List Event
written s = events (s.sent ++ s.held)

-- A socket whose writes succeed leaves the hub as a stream of events does with the same turns, and
-- has written the same events.
pub watch_socket-watch :
    (user : Str) (n : ℕ) (ts : List Turn) (h : Hub) (sent held sent' held' : List Frame)
    → events (sent ++ held) ≡ events (sent' ++ held')
    → let s = watch_socket user n (flawless ts) (record { hub = h; sent = sent; held = held }) in
      let s' = watch user n ts (record { hub = h; sent = sent'; held = held' }) in
      (s.hub ≡ s'.hub) × (written s ≡ written s')
unfolding watch_socket watch
watch_socket-watch user n [] h sent held sent' held' same = (refl, same)
watch_socket-watch user n (arrives evt ∷ ts) h sent held sent' held' same =
    watch_socket-watch user n ts (offer evt n h) sent held sent' held' same
watch_socket-watch user n (receives ∷ ts) h sent held sent' held' same =
    elim (List-cases (h.heap n).buffer) [
      | inl empty ↦ elim (Bool-cases (h.heap n).is_open) [
        | inl live ↦
            rw (empty, live, watch, watch_socket)
              (watch_socket-watch user n ts h sent held sent' held' same)
        | inr closed ↦ rw (empty, closed, watch, watch_socket) (refl, same)
      ]
      | inr (evt, later, found) ↦
          rw (found, watch, watch_socket)
            (watch_socket-watch user n ts (receive n h) (sent ++ (held ++ event evt ∷ [])) []
              (sent' ++ (held' ++ event evt ∷ [])) []
              (events-flush (event evt) sent held
                ∙ ap (λ l. l ++ evt ∷ []) same
                ∙ sym (events-flush (event evt) sent' held')))
    ]
watch_socket-watch user n (beats ∷ ts) h sent held sent' held' same =
    watch_socket-watch user n ts h sent held (sent' ++ (held' ++ ping ∷ [])) []
      (same ∙ sym (events-flush ping sent' held' ∙ append-nil (events (sent' ++ held'))))
watch_socket-watch user n (ends ∷ ts) h sent held sent' held' same = (refl, same)
