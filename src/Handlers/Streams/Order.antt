-- ===== src/Handlers/Streams/Order.antt =====
-- The order of what a stream writes.
use delivery_api.Base.{
  ℕ, ◌+◌, ◌-◌, ◌≡◌, ◌≢◌, refl, is_empty, is_empty_iff, sym, ◌∙◌, ap, inl, inr, arith, true, false,
  Option, none, some, List, [], ◌∷◌, ◌++◌, Str, ltb, if◌then◌else◌, length, length-append, ◌⊎◌,
  append_assoc, append-nil, Bool-cases,
}
use delivery_api.Hub.{Event, Hub, subscribe, offer, receive}
use delivery_api.Hub.Fanout.{offered, offer_lem, receive_lem, close-detach-buffer, subscribe-buffer}
use delivery_api.Handlers.Streams.{
  Frame, hello, unread, event, ping, Stream, write, flush, Turn, arrives, receives, beats, ends,
  watch, greeted, streamed, stream_notifications,
}

pub List-cases {ℓ} : {A : Type ℓ} → (l : List A) → (l ≡ []) ⊎ ((x : A) × (r : List A) × (l ≡ x ∷ r))
List-cases [] = inl refl
List-cases (x ∷ r) = inr (x, r, refl)

-- What a queue of 16 places accepts that holds k events.
abbrev pub accepted : ℕ → List Turn → List Event
accepted k [] = []
accepted k (arrives evt ∷ ts) =
    let more = accepted (k + 1) ts in
    let same = accepted k ts in if ltb k 16 then evt ∷ more else same
accepted k (receives ∷ ts) = accepted (k - 1) ts
accepted k (beats ∷ ts) = accepted k ts
accepted k (ends ∷ ts) = []

abbrev pub events : List Frame → List Event
events [] = []
events (event evt ∷ fs) = evt ∷ events fs
events (_ ∷ fs) = events fs

events-append : (fs gs : List Frame) → events (fs ++ gs) ≡ events fs ++ events gs
events-append [] gs = refl
events-append (hello c ∷ fs) gs = events-append fs gs
events-append (unread c ∷ fs) gs = events-append fs gs
events-append (event evt ∷ fs) gs = ap (λ l. evt ∷ l) (events-append fs gs)
events-append (ping ∷ fs) gs = events-append fs gs

-- The events written, then those in the channel.
abbrev pub taken : ℕ → Stream → List Event
taken n s = events (s.sent ++ s.held) ++ (s.hub.heap n).buffer

pub events-flush :
    (f : Frame) (sent held : List Frame)
    → events ((sent ++ (held ++ f ∷ [])) ++ []) ≡ events (sent ++ held) ++ events (f ∷ [])
events-flush f sent held =
    ap events (append-nil (sent ++ (held ++ f ∷ [])) ∙ sym (append_assoc sent held (f ∷ [])))
    ∙ events-append (sent ++ held) (f ∷ [])

arrived : (evt : Event) (n : ℕ) (h : Hub) → (offer evt n h).heap n ≡ offered evt (h.heap n)
arrived evt n h = ground (arith, offer_lem evt n n h)

snoc-accepted :
    (es buf : List Event) (evt : Event) (ts : List Turn)
    → (es ++ (buf ++ evt ∷ [])) ++ accepted (length (buf ++ evt ∷ [])) ts
      ≡ (es ++ buf) ++ evt ∷ accepted (length buf + 1) ts
snoc-accepted es buf evt ts = rw (length-append buf (evt ∷ [])) (simp (append_assoc))

move-accepted :
    (es later : List Event) (evt : Event) (ts : List Turn)
    → (es ++ evt ∷ []) ++ later ++ accepted (length later) ts
      ≡ es ++ evt ∷ later ++ accepted (length (evt ∷ later) - 1) ts
move-accepted es later evt ts =
    let back : length (evt ∷ later) - 1 ≡ length later = omega arith in
    rw back (ap (λ l. l ++ accepted (length later) ts) (append_assoc es (evt ∷ []) later))

taken-watch :
    (user : Str) (n : ℕ) (ts : List Turn) (s : Stream)
    → (s.hub.heap n).is_open ≡ true
    → taken n (watch user n ts s) ≡ taken n s ++ accepted (length (s.hub.heap n).buffer) ts
unfolding watch
taken-watch user n [] s live = sym (append-nil (taken n s))
taken-watch user n (ends ∷ ts) s live =
    ap (λ b. events (s.sent ++ s.held) ++ b) (close-detach-buffer user n s.hub live)
    ∙ sym (append-nil (taken n s))
taken-watch user n (beats ∷ ts) s live =
    let b = (s.hub.heap n).buffer in
    taken-watch user n ts (flush (write ping s)) live
    ∙ ap (λ l. l ++ b ++ accepted (length b) ts)
        (events-flush ping s.sent s.held ∙ append-nil (events (s.sent ++ s.held)))
taken-watch user n (arrives evt ∷ ts) s live =
    let b = (s.hub.heap n).buffer in
    let es = events (s.sent ++ s.held) in
    let here = arrived evt n s.hub in
    elim (Bool-cases (ltb (length b) 16)) [
      | inl room ↦
          let now : (offer evt n s.hub).heap n ≡ record (s.hub.heap n) { buffer = b ++ evt ∷ [] } =
            here ∙ rw (live, room) refl in
          taken-watch user n ts (record s { hub = offer evt n s.hub })
            (ap (λ x. x.is_open) now ∙ live)
          ∙ rw (now, room) (snoc-accepted es b evt ts)
      | inr full ↦
          let now : (offer evt n s.hub).heap n ≡ s.hub.heap n = here ∙ rw (live, full) refl in
          taken-watch user n ts (record s { hub = offer evt n s.hub })
            (ap (λ x. x.is_open) now ∙ live)
          ∙ rw (now, full) refl
    ]
taken-watch user n (receives ∷ ts) s live = elim (List-cases (s.hub.heap n).buffer) [
  | inl empty ↦ rw (empty, live, watch) (taken-watch user n ts s live ∙ rw empty refl)
  | inr (evt, later, found) ↦
      let now = receive_lem n s.hub in
      rw (found, watch)
        (taken-watch user n ts (flush (write (event evt) (record s { hub = receive n s.hub })))
            (ap (λ x. x.is_open) now ∙ live)
          ∙ rw (now, found)
              (ap (λ l. l ++ later ++ accepted (length later) ts)
                  (events-flush (event evt) s.sent s.held)
                ∙ move-accepted (events (s.sent ++ s.held)) later evt ts))
]

greeted-taken :
    (user : Str) (count : Option ℕ) (h : Hub)
    → let (s, n) = greeted user count h in
      (taken n s ≡ []) × ((s.hub.heap n).buffer ≡ []) × ((s.hub.heap n).is_open ≡ true)
greeted-taken user none h = let (empty, live) = subscribe-buffer user h in (empty, empty, live)
greeted-taken user (some c) h = let (empty, live) = subscribe-buffer user h in (empty, empty, live)

-- A stream that is let in writes the events of its channel in the order of their sending: those
-- written and those still in the channel are, in this order, the ones that a queue of 16 places
-- accepts which is empty at first, gains a place with each receive, and drops what finds no place.
pub stream_notifications-accepted :
    (user : Str) (h : Hub) (count : Option ℕ) (ts : List Turn)
    → user ≢ []
    → (s : Stream) × (stream_notifications user (some h) true count ts ≡ streamed s)
      × (taken (subscribe user h).1 s ≡ accepted 0 ts)
unfolding stream_notifications
stream_notifications-accepted user h count ts known =
    let (s, n) = greeted user count h in
    let (nothing, empty, live) = greeted-taken user count h in
    let named : is_empty user ≡ false = ground (arith, is_empty_iff user) in
    (watch user n ts s, rw named refl, taken-watch user n ts s live ∙ rw (nothing, empty) refl)
