-- ===== src/Hub.antt =====
-- internal/sse/hub.go. Subscribers live on a heap, at the addresses that the map of the hub holds.
-- The parts of a call that hold the lock are operations of their own, and so is each send after it:
-- calls of other goroutines come between them. A panic is noted in the hub.
pub mod Fanout
pub mod Calls
pub mod Tests
use delivery_api.Base.{
  ℕ, zero, suc, ◌+◌, ◌%◌, ◌^◌, Bool, true, false, not, ◌&&◌, ◌||◌, Option, none, some, List, [],
  ◌∷◌, ◌++◌, Str, codes, decimal, ltb, ◌==◌, if◌then◌else◌, is_empty, str_eq, length, drop, select,
  reject,
}
use delivery_api.Models.{Notification}

pub record Event : Type 0 where
  pub notification : Option Notification
  pub unread_count : Option ℕ
  pub type : Str

-- The channel is its buffer, and whether it is open.
pub record Subscriber : Type 0 where
  pub id : Str
  pub buffer : List Event
  pub is_open : Bool

-- The addresses below `allocated` are in use.
pub record Hub : Type 0 where
  pub subs : List (Str × List ℕ)
  pub next_id : ℕ
  pub allocated : ℕ
  pub heap : ℕ → Subscriber
  pub panicked : Bool

abbrev pub capacity : ℕ
capacity = 16

abbrev pub nobody : Subscriber
nobody = record { id = []; buffer = []; is_open = false }

-- NewHub
pub new_hub : Hub
new_hub = record { subs = []; next_id = 0; allocated = 0; heap = λ n. nobody; panicked = false }

abbrev pub put : ℕ → Subscriber → Hub → Hub
put n s h = record h { heap = λ m. if m == n then s else h.heap m }

pub register : Str → ℕ → List (Str × List ℕ) → List (Str × List ℕ)
register user n [] = (user, n ∷ []) ∷ []
register user n ((other, ns) ∷ subs) =
    if str_eq other user then (other, ns ++ n ∷ []) ∷ subs else (other, ns) ∷ register user n subs

pub unregister : Str → ℕ → List (Str × List ℕ) → List (Str × List ℕ)
unregister user n [] = []
unregister user n ((other, ns) ∷ subs) =
    if str_eq other user
    then elim (reject (λ m. m == n) ns) [ [] ↦ subs | m ∷ ms ↦ (other, m ∷ ms) ∷ subs ]
    else (other, ns) ∷ unregister user n subs

pub members : Str → List (Str × List ℕ) → List ℕ
members user [] = []
members user ((other, ns) ∷ subs) = if str_eq other user then ns else members user subs

-- Subscribe, with the address of the new subscriber. The counter has 64 bits.
pub subscribe : Str → Hub → Hub × ℕ
unfolding register
subscribe user h =
    let id = (h.next_id + 1) % 2 ^ 64 in
    let s : Subscriber = record { id = codes "c" ++ decimal id; buffer = []; is_open = true } in
    let h' = put h.allocated s h in
    (
      record h' {
        next_id = id;
        allocated = h.allocated + 1;
        subs = register user h.allocated h.subs;
      },
      h.allocated,
    )

-- The part of unsub under the lock, and the closing of the channel after it.
pub detach : Str → ℕ → Hub → Hub
unfolding unregister
detach user n h = record h { subs = unregister user n h.subs }

pub close : ℕ → Hub → Hub
close n h =
    let s = h.heap n in
    if s.is_open then put n (record s { is_open = false }) h else record h { panicked = true }

-- The targets that PublishExcept collects under the lock.
pub targets : Str → Str → Hub → List ℕ
unfolding members
targets user except h =
    select (λ n. not (not (is_empty except) && str_eq (h.heap n).id except)) (members user h.subs)

-- One turn of the loop after the lock: a send on a closed channel panics, a full buffer drops.
pub offer : Event → ℕ → Hub → Hub
offer evt n h =
    let s = h.heap n in
    if not s.is_open
    then record h { panicked = true }
    else if ltb (length s.buffer) capacity
    then put n (record s { buffer = s.buffer ++ evt ∷ [] }) h
    else h

pub offer_all : Event → List ℕ → Hub → Hub
unfolding offer
offer_all evt [] h = h
offer_all evt (n ∷ ns) h = offer_all evt ns (offer evt n h)

-- PublishExcept with no call in between
pub publish_except : Str → Event → Str → Hub → Hub
unfolding targets offer_all
publish_except user evt except h = offer_all evt (targets user except h) h

pub publish : Str → Event → Hub → Hub
unfolding publish_except
publish user evt h = publish_except user evt [] h

-- What a client reads from its channel.
pub receive : ℕ → Hub → Hub
receive n h = let s = h.heap n in put n (record s { buffer = drop 1 s.buffer }) h
