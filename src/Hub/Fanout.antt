-- ===== src/Hub/Fanout.antt =====
-- Who gets an event.
use delivery_api.Base.{
  ℕ, ◌≡◌, ◌≢◌, ◌∙◌, refl, inl, inr, Bool, true, false, not, ◌&&◌, List, [], ◌∷◌, ◌++◌, Str, arith,
  All, ltb, ◌==◌, ==_iff, if◌then◌else◌, length, drop, is_empty, is_empty_iff, str_eq, str_eq_refl,
  select, Bool-cases,
}
use delivery_api.Hub.{
  Event, Subscriber, Hub, capacity, members, targets, offer, offer_all, publish_except, detach,
  close, receive, subscribe,
}

-- A subscriber with an event in its buffer, if the channel is open and has room.
abbrev pub offered : Event → Subscriber → Subscriber
offered evt s =
    if s.is_open && ltb (length s.buffer) capacity
    then record s { buffer = s.buffer ++ evt ∷ [] }
    else s

pub offer_lem :
    (evt : Event) (m n : ℕ) (h : Hub)
    → (offer evt m h).heap n ≡ (if n == m then offered evt (h.heap n) else h.heap n)
unfolding offer
offer_lem evt m n h = elim (Bool-cases (n == m)) [
  | inl same ↦ rw ((==_iff n m).0 same) (ground arith)
  | inr other ↦ ground arith
]

offer_all-outside :
    (evt : Event) (ns : List ℕ) (n : ℕ) (h : Hub)
    → All (λ m. m ≢ n) ns
    → (offer_all evt ns h).heap n ≡ h.heap n
unfolding offer_all
offer_all-outside evt [] n h out = refl
offer_all-outside evt (m ∷ ns) n h (apart, out) =
    offer_all-outside evt ns n (offer evt m h) out ∙ ground (arith, offer_lem evt m n h)

offer_all-once :
    (evt : Event) (ks bs : List ℕ) (n : ℕ) (h : Hub)
    → All (λ m. m ≢ n) ks
    → All (λ m. m ≢ n) bs
    → (offer_all evt (ks ++ n ∷ bs) h).heap n ≡ offered evt (h.heap n)
unfolding offer_all
offer_all-once evt [] bs n h _ out =
    offer_all-outside evt bs n (offer evt n h) out ∙ ground (arith, offer_lem evt n n h)
offer_all-once evt (m ∷ ks) bs n h (apart, before) out =
    offer_all-once evt ks bs n (offer evt m h) before out ∙ ground (arith, offer_lem evt m n h)

select-All : (P : ℕ → Type 0) (p : ℕ → Bool) (ns : List ℕ) → All P ns → All P (select p ns)
select-All P p [] h = tt
select-All P p (n ∷ ns) (hn, hs) = ground (arith, select-All P p ns hs)

-- When a call has a subscriber as a target exactly once, its event is added behind the buffered
-- ones of that subscriber if the channel is open and has fewer than 16 of them, and its
-- channel stays as it is otherwise.
pub publish_except-target :
    (user except : Str) (evt : Event) (before after : List ℕ) (n : ℕ) (h : Hub)
    → targets user except h ≡ before ++ n ∷ after
    → All (λ m. m ≢ n) before
    → All (λ m. m ≢ n) after
    → (publish_except user evt except h).heap n ≡ offered evt (h.heap n)
unfolding publish_except
publish_except-target user except evt before after n h e hb ha =
    rw e (offer_all-once evt before after n h hb ha)

-- A subscriber that is not registered for the user keeps its channel as it is when an event is
-- published for that user.
pub publish_except-stranger :
    (user except : Str) (evt : Event) (n : ℕ) (h : Hub)
    → All (λ m. m ≢ n) (members user h.subs)
    → (publish_except user evt except h).heap n ≡ h.heap n
unfolding publish_except targets
publish_except-stranger user except evt n h out =
    offer_all-outside evt (targets user except h) n h (
      select-All (λ m. m ≢ n) (λ n. not (not (is_empty except) && str_eq (h.heap n).id except))
        (members user h.subs) out)

select-misses : (p : ℕ → Bool) (n : ℕ) (ns : List ℕ) → p n ≡ false → All (λ m. m ≢ n) (select p ns)
select-misses p n [] e = tt
select-misses p n (m ∷ ns) e = elim (Bool-cases (p m)) [
  | inl hit ↦ rw hit (λ same. cc, select-misses p n ns e)
  | inr miss ↦ rw miss (select-misses p n ns e)
]

-- The subscriber whose connection is named as the sender of an event does not get it.
pub publish_except-sender :
    (user : Str) (evt : Event) (n : ℕ) (h : Hub)
    → (h.heap n).id ≢ []
    → (publish_except user evt (h.heap n).id h).heap n ≡ h.heap n
unfolding publish_except targets
publish_except-sender user evt n h named =
    offer_all-outside evt (targets user (h.heap n).id h) n h (
      select-misses (λ m. not (not (is_empty (h.heap n).id) && str_eq (h.heap m).id (h.heap n).id))
        n (members user h.subs)
        (ground (arith, is_empty_iff (h.heap n).id, str_eq_refl (h.heap n).id)))

-- When a subscriber with an open channel leaves between the lock of a publishing call and its send,
-- the send panics.
pub offer-close :
    (user : Str) (evt : Event) (n : ℕ) (h : Hub)
    → (h.heap n).is_open ≡ true
    → (offer evt n (close n (detach user n h))).panicked ≡ true
unfolding offer close detach
offer-close user evt n h live = ground (arith)

pub receive_lem :
    (n : ℕ) (h : Hub)
    → (receive n h).heap n ≡ record (h.heap n) { buffer = drop 1 (h.heap n).buffer }
unfolding receive
receive_lem n h = ground arith

pub close-detach-buffer :
    (user : Str) (n : ℕ) (h : Hub)
    → (h.heap n).is_open ≡ true
    → ((close n (detach user n h)).heap n).buffer ≡ (h.heap n).buffer
unfolding close detach
close-detach-buffer user n h live = rw live (ground arith)

pub subscribe-buffer :
    (user : Str) (h : Hub)
    → let (h', n) = subscribe user h in ((h'.heap n).buffer ≡ []) × ((h'.heap n).is_open ≡ true)
unfolding subscribe
subscribe-buffer user h = (ground arith, ground arith)
