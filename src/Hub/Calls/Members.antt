-- ===== src/Hub/Calls/Members.antt =====
-- Who is registered, over any interleaving of the calls.
use delivery_api.Base.{
  ℕ, ◌+◌, ◌<◌, ◌≡◌, ◌≢◌, ◌∙◌, refl, ap, inl, inr, Bool, true, List, [], ◌∷◌, ◌++◌, Str, arith, All,
  All-append, All-weaken, ◌==◌, Bool-cases, reject, str_eq, str_eq_refl, select,
}
use delivery_api.Hub.{
  Event, Hub, new_hub, register, unregister, members, subscribe, targets, publish, publish_except,
  close, offer, offer_all, receive, detach,
}
use delivery_api.Hub.Fanout.{offered, publish_except-target}
use delivery_api.Hub.Calls.{
  Act, subscribes, detaches, closes, receives, offers, act, Reach, started, acted,
}

abbrev pub AreBelow : ℕ → List ℕ → Type 0
AreBelow k ns = All (λ m. m < k) ns

abbrev pub IsBelow : ℕ → List (Str × List ℕ) → Type 0
IsBelow k subs = All (λ (e : Str × List ℕ). AreBelow k e.1) subs

AreBelow-suc : (k : ℕ) (ns : List ℕ) → AreBelow k ns → AreBelow (k + 1) ns
AreBelow-suc k ns h = All-weaken (λ m. m < k) (λ m. m < k + 1) (λ m l. omega arith) ns h

IsBelow-suc : (k : ℕ) (subs : List (Str × List ℕ)) → IsBelow k subs → IsBelow (k + 1) subs
IsBelow-suc k subs h =
    All-weaken (λ (e : Str × List ℕ). AreBelow k e.1) (λ (e : Str × List ℕ). AreBelow (k + 1) e.1)
      (λ e b. AreBelow-suc k e.1 b) subs h

register-IsBelow :
    (user : Str) (k : ℕ) (subs : List (Str × List ℕ))
    → IsBelow k subs
    → IsBelow (k + 1) (register user k subs)
unfolding register
register-IsBelow user k [] h = ((omega arith, tt), tt)
register-IsBelow user k ((other, ns) ∷ subs) (below, h) = elim (Bool-cases (str_eq other user)) [
  | inl same ↦ rw same (
    All-append (λ m. m < k + 1) ns (k ∷ []) (AreBelow-suc k ns below) (omega arith, tt),
    IsBelow-suc k subs h,
  )
  | inr apart ↦ rw apart (AreBelow-suc k ns below, register-IsBelow user k subs h)
]

reject-AreBelow : (k : ℕ) (p : ℕ → Bool) (ns : List ℕ) → AreBelow k ns → AreBelow k (reject p ns)
reject-AreBelow k p [] h = tt
reject-AreBelow k p (n ∷ ns) (below, h) = ground (arith, reject-AreBelow k p ns)

kept-IsBelow :
    (other : Str) (k : ℕ) (ms : List ℕ) (subs : List (Str × List ℕ))
    → AreBelow k ms
    → IsBelow k subs
    → IsBelow k (elim ms [ [] ↦ subs | n ∷ ns ↦ (other, n ∷ ns) ∷ subs ])
kept-IsBelow other k [] subs below h = h
kept-IsBelow other k (m ∷ ms) subs below h = (below, h)

unregister-IsBelow :
    (user : Str) (n k : ℕ) (subs : List (Str × List ℕ))
    → IsBelow k subs
    → IsBelow k (unregister user n subs)
unfolding unregister
unregister-IsBelow user n k [] h = tt
unregister-IsBelow user n k ((other, ns) ∷ subs) (below, h) =
    let kept = reject-AreBelow k (λ m. m == n) ns below in
    elim (Bool-cases (str_eq other user)) [
      | inl same ↦ rw same (kept-IsBelow other k (reject (λ m. m == n) ns) subs kept h)
      | inr apart ↦ rw apart (below, unregister-IsBelow user n k subs h)
    ]

act-IsBelow :
    (a : Act) (h : Hub) → IsBelow h.allocated h.subs → IsBelow (act a h).allocated (act a h).subs
unfolding act subscribe detach close receive offer
act-IsBelow (subscribes user) h b = register-IsBelow user h.allocated h.subs b
act-IsBelow (detaches user n) h b = unregister-IsBelow user n h.allocated h.subs b
act-IsBelow (closes n) h b = ground (arith)
act-IsBelow (receives n) h b = b
act-IsBelow (offers evt n) h b = ground (arith)

pub Reach-IsBelow : (h : Hub) → Reach h → IsBelow h.allocated h.subs
unfolding new_hub
Reach-IsBelow h started = tt
Reach-IsBelow h (acted a h' r) = act-IsBelow a h' (Reach-IsBelow h' r)

members-AreBelow :
    (user : Str) (k : ℕ) (subs : List (Str × List ℕ))
    → IsBelow k subs
    → AreBelow k (members user subs)
unfolding members
members-AreBelow user k [] h = tt
members-AreBelow user k ((other, ns) ∷ subs) (below, h) = elim (Bool-cases (str_eq other user)) [
  | inl same ↦ rw same below
  | inr apart ↦ rw apart (members-AreBelow user k subs h)
]

members-register :
    (user : Str) (n : ℕ) (subs : List (Str × List ℕ))
    → members user (register user n subs) ≡ members user subs ++ n ∷ []
unfolding members register
members-register user n [] = rw (str_eq_refl user) refl
members-register user n ((other, ns) ∷ subs) = elim (Bool-cases (str_eq other user)) [
  | inl same ↦ rw (same, same) refl
  | inr apart ↦ rw (apart, apart) (members-register user n subs)
]

select_all : (ns : List ℕ) → select (λ n. true) ns ≡ ns
select_all [] = refl
select_all (n ∷ ns) = ap (n ∷◌) (select_all ns)

-- An event that is published for a user right after a subscription is added to the buffer of the new
-- channel, whatever calls came before the subscription.
pub publish-subscribe :
    (user : Str) (h h' : Hub)
    → Reach h
    → (evt : Event) → h'.subs ≡ (subscribe user h).0.subs
    → let n = (subscribe user h).1 in (publish user evt h').heap n ≡ offered evt (h'.heap n)
unfolding publish subscribe targets
publish-subscribe user h h' r evt same =
    let n = h.allocated in
    let before = members user h.subs in
    let below = members-AreBelow user n h.subs (Reach-IsBelow h r) in
    publish_except-target user [] evt before [] n h'
      (rw same (
        ground (
          arith,
          select_all (members user (register user n h.subs)),
          members-register user n h.subs,
        )))
      (All-weaken (λ m. m < n) (λ m. m ≢ n) (λ m l e. omega arith) before below) tt

offer_all-subs : (evt : Event) (ns : List ℕ) (h : Hub) → (offer_all evt ns h).subs ≡ h.subs
unfolding offer_all offer
offer_all-subs evt [] h = refl
offer_all-subs evt (n ∷ ns) h = offer_all-subs evt ns (offer evt n h) ∙ ground arith

pub publish-subs : (user : Str) (evt : Event) (h : Hub) → (publish user evt h).subs ≡ h.subs
unfolding publish publish_except
publish-subs user evt h = offer_all-subs evt (targets user [] h) h
