-- ===== src/Handlers/SignIn/Refine.antt =====
-- The handlers of the sign-in keep the promises of the ledger.
use delivery_api.Base.{
  ℕ, ◌+◌, ◌≤◌, ◌≡◌, refl, ◌∙◌, ap, inl, inr, arith, Option, none, some, List, [], ◌∷◌, Str,
  is_empty, Bool-cases, Option-cases, ltb, find_where,
}
use delivery_api.Handlers.Access.{SessionData, Request, keyed, get_session}
use delivery_api.Handlers.SignIn.{
  OauthConfig, Accounts, Answer, SignedIn, put, state_ttl, is_stale, shown, Identity, unnamed,
  named, identify, conclude, login_redirect, auth_callback, auth_me, auth_logout, Call, serve,
  serve_all, new_session,
}
use delivery_api.Handlers.SignIn.Ledger.{
  Ledger, show_session, record_named, promise, promise_all, IsTimed, session_at, Matches,
  Agrees-later, Agrees-put, Agrees-swept, is_stale-Agrees, session_at-reject, session_at-set,
  session_at-find_where,
}

-- The clock after a call.
abbrev until : ℕ → Call → ℕ
until t (Call.login state at now) = now
until t (Call.callback code state token now at) = at
until t (Call.me now req) = now
until t (Call.logout cookie) = t

abbrev IsTimely : ℕ → Call → Type 0
IsTimely t (Call.login state at now) = (t ≤ at) × (at ≤ now)
IsTimely t (Call.callback code state token now at) = (t ≤ now) × (now ≤ at)
IsTimely t (Call.me now req) = t ≤ now
IsTimely t (Call.logout cookie) = Unit

IsTimed-split :
    (t : ℕ) (c : Call) (cs : List Call) → IsTimed t (c ∷ cs) → IsTimely t c × IsTimed (until t c) cs
IsTimed-split t (Call.login state at now) cs (a, b, h) = ((a, b), h)
IsTimed-split t (Call.callback code state token now at) cs (a, b, h) = ((a, b), h)
IsTimed-split t (Call.me now req) cs (a, h) = (a, h)
IsTimed-split t (Call.logout cookie) cs h = (tt, h)

Matches-later :
    (t now : ℕ) (st : SignedIn) (l : Ledger) → t ≤ now → Matches t st l → Matches now st l
Matches-later t now st l h m = record {
  states = λ k. Agrees-later t now (st.states k) (l.states k) h (m.states k);
  sessions = m.sessions;
}

put-cong :
    (key k : Str) (v : Option SessionData) (f g : Str → Option SessionData)
    → f k ≡ g k
    → put key v f k ≡ put key v g k
put-cong key k v f g e = ground arith

get_session-show :
    (now : ℕ) (req : Request) (st : SignedIn)
    → auth_me now req st
      ≡ elim req.cookie [ none ↦ shown none | some v ↦ show_session now (session_at v st.sessions) ]
unfolding auth_me get_session
get_session-show now req st = elim (Option-cases req.cookie) [
  | inl e ↦ rw (auth_me, get_session, e) refl
  | inr (v, e) ↦ elim (Option-cases (find_where (keyed v) st.sessions)) [
    | inl gone ↦ rw (auth_me, get_session, e, session_at-find_where v st.sessions, gone) refl
    | inr (s, found) ↦ elim (Bool-cases (ltb s.1.expires_at now)) [
      | inl b ↦ rw (auth_me, get_session, e, session_at-find_where v st.sessions, found, b) refl
      | inr b ↦ rw (auth_me, get_session, e, session_at-find_where v st.sessions, found, b) refl
    ]
  ]
]

module _ (cfg : OauthConfig) (accounts : Accounts) where
  abbrev Keeps : ℕ → SignedIn × Answer → Ledger × Answer → Type 0
  Keeps t r s = Matches t r.0 s.0 × (r.1 ≡ s.1)

  conclude-Keeps :
      (token : Str) (at : ℕ) (who : Identity) (sessions : List (Str × SessionData))
      (m : Str → Option SessionData)
      → ((k : Str) → session_at k sessions ≡ m k)
      → ((k : Str)
          → session_at k (conclude cfg token at who sessions).0
            ≡ (record_named cfg accounts token at who m).0 k)
        × ((conclude cfg token at who sessions).1 ≡ (record_named cfg accounts token at who m).1)
  unfolding conclude
  conclude-Keeps token at (unnamed word) sessions m h = (h, refl)
  conclude-Keeps token at (named id name email) sessions m h = (
    λ k.
        session_at-set token (new_session id name email at) sessions k
        ∙ put-cong token k (some (new_session id name email at)) (λ k. session_at k sessions) m
            (h k),
    refl,
  )

  callback-Keeps :
      (code state token : Str) (now at t : ℕ) (st : SignedIn) (l : Ledger)
      → t ≤ now
      → now ≤ at
      → Matches t st l
      → Keeps at
          (auth_callback cfg accounts code state token now at st)
          (promise cfg accounts (Call.callback code state token now at) l)
  unfolding auth_callback
  callback-Keeps code state token now at t st l before after m =
      let later = Matches-later t at st l (omega arith) m in
      let spent = Agrees-put at state none st.states l.states later.states in
      let same = is_stale-Agrees t now (st.states state) (l.states state) before (m.states state) in
      elim (Bool-cases (is_empty code)) [
        | inl bare ↦ rw (auth_callback, bare) (later, refl)
        | inr full ↦ elim (Bool-cases (is_stale now (l.states state))) [
          | inl stale ↦
              rw (auth_callback, full, same, stale)
                (record { states = spent; sessions = m.sessions }, refl)
          | inr fresh ↦
              let (sessions, answer) =
                conclude-Keeps token at (identify cfg accounts code) st.sessions l.sessions
                  m.sessions in
              rw (auth_callback, full, same, fresh)
                (record { states = spent; sessions = sessions }, answer)
        ]
      ]

  serve-Keeps :
      (t : ℕ) (c : Call) (st : SignedIn) (l : Ledger)
      → IsTimely t c
      → Matches t st l
      → Keeps (until t c) (serve cfg accounts c st) (promise cfg accounts c l)
  unfolding serve login_redirect auth_logout
  serve-Keeps t (Call.login state at now) st l (a, b) m =
      let stored = Agrees-put t state (some (at + state_ttl)) st.states l.states m.states in
      (
        record {
          states = λ k.
              Agrees-swept t now (put state (some (at + state_ttl)) st.states)
                (put state (some (at + state_ttl)) l.states k) k (omega arith) (stored k);
          sessions = m.sessions;
        },
        refl,
      )
  serve-Keeps t (Call.callback code state token now at) st l (a, b) m =
      callback-Keeps code state token now at t st l a b m
  serve-Keeps t (Call.me now req) st l a m = (
    Matches-later t now st l a m,
    get_session-show now req st ∙ elim (Option-cases req.cookie) [
      | inl e ↦ rw e refl
      | inr (v, e) ↦ rw e (ap (show_session now) (m.sessions v))
    ],
  )
  serve-Keeps t (Call.logout none) st l a m = (m, refl)
  serve-Keeps t (Call.logout (some token)) st l a m = (
    record {
      states = m.states;
      sessions = λ k.
          session_at-reject token st.sessions k
          ∙ put-cong token k none (λ k. session_at k st.sessions) l.sessions (m.sessions k);
    },
    refl,
  )

  serve_all-Matches :
      (t : ℕ) (cs : List Call) (st : SignedIn) (l : Ledger)
      → IsTimed t cs
      → Matches t st l
      → serve_all cfg accounts cs st ≡ promise_all cfg accounts cs l
  unfolding serve_all
  serve_all-Matches t [] st l timed m = refl
  serve_all-Matches t (c ∷ cs) st l timed m =
      let (timely, later) = IsTimed-split t c cs timed in
      let (next, answer) = serve-Keeps t c st l timely m in
      let rest =
        serve_all-Matches (until t c) cs (serve cfg accounts c st).0 (promise cfg accounts c l).0
          later next in
      rw (answer, rest) refl

  abbrev pub fresh_start : SignedIn
  fresh_start = record { states = λ k. none; sessions = [] }

  abbrev pub blank_ledger : Ledger
  blank_ledger = record { states = λ k. none; sessions = λ k. none }

  -- With a clock that never goes back, the handlers answer any sequence of calls as the two maps do
  -- from which nothing is swept.
  pub serve_all-promise_all :
      (cs : List Call)
      → IsTimed 0 cs
      → serve_all cfg accounts cs fresh_start ≡ promise_all cfg accounts cs blank_ledger
  serve_all-promise_all cs timed =
      serve_all-Matches 0 cs fresh_start blank_ledger timed
        (record { states = λ k. inl refl; sessions = λ k. refl })
