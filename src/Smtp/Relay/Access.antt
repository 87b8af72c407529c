-- ===== src/Smtp/Relay/Access.antt =====
-- Who may use a session: the verbs in any order, with the tables changing in between.
pub mod Locked
use delivery_api.Base.{
  ℕ, ◌+◌, ◌≤◌, ◌≢◌, ◌&&◌, codes, str_eq, str_eq_iff, to_lower, is_empty_iff, find_where_sound,
  find_where-Mem, ◌≡◌, refl, ◌⊎◌, inl, inr, Bool, true, false, not, Option, none, some,
  Option-cases, Bool-cases, List, [], ◌∷◌, Str, arith, is_empty, find_where,
}
use mathlib.Core.List.{Mem, mem-cons_self, mem-cons_of_mem}
use delivery_api.Models.{ApiKey, SendingDomain}
use delivery_api.Db.{Database, Store}
use delivery_api.Queue.{Queue}
use delivery_api.Smtp.Relay.{
  Session, new_session, RelayError, auth_required, credential, is_expired, Relay, key_hashed, auth,
  mail, rcpt, submit, reset, queue_all, relayed, usable_domain, domain_of,
}

pub data Verb : Type 0 where
  auths : ℕ → Bool → Str → Str → Verb
  mails rcpts : Str → Verb
  submits : Option Str → (ℕ → Str) → Verb
  resets logouts : Verb

module _ (db : Database) (hash : Str → Str) where
  pub step : Verb → Relay db → Relay db × Option RelayError
  step (auths now plain username password) r = auth db hash now plain username password r
  step (mails from) r = mail db from r
  step (rcpts to) r = rcpt db to r
  step (submits body uuids) r = submit db body uuids r
  step resets r = (reset db r, none)
  step logouts r = (r, none)

  -- An AUTH PLAIN of the session: when it was tried, what the client sent, and the keys then.
  pub record Attempt : Type 0 where
    pub now : ℕ
    pub username : Str
    pub password : Str
    pub keys : db.keys.State

  abbrev pub tried : Verb → Relay db → List Attempt → List Attempt
  tried (auths now true username password) r log =
      record { now = now; username = username; password = password; keys = r.store.keys } ∷ log
  tried _ r log = log

  -- The verbs of one session, with its attempts to sign in so far; between the verbs the rest of the
  -- program may do anything to the tables and the queue.
  pub data Reach : List Attempt → Relay db → Type 0 where
    connected :
        (store : Store db) (queue : Queue)
        → Reach [] (record { session = new_session; store = store; queue = queue })
    elsewhere :
        (log : List Attempt) (r : Relay db) (store : Store db) (queue : Queue)
        → Reach log r
        → Reach log (record r { store = store; queue = queue })
    did :
        (log : List Attempt) (r : Relay db) (v : Verb)
        → Reach log r
        → Reach (tried v r log) (step v r).0

  -- In one of the attempts the client presented, in one of the two texts that it sent, a key whose
  -- hash a row had then; the row's expiry, if any, was not past, and the session acts for its user.
  pub record IsGranted (log : List Attempt) (s : Session) : Type 0 where
    pub attempt : Attempt
    pub made : Mem attempt log
    pub presented : Str
    pub sent : (presented ≡ attempt.username) ⊎ (presented ≡ attempt.password)
    pub given : presented ≢ []
    pub key : ApiKey
    pub stored : Mem key (db.keys.rows attempt.keys)
    pub hashed : key.key_hash ≡ hash presented
    pub unexpired :
        (key.expires_at ≡ none) ⊎ ((at : ℕ) × (key.expires_at ≡ some at) × (attempt.now ≤ at))
    pub user : s.user_id ≡ key.user_id
    pub number : s.api_key_id ≡ key.id

  abbrev pub IsSound : List Attempt → Session → Type 0
  IsSound log s = (s.authenticated ≡ false) ⊎ IsGranted log s

  -- A verb that is no successful AUTH leaves the credentials.
  abbrev SameUser : Session → Session → Type 0
  SameUser s t =
      (t.authenticated ≡ s.authenticated) × (t.user_id ≡ s.user_id) × (t.api_key_id ≡ s.api_key_id)

  SameUser-IsSound :
      (log : List Attempt) (s t : Session) → SameUser s t → IsSound log s → IsSound log t
  SameUser-IsSound log s t e (inl locked) = inl (ground arith)
  SameUser-IsSound log s t e (inr g) = inr (record {
    attempt = g.attempt;
    made = g.made;
    presented = g.presented;
    sent = g.sent;
    given = g.given;
    key = g.key;
    stored = g.stored;
    hashed = g.hashed;
    unexpired = g.unexpired;
    user = ground (arith, g.user);
    number = ground (arith, g.number);
  })

  -- An earlier attempt stays one.
  IsSound-later :
      (log : List Attempt) (a : Attempt) (s : Session) → IsSound log s → IsSound (a ∷ log) s
  IsSound-later log a s (inl locked) = inl locked
  IsSound-later log a s (inr g) = inr (record {
    attempt = g.attempt;
    made = mem-cons_of_mem a g.made;
    presented = g.presented;
    sent = g.sent;
    given = g.given;
    key = g.key;
    stored = g.stored;
    hashed = g.hashed;
    unexpired = g.unexpired;
    user = g.user;
    number = g.number;
  })

  credential-sent :
      (username password : Str)
      → (credential username password ≡ username) ⊎ (credential username password ≡ password)
  unfolding credential
  credential-sent username password =
      elim (Bool-cases (
        not (str_eq (to_lower username) (codes "apikey"))
        && not (str_eq (to_lower username) (codes "api")))) [
          | inl e ↦ inl (rw e refl)
          | inr e ↦ inr (rw e refl)
        ]

  is_expired_sound :
      (now : ℕ) (k : ApiKey)
      → is_expired now k ≡ false
      → (k.expires_at ≡ none) ⊎ ((at : ℕ) × (k.expires_at ≡ some at) × (now ≤ at))
  is_expired_sound now k h = elim (Option-cases k.expires_at) [
    | inl e ↦ inl e
    | inr (at, e) ↦ inr (at, e, (let fresh = rw e at h in ground (arith)))
  ]

  auth-IsSound :
      (log : List Attempt) (now : ℕ) (plain : Bool) (username password : Str) (r : Relay db)
      → IsSound log r.session
      → IsSound
          (tried (auths now plain username password) r log)
          (auth db hash now plain username password r).0.session
  unfolding auth
  auth-IsSound log now false username password r h = h
  auth-IsSound log now true username password r h =
      let key = credential username password in
      let here : Attempt = record {
        now = now;
        username = username;
        password = password;
        keys = r.store.keys;
      } in
      let kept = IsSound-later log here r.session h in
      elim (Bool-cases (is_empty key)) [
        | inl empty ↦ rw empty kept
        | inr given ↦ elim (Option-cases (db.keys.first (key_hashed db (hash key)) r.store.keys)) [
          | inl unknown ↦ rw (given, unknown) kept
          | inr (found, e) ↦ elim (Bool-cases (is_expired now found)) [
            | inl old ↦ rw (given, e, old) kept
            | inr fresh ↦
                let row : find_where (key_hashed db (hash key)) (db.keys.rows r.store.keys)
                    ≡ some found =
                  ground (arith, db.keys.first_law (key_hashed db (hash key)) r.store.keys) in
                rw (given, e, fresh)
                  (inr (record {
                    attempt = here;
                    made = mem-cons_self;
                    presented = key;
                    sent = credential-sent username password;
                    given = ground (arith, is_empty_iff key);
                    key = found;
                    stored = find_where-Mem (key_hashed db (hash key)) _ found row;
                    hashed =
                        (str_eq_iff found.key_hash (hash key)).0
                          (find_where_sound (key_hashed db (hash key)) _ row);
                    unexpired = is_expired_sound now found fresh;
                    user = refl;
                    number = refl;
                  }))
          ]
        ]
      ]

  queue_all-session :
      (d : SendingDomain) (subject raw : Str) (uuids : ℕ → Str) (n : ℕ) (to : List Str)
      (r : Relay db)
      → (queue_all db d subject raw uuids n to r).0.session ≡ r.session
  unfolding queue_all
  queue_all-session d subject raw uuids n [] r = refl
  queue_all-session d subject raw uuids n (t ∷ to) r =
      let made =
        db.messages.create (relayed db r.session d subject raw (uuids n) t) r.store.messages in
      elim (Option-cases made.1) [
        | inl e ↦ rw (e, queue_all)
        | inr (row, e) ↦ rw (e, queue_all) (queue_all-session d subject raw uuids (n + 1) to _)
      ]

  submit-session :
      (body : Option Str) (uuids : ℕ → Str) (r : Relay db)
      → (submit db body uuids r).0.session ≡ r.session
  unfolding submit
  submit-session body uuids r = elim (Bool-cases (not r.session.authenticated)) [
    | inl locked ↦ rw locked
    | inr free ↦ elim (Option-cases body) [
      | inl e ↦ rw (free, e)
      | inr (raw, e) ↦
          elim (Option-cases (
            db.domains.first (usable_domain db (domain_of r.session.from) r.session.user_id)
              r.store.domains)) [
                | inl missed ↦ rw (free, e, missed)
                | inr (d, found) ↦
                    rw (free, e, found) (queue_all-session d _ raw uuids 0 r.session.to r)
              ]
    ]
  ]

  step-IsSound :
      (log : List Attempt) (v : Verb) (r : Relay db)
      → IsSound log r.session
      → IsSound (tried v r log) (step v r).0.session
  unfolding step mail rcpt reset
  step-IsSound log (auths now false username password) r h =
      auth-IsSound log now false username password r h
  step-IsSound log (auths now true username password) r h =
      auth-IsSound log now true username password r h
  step-IsSound log (mails from) r h = SameUser-IsSound log r.session _ (ground arith) h
  step-IsSound log (rcpts to) r h = SameUser-IsSound log r.session _ (ground arith) h
  step-IsSound log (submits body uuids) r h = rw (submit-session body uuids r) h
  step-IsSound log resets r h = SameUser-IsSound log r.session _ (refl, refl, refl) h
  step-IsSound log logouts r h = h

  -- In every reachable session that counts as authenticated, the client has sent, in an AUTH of this
  -- session, the text of a key that was then stored with its hash and not past its expiry, and the
  -- session acts for that key's user, with the key's id.
  pub Reach-IsSound : (log : List Attempt) (r : Relay db) → Reach log r → IsSound log r.session
  Reach-IsSound log r (connected store queue) = inl refl
  Reach-IsSound log r (elsewhere same s store queue h) = Reach-IsSound same s h
  Reach-IsSound log r (did before s v h) = step-IsSound before v s (Reach-IsSound before s h)
