-- ===== src/Smtp/Relay/Submission.antt =====
-- What DATA queues.
use delivery_api.Base.{
  ℕ, ◌+◌, ◌<◌, find_where, ◌≡◌, ◌≢◌, refl, ◌⊎◌, inl, inr, true, not, Option, none, some,
  Option-cases, Bool-cases, List, [], ◌∷◌, ◌++◌, append_assoc, append-nil, sym, ap, ◌∙◌, map, Str,
  arith, All, str_eq_iff,
}
use delivery_api.Models.{Generated, message_model, Message, queued, SendingDomain, verified}
use delivery_api.Db.{Database, first_sound}
use delivery_api.Queue.{enqueue, by_id}
use delivery_api.Queue.Delivery.{find_where-by_id}
use delivery_api.Smtp.Relay.{
  Session, RelayError, Relay, relayed, usable_domain, domain_of, queue_all, queue_row, submit,
}

-- A row for a recipient of the session's message.
pub record IsRelayed (s : Session) (d : SendingDomain) (raw : Str) (m : Message) : Type 0 where
  pub user : m.user_id ≡ s.user_id
  pub key : m.api_key_id ≡ s.api_key_id
  pub domain : m.domain_id ≡ d.id
  pub from : m.from_email ≡ s.from
  pub body : m.html_body ≡ some raw
  pub status : m.status ≡ queued

module _ (db : Database) where
  -- What a call that starts in `r` and ends in `done` has queued: rows for the first recipients, in
  -- their order, and for all of them if it returned no error; each row is found by its id.
  pub record Queues (d : SendingDomain) (raw : Str) (to : List Str) (r : Relay db)
      (done : Relay db × Option RelayError) : Type 0 where
    pub made : List Message
    pub left : List Str
    pub rows : db.messages.rows done.0.store.messages ≡ db.messages.rows r.store.messages ++ made
    pub pending : done.0.queue.pending ≡ r.queue.pending ++ map (λ m. m.id) made
    pub order : map (λ m. m.to_email) made ++ left ≡ to
    pub complete : (done.1 ≢ none) ⊎ (left ≡ [])
    pub each : All (IsRelayed r.session d raw) made
    pub found :
        All (λ m. find_where (by_id db m.id) (db.messages.rows done.0.store.messages) ≡ some m) made

  Queues-cons :
      (d : SendingDomain) (subject raw uuid t : Str) (to : List Str) (r : Relay db)
      (messages : db.messages.State) (g : Generated) (done : Relay db × Option RelayError)
      → let row = message_model.fill g (relayed db r.session d subject raw uuid t) in
        db.messages.rows messages ≡ db.messages.rows r.store.messages ++ row ∷ []
        → All (λ old. old.id < row.id) (db.messages.rows r.store.messages)
        → Queues d raw to (queue_row db messages row r) done
        → Queues d raw (t ∷ to) r done
  unfolding enqueue
  Queues-cons d subject raw uuid t to r messages g done grown fresh q =
      let before = db.messages.rows r.store.messages in
      let row = message_model.fill g (relayed db r.session d subject raw uuid t) in
      let rows : db.messages.rows done.0.store.messages ≡ before ++ row ∷ q.made =
        q.rows ∙ rw grown (append_assoc before (row ∷ []) q.made) in
      record {
        made = row ∷ q.made;
        left = q.left;
        rows = rows;
        pending = q.pending ∙ append_assoc r.queue.pending (g.id ∷ []) (map (λ m. m.id) q.made);
        order = ap (t ∷◌) q.order;
        complete = q.complete;
        each = (
          record {
            user = refl;
            key = refl;
            domain = refl;
            from = refl;
            body = refl;
            status = refl;
          },
          q.each,
        );
        found = (
          ap (find_where (by_id db row.id)) rows ∙ find_where-by_id db row before q.made fresh,
          q.found,
        );
      }

  pub usable_domain_sound :
      (name user : Str) (d : SendingDomain)
      → usable_domain db name user d ≡ true
      → (d.domain ≡ name) × (d.user_id ≡ user) × (d.status ≡ verified)
  usable_domain_sound name user d h =
      ground (arith, str_eq_iff d.domain name, str_eq_iff d.user_id user)

  pub queue_all-Queues :
      (d : SendingDomain) (subject raw : Str) (uuids : ℕ → Str) (n : ℕ) (to : List Str)
      (r : Relay db)
      → Queues d raw to r (queue_all db d subject raw uuids n to r)
  unfolding queue_all
  queue_all-Queues d subject raw uuids n [] r = record {
    made = [];
    left = [];
    rows = sym (append-nil _);
    pending = sym (append-nil _);
    order = refl;
    complete = inr refl;
    each = tt;
    found = tt;
  }
  queue_all-Queues d subject raw uuids n (t ∷ to) r =
      elim (db.messages.create_law (relayed db r.session d subject raw (uuids n) t)
        r.store.messages) [
          | inl (e, same) ↦
              rw (e, queue_all)
                (record {
                  made = [];
                  left = t ∷ to;
                  rows = same ∙ sym (append-nil _);
                  pending = sym (append-nil _);
                  order = refl;
                  complete = inl (λ e. cc);
                  each = tt;
                  found = tt;
                })
          | inr (g, e, grown, fresh) ↦
              rw (e, queue_all)
                (Queues-cons d subject raw (uuids n) t to r _ _ _ grown fresh
                  (queue_all-Queues d subject raw uuids (n + 1) to _))
        ]

  -- DATA succeeds only in an authenticated session, with a verified domain that the session's user
  -- owns and that is the sender's; it queues one message for each recipient, in order. On an error
  -- it has queued messages for the first recipients alone, or none.
  pub submit-Queues :
      (body : Option Str) (uuids : ℕ → Str) (r : Relay db)
      → ((submit db body uuids r).0 ≡ r) × ((submit db body uuids r).1 ≢ none)
        ⊎ ((raw : Str) × (d : SendingDomain) × (body ≡ some raw)
            × (r.session.authenticated ≡ true)
            × (d.domain ≡ domain_of r.session.from)
            × (d.user_id ≡ r.session.user_id)
            × (d.status ≡ verified)
            × Queues d raw r.session.to r (submit db body uuids r))
  unfolding submit
  submit-Queues body uuids r = elim (Bool-cases (not r.session.authenticated)) [
    | inl locked ↦ inl (rw locked (refl, λ e. cc))
    | inr free ↦ elim (Option-cases body) [
      | inl e ↦ inl (rw (free, e) (refl, λ e. cc))
      | inr (raw, e) ↦
          let usable = usable_domain db (domain_of r.session.from) r.session.user_id in
          elim (Option-cases (db.domains.first usable r.store.domains)) [
            | inl missed ↦ inl (rw (free, e, missed) (refl, λ e. cc))
            | inr (d, found) ↦
                let (name, user, status) =
                  usable_domain_sound _ _ d
                    (first_sound db.domains usable r.store.domains d found) in
                inr (
                  raw,
                  d,
                  e,
                  ground arith,
                  name,
                  user,
                  status,
                  rw (free, e, found) (queue_all-Queues d _ raw uuids 0 r.session.to r),
                )
          ]
    ]
  ]
