-- ===== src/Smtp/Relay/Journey.antt =====
-- A message from DATA through the queue to the mail servers.
use delivery_api.Base.{
  ℕ, ◌+◌, sym, append-nil, codes, ◌≡◌, ◌⊎◌, inl, inr, ◌∙◌, refl, ap, ◌↔◌, true, false, none, some,
  List, [], ◌∷◌, ◌++◌, map, Str, find_where, All,
}
use delivery_api.Models.{SendingDomain, Message, sent, failed}
use delivery_api.Db.{Database, IsLive}
use delivery_api.Smtp.Sender.{Network, send}
use delivery_api.Queue.{Worker, Env, process, rate_limit, is_raw, raw_message}
use delivery_api.Queue.Raw.{raw_message_whole}
use delivery_api.Queue.Outcomes.{message_at}
use delivery_api.Queue.Delivery.{with_sender, rate_limit-enqueue, process_final}
use delivery_api.Smtp.Relay.{
  Session, Relay, relayed, usable_domain, domain_of, extract_header, queue_all, submit,
}
use delivery_api.Smtp.Relay.Submission.{IsRelayed, queue_all-Queues}

module _ (db : Database) (live : IsLive db.messages) where
  queue_all_succeeds :
      (d : SendingDomain) (subject raw : Str) (uuids : ℕ → Str) (n : ℕ) (to : List Str)
      (r : Relay db)
      → (queue_all db d subject raw uuids n to r).1 ≡ none
  unfolding queue_all
  queue_all_succeeds d subject raw uuids n [] r = refl
  queue_all_succeeds d subject raw uuids n (t ∷ to) r =
      let (g, made, _, _) =
        live.create_live (relayed db r.session d subject raw (uuids n) t) r.store.messages in
      rw (queue_all, made) (queue_all_succeeds d subject raw uuids (n + 1) to _)

  rate_limit-queue_all :
      (d : SendingDomain) (subject raw : Str) (uuids : ℕ → Str) (n : ℕ) (to : List Str)
      (r : Relay db) (now : ℕ)
      → (rate_limit now (queue_all db d subject raw uuids n to r).0.queue).1
        ≡ (rate_limit now r.queue).1
  unfolding queue_all
  rate_limit-queue_all d subject raw uuids n [] r now = refl
  rate_limit-queue_all d subject raw uuids n (t ∷ to) r now =
      let (g, made, _, _) =
        live.create_live (relayed db r.session d subject raw (uuids n) t) r.store.messages in
      rw (queue_all, made)
        (rate_limit-queue_all d subject raw uuids (n + 1) to _ now
          ∙ rate_limit-enqueue now g.id r.queue)

  -- After the next call of process the row of the message is sent or failed, as the sender reports.
  abbrev pub IsDelivered : Network → Env → Worker db → Str → Str → Message → Type 0
  IsDelivered net env w from raw m =
      (m' : Message) × (message_at db m.id (process db (with_sender net env) m.id w).0 ≡ some m')
      × ((m'.status ≡ sent) ⊎ (m'.status ≡ failed))
      × ((m'.status ≡ sent) ↔ (send net from m.to_email raw ≡ none))

  IsRelayed-IsDelivered :
      (net : Network) (env : Env) (s : Session) (d : SendingDomain) (raw : Str) (w : Worker db)
      (m : Message)
      → (rate_limit env.now w.queue).1 ≡ false
      → is_raw raw ≡ true
      → IsRelayed s d raw m
      → message_at db m.id w ≡ some m
      → IsDelivered net env w s.from raw m
  IsRelayed-IsDelivered net env s d raw w m open_limit whole q here =
      let body : raw_message (with_sender net env) m ≡ raw =
        raw_message_whole (with_sender net env) m (rw q.body whole) ∙ rw q.body refl in
      let (m', found, final, sent_iff) =
        process_final db live net env m.id w m here (rw q.status refl) open_limit in
      let same : send net m.from_email m.to_email (raw_message (with_sender net env) m)
          ≡ send net s.from m.to_email raw =
        ap (λ from. send net from m.to_email (raw_message (with_sender net env) m)) q.from
        ∙ ap (send net s.from m.to_email) body in
      (m', found, final, (λ e. sym same ∙ sent_iff.0 e, λ e. sent_iff.1 (same ∙ e)))

  AreDelivered :
      (net : Network) (env : Env) (s : Session) (d : SendingDomain) (raw : Str) (w : Worker db)
      (ms : List Message)
      → (rate_limit env.now w.queue).1 ≡ false
      → is_raw raw ≡ true
      → All (IsRelayed s d raw) ms
      → All (λ m. message_at db m.id w ≡ some m) ms
      → All (IsDelivered net env w s.from raw) ms
  AreDelivered net env s d raw w [] _ whole _ _ = tt
  AreDelivered net env s d raw w (m ∷ ms) open_limit whole (q, qs) (here, found) = (
    IsRelayed-IsDelivered net env s d raw w m open_limit whole q here,
    AreDelivered net env s d raw w ms open_limit whole qs found,
  )

  -- In a database none of whose calls fails, DATA with a body that the worker takes for a whole
  -- message (it starts with "From:", "DKIM-", "Received:" or "MIME-Version:") succeeds in an
  -- authenticated session whose sender's domain is found, verified and the user's. It queues one
  -- message for each recipient, in their order. If the next call of process is for one of them and
  -- the rate limit lets it, the row is then sent exactly if Send reports no error for the session's
  -- sender, that recipient and the unchanged body, which Send signs itself; else it is failed.
  pub submit-process :
      IsLive db.domains
      → (raw : Str) (uuids : ℕ → Str) (r : Relay db) (d : SendingDomain) (net : Network) (env : Env)
      → r.session.authenticated ≡ true
      → find_where
          (usable_domain db (domain_of r.session.from) r.session.user_id)
          (db.domains.rows r.store.domains)
        ≡ some d
      → is_raw raw ≡ true
      → (rate_limit env.now r.queue).1 ≡ false
      → let (r', err) = submit db (some raw) uuids r in
        (err ≡ none)
        × ((made : List Message) × (map (λ m. m.to_email) made ≡ r.session.to)
            × (r'.queue.pending ≡ r.queue.pending ++ map (λ m. m.id) made)
            × All
                (IsDelivered net env
                  (record { store = r'.store; queue = r'.queue })
                  r.session.from
                  raw)
                made)
  unfolding submit
  submit-process domains raw uuids r d net env signed_in usable whole open_limit =
      let subject = extract_header raw (codes "Subject") in
      let q = queue_all-Queues db d subject raw uuids 0 r.session.to r in
      let err = queue_all_succeeds d subject raw uuids 0 r.session.to r in
      let query = usable_domain db (domain_of r.session.from) r.session.user_id in
      let found = domains.first_live query r.store.domains ∙ usable in
      let whole_list : q.left ≡ [] = elim q.complete [ inl bad ↦ absurd (bad err) | inr e ↦ e ] in
      let done = (queue_all db d subject raw uuids 0 r.session.to r).0 in
      rw (signed_in, found)
        (
          err,
          (
            q.made,
            sym (append-nil _) ∙ rw whole_list at q.order,
            q.pending,
            AreDelivered net env r.session d raw (record { store = done.store; queue = done.queue })
                q.made
                (rate_limit-queue_all d subject raw uuids 0 r.session.to r env.now ∙ open_limit)
                whole q.each q.found,
          ),
        )
