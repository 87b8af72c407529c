-- ===== src/Handlers/Devices/Replacing.antt =====
-- One endpoint is one registration.
use delivery_api.Base.{
  ℕ, ◌≤◌, ◌≡◌, ◌⊎◌, append-nil, refl, sym, ◌∙◌, ap, inl, inr, arith, Bool, true, false, ◌&&◌, ◌||◌,
  none, some, List, [], ◌∷◌, ◌++◌, Str, Bool-cases, is_empty, str_eq, str_eq_iff, str_eq_refl,
  select, reject, count_where, count_where-append, count_where-reject, select-reject,
}
use delivery_api.Models.{WebPushSubscription, subscription_model, Generated}
use delivery_api.Db.{IsLive, Database}
use delivery_api.Handlers.Reply.{reply}
use delivery_api.Handlers.Devices.{
  WebPushSubRequest, at_endpoint, new_subscription, register_web_push, unregister_web_push, Call,
  serve, serve_all,
}

count_where-reject_le :
    {A : Type 0} (p q : A → Bool) (xs : List A) → count_where p (reject q xs) ≤ count_where p xs
count_where-reject_le p q [] = omega arith
count_where-reject_le p q (x ∷ xs) = ground (arith, count_where-reject_le p q xs)

select-append :
    {A : Type 0} (p : A → Bool) (xs ys : List A) → select p (xs ++ ys) ≡ select p xs ++ select p ys
select-append p [] ys = refl
select-append p (x ∷ xs) ys = elim (Bool-cases (p x)) [
  | inl hit ↦ rw hit (ap (x ∷◌) (select-append p xs ys))
  | inr miss ↦ rw miss (select-append p xs ys)
]

select-reject_same : {A : Type 0} (p : A → Bool) (xs : List A) → select p (reject p xs) ≡ []
select-reject_same p [] = refl
select-reject_same p (x ∷ xs) = elim (Bool-cases (p x)) [
  | inl hit ↦ rw hit (select-reject_same p xs)
  | inr miss ↦ rw (miss, miss) (select-reject_same p xs)
]

module _ (db : Database) (live : IsLive db.subscriptions) where
  abbrev is_complete : WebPushSubRequest → Bool
  is_complete req = is_empty req.endpoint || (is_empty req.p256dh || is_empty req.auth)

  registered-rows :
      (now : ℕ) (user : Str) (req : WebPushSubRequest) (s : db.subscriptions.State)
      → is_empty user ≡ false
      → is_complete req ≡ false
      → (g : Generated) × ((register_web_push db now user (some req) s).1 ≡ reply 201 true)
        × (db.subscriptions.rows (register_web_push db now user (some req) s).0
            ≡ reject (at_endpoint req.endpoint) (db.subscriptions.rows s)
              ++ subscription_model.fill g (new_subscription now user req) ∷ [])
  unfolding register_web_push
  registered-rows now user req s named complete =
      let p = at_endpoint req.endpoint in
      let cleared = (db.subscriptions.delete p s).0 in
      let (g, made, rows, above) = live.create_live (new_subscription now user req) cleared in
      let (_, left) = live.delete_live p s in
      (
        g,
        rw (register_web_push, named, complete, made) refl,
        rw (register_web_push, named, complete, rows, left) refl,
      )

  -- In a table of subscriptions none of whose calls fails, a complete request of a caller leaves
  -- exactly one subscription for its endpoint, which is the caller's, and those of every other
  -- endpoint as they were.
  pub register_web_push-select :
      (now : ℕ) (user : Str) (req : WebPushSubRequest) (s : db.subscriptions.State)
      → is_empty user ≡ false
      → (is_empty req.endpoint || (is_empty req.p256dh || is_empty req.auth)) ≡ false
      → (other : Str)
      → let after = db.subscriptions.rows (register_web_push db now user (some req) s).0 in
        ((r : WebPushSubscription) × (select (at_endpoint req.endpoint) after ≡ r ∷ [])
          × (r.user_id ≡ user))
        × ((str_eq req.endpoint other ≡ true)
            ⊎ (select (at_endpoint other) after
                ≡ select (at_endpoint other) (db.subscriptions.rows s)))
  register_web_push-select now user req s named complete other =
      let (g, answer, rows) = registered-rows now user req s named complete in
      let p = at_endpoint req.endpoint in
      let row = subscription_model.fill g (new_subscription now user req) in
      let old = db.subscriptions.rows s in
      (
        (
          row,
          rw
              (
                rows,
                select-append p (reject p old) (row ∷ []),
                select-reject_same p old,
                str_eq_refl req.endpoint,
              )
              refl,
          refl,
        ),
        elim (Bool-cases (str_eq req.endpoint other)) [
          | inl same ↦ inl same
          | inr apart ↦ inr (
              rw (rows, select-append (at_endpoint other) (reject p old) (row ∷ []), apart)
                (append-nil _
                  ∙ select-reject p (at_endpoint other)
                      (λ a e. ground (arith, str_eq_iff a.endpoint req.endpoint)) old))
        ],
      )

  abbrev IsSingle : db.subscriptions.State → Str → Type 0
  IsSingle s e = count_where (at_endpoint e) (db.subscriptions.rows s) ≤ 1

  register-IsSingle :
      (now : ℕ) (user : Str) (req : WebPushSubRequest) (s : db.subscriptions.State)
      → ((e : Str) → IsSingle s e)
      → (e : Str) → IsSingle (register_web_push db now user (some req) s).0 e
  unfolding register_web_push
  register-IsSingle now user req s h e = elim (Bool-cases (is_empty user)) [
    | inl bare ↦ rw (register_web_push, bare) (h e)
    | inr named ↦ elim (Bool-cases (is_complete req)) [
      | inl short ↦ rw (register_web_push, named, short) (h e)
      | inr complete ↦
          let (g, answer, rows) = registered-rows now user req s named complete in
          let p = at_endpoint req.endpoint in
          let row = subscription_model.fill g (new_subscription now user req) in
          let old = db.subscriptions.rows s in
          rw (rows, count_where-append (at_endpoint e) (reject p old) (row ∷ []))
            (elim (Bool-cases (str_eq req.endpoint e)) [
              | inl same ↦
                  let its = (str_eq_iff req.endpoint e).0 same in
                  rw (same, sym its, count_where-reject p old) (omega arith)
              | inr apart ↦
                  rw apart (omega (arith, count_where-reject_le (at_endpoint e) p old, h e))
            ])
    ]
  ]

  unregister-IsSingle :
      (user endpoint : Str) (s : db.subscriptions.State)
      → ((e : Str) → IsSingle s e)
      → (e : Str) → IsSingle (unregister_web_push db user (some endpoint) s).0 e
  unfolding unregister_web_push
  unregister-IsSingle user endpoint s h e = elim (Bool-cases (is_empty user)) [
    | inl bare ↦ rw (unregister_web_push, bare) (h e)
    | inr named ↦ elim (Bool-cases (is_empty endpoint)) [
      | inl short ↦ rw (unregister_web_push, named, short) (h e)
      | inr complete ↦
          let q =
            λ (r : WebPushSubscription). str_eq r.user_id user && str_eq r.endpoint endpoint in
          rw (unregister_web_push, named, complete, (live.delete_live q s).1)
            (omega (arith, count_where-reject_le (at_endpoint e) q (db.subscriptions.rows s), h e))
    ]
  ]

  serve-IsSingle :
      (c : Call db) (s : db.subscriptions.State)
      → ((e : Str) → IsSingle s e)
      → (e : Str) → IsSingle (serve db c s) e
  unfolding register_web_push unregister_web_push
  serve-IsSingle (Call.register now user none) s h e = h e
  serve-IsSingle (Call.register now user (some req)) s h e = register-IsSingle now user req s h e
  serve-IsSingle (Call.unregister user none) s h e = h e
  serve-IsSingle (Call.unregister user (some endpoint)) s h e =
      unregister-IsSingle user endpoint s h e

  -- In a table of subscriptions none of whose calls fails and that has no endpoint twice, no
  -- sequence of registrations and their removals, by whatever users, makes an endpoint stand twice.
  pub serve_all-count_where :
      (cs : List (Call db)) (s : db.subscriptions.State)
      → ((e : Str) → count_where (at_endpoint e) (db.subscriptions.rows s) ≤ 1)
      → (e : Str) → count_where (at_endpoint e) (db.subscriptions.rows (serve_all db cs s)) ≤ 1
  serve_all-count_where [] s h e = h e
  serve_all-count_where (c ∷ cs) s h e =
      serve_all-count_where cs (serve db c s) (serve-IsSingle c s h) e
