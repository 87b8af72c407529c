-- ===== src/Handlers/Tenants/Joined.antt =====
-- The merge as an outer join of the three aggregates.
use delivery_api.Base.{
  ℕ, ◌≡◌, refl, ◌∙◌, ap, inl, inr, arith, Bool, true, false, Option, none, some, get_or, List, [],
  ◌∷◌, Str, Bool-cases, Option-cases, if◌then◌else◌, str_eq, str_eq_iff, find_where,
}
use delivery_api.Handlers.Tenants.{
  MsgRow, CountRow, Tenant, new_tenant, with_tenant, with_messages, with_domains, with_keys,
  add_all, merged,
}

abbrev pub tenant_at : Str → List Tenant → Option Tenant
tenant_at user = find_where (λ t. str_eq t.user_id user)

-- The last row of a user.
abbrev pub last_of : {Row : Type 0} → (Row → Str) → Str → List Row → Option Row
last_of user_of user [] = none
last_of user_of user (r ∷ rs) = elim (last_of user_of user rs) [
  | some later ↦ some later
  | none ↦ if str_eq (user_of r) user then some r else none
]

-- The entry with a row's members, if there is a row.
abbrev pub joined :
    {Row : Type 0} → (Row → Tenant → Tenant) → Str → Option Row → Option Tenant → Option Tenant
joined set user none t = t
joined set user (some r) t = some (set r (get_or t (new_tenant user)))

tenant_at-first :
    (user : Str) (t : Tenant) (ts : List Tenant) (b : Bool)
    → str_eq t.user_id user ≡ b
    → tenant_at user (t ∷ ts) ≡ (if b then some t else tenant_at user ts)
tenant_at-first user t ts b h = ap (λ c. if c then some t else tenant_at user ts) h

tenant_at-with_tenant :
    (key user : Str) (f : Tenant → Tenant)
    → ((t : Tenant) → (f t).user_id ≡ t.user_id)
    → (ts : List Tenant)
    → tenant_at user (with_tenant key f ts) ≡ (
        if str_eq key user
        then some (f (get_or (tenant_at user ts) (new_tenant user)))
        else tenant_at user ts)
tenant_at-with_tenant key user f same [] =
    let its = ap (λ u. str_eq u user) (same (new_tenant key)) in
    elim (Bool-cases (str_eq key user)) [
      | inl own ↦
          let e = (str_eq_iff key user).0 own in
          rw own (
            tenant_at-first user (f (new_tenant key)) [] true (its ∙ own)
            ∙ ap (λ u. some (f (new_tenant u))) e)
      | inr other ↦ rw other (tenant_at-first user (f (new_tenant key)) [] false (its ∙ other))
    ]
tenant_at-with_tenant key user f same (t ∷ ts) = elim (Bool-cases (str_eq t.user_id key)) [
  | inl hit ↦
      let at_t : str_eq t.user_id user ≡ str_eq key user =
        ap (λ u. str_eq u user) ((str_eq_iff t.user_id key).0 hit) in
      let at_f = ap (λ u. str_eq u user) (same t) ∙ at_t in
      elim (Bool-cases (str_eq key user)) [
        | inl own ↦ rw (hit, at_t ∙ own, own) (tenant_at-first user (f t) ts true (at_f ∙ own))
        | inr other ↦
            rw (hit, at_t ∙ other, other) (tenant_at-first user (f t) ts false (at_f ∙ other))
      ]
  | inr miss ↦ elim (Bool-cases (str_eq t.user_id user)) [
    | inr no_match ↦ rw (miss, no_match) (tenant_at-with_tenant key user f same ts)
    | inl own ↦ elim (Bool-cases (str_eq key user)) [
      | inr other ↦ rw (miss, own, other) refl
      | inl both ↦
          absurd (
            ground
              (arith, str_eq_iff t.user_id user, str_eq_iff key user, str_eq_iff t.user_id key))
    ]
  ]
]

module _ {Row : Type 0} (user_of : Row → Str) (set : Row → Tenant → Tenant)
    (same : (r : Row) (t : Tenant) → (set r t).user_id ≡ t.user_id)
    (last : (r r' : Row) (t : Tenant) → set r (set r' t) ≡ set r t) (user : Str) where
  tenant_at-add_all :
      (rs : List Row) (ts : List Tenant)
      → tenant_at user (add_all user_of set rs ts)
        ≡ joined set user (last_of user_of user rs) (tenant_at user ts)
  tenant_at-add_all [] ts = refl
  tenant_at-add_all (r ∷ rs) ts =
      let rest = tenant_at-add_all rs (with_tenant (user_of r) (set r) ts) in
      let made = tenant_at-with_tenant (user_of r) user (set r) (same r) ts in
      elim (Option-cases (last_of user_of user rs)) [
        | inl none_later ↦ elim (Bool-cases (str_eq (user_of r) user)) [
          | inl own ↦ rest ∙ rw (none_later, own) (made ∙ rw own refl)
          | inr other ↦ rest ∙ rw (none_later, other) (made ∙ rw other refl)
        ]
        | inr (l, later) ↦
            rest
            ∙ rw later (elim (Bool-cases (str_eq (user_of r) user)) [
              | inl own ↦
                  let old = get_or (tenant_at user ts) (new_tenant user) in
                  let now : tenant_at user (with_tenant (user_of r) (set r) ts) ≡ some (set r old) =
                    made ∙ rw own refl in
                  rw now (ap some (last l r old))
              | inr other ↦
                  let now : tenant_at user (with_tenant (user_of r) (set r) ts)
                      ≡ tenant_at user ts =
                    made ∙ rw other refl in
                  rw now refl
            ])
      ]

joined_all :
    (msgs : List MsgRow) (doms keys : List CountRow) (user : Str)
    → tenant_at user (merged msgs doms keys)
      ≡ joined with_keys user (last_of (λ c. c.user_id) user keys) (
          joined with_domains user
            (last_of (λ c. c.user_id) user doms)
            (joined with_messages user (last_of (λ m. m.user_id) user msgs) none))
unfolding merged
joined_all msgs doms keys user =
    let m = add_all (λ (m : MsgRow). m.user_id) with_messages msgs [] in
    let d = add_all (λ (c : CountRow). c.user_id) with_domains doms m in
    tenant_at-add_all (λ (c : CountRow). c.user_id) with_keys (λ r t. refl) (λ r r' t. refl) user
      keys d
    ∙ ap (joined with_keys user (last_of (λ c. c.user_id) user keys)) (
        tenant_at-add_all (λ (c : CountRow). c.user_id) with_domains (λ r t. refl) (λ r r' t. refl)
          user doms m
        ∙ ap (joined with_domains user (last_of (λ c. c.user_id) user doms)) (
            tenant_at-add_all (λ (m : MsgRow). m.user_id) with_messages (λ r t. refl)
              (λ r r' t. refl) user msgs []))

-- A column of a row, 0 without a row.
abbrev pub amount : {Row : Type 0} → (Row → ℕ) → Option Row → ℕ
amount column none = 0
amount column (some r) = column r

abbrev pub footprint : Str → Option MsgRow → Option CountRow → Option CountRow → Option Tenant
footprint user none none none = none
footprint user m d k = some (record {
  user_id = user;
  messages = amount (λ r. r.total) m;
  sent = amount (λ r. r.sent) m;
  queued = amount (λ r. r.queued) m;
  failed = amount (λ r. r.failed) m;
  bounced = amount (λ r. r.bounced) m;
  domains = amount (λ r. r.n) d;
  keys = amount (λ r. r.n) k;
  last_send_at = elim m [ none ↦ none | some r ↦ r.last_send_at ];
})

joined-footprint :
    (user : Str) (m : Option MsgRow) (d k : Option CountRow)
    → joined with_keys user k (joined with_domains user d (joined with_messages user m none))
      ≡ footprint user m d k
joined-footprint user none none none = refl
joined-footprint user none none (some k) = refl
joined-footprint user none (some d) none = refl
joined-footprint user none (some d) (some k) = refl
joined-footprint user (some m) none none = refl
joined-footprint user (some m) none (some k) = refl
joined-footprint user (some m) (some d) none = refl
joined-footprint user (some m) (some d) (some k) = refl

-- The entry of a user in the merge has the counts of that user's last row in each of the three
-- aggregates, each under its own name, and zero where there is no row; a user without a row in any
-- of them has no entry.
pub tenant_at-merged :
    (msgs : List MsgRow) (doms keys : List CountRow) (user : Str)
    → tenant_at user (merged msgs doms keys)
      ≡ footprint user
          (last_of (λ m. m.user_id) user msgs)
          (last_of (λ c. c.user_id) user doms)
          (last_of (λ c. c.user_id) user keys)
tenant_at-merged msgs doms keys user = joined_all msgs doms keys user ∙ joined-footprint user _ _ _
