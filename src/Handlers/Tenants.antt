-- ===== src/Handlers/Tenants.antt =====
-- AdminListTenants of internal/handlers/admin.go: the footprint of each user, merged from three
-- aggregates, which the database computes and are arguments. The map is a list with one entry for
-- a user; the order of its iteration and the sort of package sort are one argument.
pub mod Joined
pub mod Ranks
pub mod Tests
use delivery_api.Base.{
  ℕ, ◌/◌, ◌^◌, Bool, true, false, not, Option, none, some, List, [], ◌∷◌, Str, ltb, ◌==◌,
  if◌then◌else◌, str_eq,
}

pub record MsgRow : Type 0 where
  pub user_id : Str
  pub total : ℕ
  pub sent : ℕ
  pub queued : ℕ
  pub failed : ℕ
  pub bounced : ℕ
  pub last_send_at : Option ℕ

pub record CountRow : Type 0 where
  pub user_id : Str
  pub n : ℕ

pub record Tenant : Type 0 where
  pub user_id : Str
  pub messages : ℕ
  pub sent : ℕ
  pub queued : ℕ
  pub failed : ℕ
  pub bounced : ℕ
  pub domains : ℕ
  pub keys : ℕ
  pub last_send_at : Option ℕ

abbrev pub new_tenant : Str → Tenant
new_tenant user = record {
  user_id = user;
  messages = 0;
  sent = 0;
  queued = 0;
  failed = 0;
  bounced = 0;
  domains = 0;
  keys = 0;
  last_send_at = none;
}

-- What is done to the entry of a user, which is made if there is none.
abbrev pub with_tenant : Str → (Tenant → Tenant) → List Tenant → List Tenant
with_tenant user f [] = f (new_tenant user) ∷ []
with_tenant user f (t ∷ ts) =
    let rest = with_tenant user f ts in if str_eq t.user_id user then f t ∷ ts else t ∷ rest

abbrev pub with_messages : MsgRow → Tenant → Tenant
with_messages m t = record t {
  messages = m.total;
  sent = m.sent;
  queued = m.queued;
  failed = m.failed;
  bounced = m.bounced;
  last_send_at = m.last_send_at;
}

abbrev pub with_domains : CountRow → Tenant → Tenant
with_domains c t = record t { domains = c.n }

abbrev pub with_keys : CountRow → Tenant → Tenant
with_keys c t = record t { keys = c.n }

-- One of the three loops.
abbrev pub add_all :
    {Row : Type 0} → (Row → Str) → (Row → Tenant → Tenant) → List Row → List Tenant → List Tenant
add_all user_of set [] ts = ts
add_all user_of set (r ∷ rs) ts = add_all user_of set rs (with_tenant (user_of r) (set r) ts)

pub merged : List MsgRow → List CountRow → List CountRow → List Tenant
unfolding str_eq
merged msgs doms keys =
    add_all (λ (c : CountRow). c.user_id) with_keys keys
      (add_all (λ (c : CountRow). c.user_id) with_domains doms
        (add_all (λ (m : MsgRow). m.user_id) with_messages msgs []))

-- Unix of the time, 0 for none
abbrev pub seconds : Option ℕ → ℕ
seconds none = 0
seconds (some at) = at / 10 ^ 9

-- The order of texts by bytes.
pub precedes : Str → Str → Bool
precedes [] [] = false
precedes [] (b ∷ t) = true
precedes (a ∷ s) [] = false
precedes (a ∷ s) (b ∷ t) = let rest = precedes s t in if a == b then rest else ltb a b

-- The comparison that sort.Slice is given.
pub is_before : Tenant → Tenant → Bool
unfolding precedes
is_before a b =
    if not (a.messages == b.messages)
    then ltb b.messages a.messages
    else if not (seconds a.last_send_at == seconds b.last_send_at)
    then ltb (seconds b.last_send_at) (seconds a.last_send_at)
    else precedes a.user_id b.user_id

pub admin_list_tenants :
    ((Tenant → Tenant → Bool) → List Tenant → List Tenant)
    → List MsgRow
    → List CountRow
    → List CountRow
    → List Tenant
unfolding merged is_before
admin_list_tenants sort msgs doms keys = sort is_before (merged msgs doms keys)
