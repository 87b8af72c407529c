-- ===== src/Handlers/Operators/Totals.antt =====
-- What the operators' counts add up to.
use delivery_api.Base.{
  ℕ, suc, ◌+◌, ◌≡◌, ◌≤◌, ◌<◌, ◌^◌, refl, inl, inr, not, is_some, Str, codes, str_eq, str_eq_iff,
  Bool-cases, arith, Bool, true, false, ◌||◌, List, [], ◌∷◌, if◌then◌else◌, count_where,
}
use delivery_api.Models.{Message, MessageStatus, Notification, DeviceToken}
use delivery_api.Db.{Database, Store, IsLive}
use delivery_api.Handlers.Operators.{
  is_sent, is_waiting, is_failed, is_bounced, admin_stats, Bucket, admin_notification_stats,
}

abbrev is_delivered : MessageStatus → Bool
is_delivered MessageStatus.delivered = true
is_delivered _ = false

abbrev is_complained : MessageStatus → Bool
is_complained MessageStatus.complained = true
is_complained _ = false

-- The messages that the four counts leave out.
abbrev pub is_left : Message → Bool
is_left m = is_delivered m.status || is_complained m.status

abbrev bumped : Bool → ℕ → ℕ
bumped b n = if b then suc n else n

-- A message adds one to one of the five.
one_more :
    (st : MessageStatus) (a b c d e : ℕ)
    → suc (a + b + c + d + e)
      ≡ bumped (is_sent st) a
        + bumped (is_waiting st) b
        + bumped (is_failed st) c
        + bumped (is_bounced st) d
        + bumped (is_delivered st || is_complained st) e
one_more MessageStatus.queued a b c d e = omega arith
one_more MessageStatus.sending a b c d e = omega arith
one_more MessageStatus.sent a b c d e = omega arith
one_more MessageStatus.delivered a b c d e = omega arith
one_more MessageStatus.bounced a b c d e = omega arith
one_more MessageStatus.complained a b c d e = omega arith
one_more MessageStatus.failed a b c d e = omega arith

count_where-total :
    (ms : List Message)
    → count_where (λ m. true) ms
      ≡ count_where (λ m. is_sent m.status) ms
        + count_where (λ m. is_waiting m.status) ms
        + count_where (λ m. is_failed m.status) ms
        + count_where (λ m. is_bounced m.status) ms
        + count_where is_left ms
count_where-total [] = omega arith
count_where-total (m ∷ ms) = rw (count_where-total ms) (one_more m.status _ _ _ _ _)

module _ (db : Database) (live : IsLive db.messages) (s : Store db) where
  -- In a table of messages none of whose calls fails, the total is the sum of the four counts and
  -- of the messages that are delivered or complained of, which none of them shows.
  pub admin_stats-total :
      let r = admin_stats db s in
      r.total
      ≡ r.sent + r.queued + r.failed + r.bounced + count_where is_left (db.messages.rows s.messages)
  unfolding admin_stats
  admin_stats-total =
      rw
        (
          live.count_live (λ m. true) s.messages,
          live.count_live (λ m. is_sent m.status) s.messages,
          live.count_live (λ m. is_waiting m.status) s.messages,
          live.count_live (λ m. is_failed m.status) s.messages,
          live.count_live (λ m. is_bounced m.status) s.messages,
        )
        (count_where-total (db.messages.rows s.messages))

count_where-le-true {ℓ} :
    {A : Type ℓ} (p : A → Bool) (xs : List A) → count_where p xs ≤ count_where (λ x. true) xs
count_where-le-true p [] = omega arith
count_where-le-true p (x ∷ xs) = ground (arith, count_where-le-true p xs)

abbrev is_ios : DeviceToken → Bool
is_ios d = str_eq d.platform (codes "ios")

abbrev is_android : DeviceToken → Bool
is_android d = str_eq d.platform (codes "android")

ios-android : (d : DeviceToken) → is_ios d ≡ true → is_android d ≡ false
unfolding str_eq
ios-android d ios = rw ((str_eq_iff d.platform (codes "ios")).0 ios) refl

platforms-le :
    (ds : List DeviceToken)
    → count_where is_ios ds + count_where is_android ds ≤ count_where (λ d. true) ds
platforms-le [] = omega arith
platforms-le (d ∷ ds) = elim (Bool-cases (is_ios d)) [
  | inl ios ↦ rw (ios, ios-android d ios) (omega (arith, platforms-le ds))
  | inr other ↦ rw other (ground (arith, platforms-le ds))
]

-- In tables none of whose calls fails, the notifications that are read and those that are not are
-- all of them, as long as they are fewer than 2^63, and the devices of the two platforms are no more
-- than all devices.
pub admin_notification_stats-total :
    (db : Database) (notes : IsLive db.notifications) (devices : IsLive db.devices)
    (grouped : (Notification → Str) → db.notifications.State → List Bucket) (now : ℕ)
    (ns : db.notifications.State) (ss : db.subscriptions.State) (ds : db.devices.State)
    → let r = admin_notification_stats db grouped now ns ss ds in
      r.total < 2 ^ 63 → (r.read + r.unread ≡ r.total) × (r.ios + r.android ≤ r.device_tokens)
unfolding admin_notification_stats
admin_notification_stats-total db notes devices grouped now ns ss ds few =
    let all = notes.count_live (λ n. true) ns in
    let open_ones = notes.count_live (λ n. not (is_some n.read_at)) ns in
    let fewer =
      count_where-le-true (λ (n : Notification). not (is_some n.read_at))
        (db.notifications.rows ns) in
    let few' : count_where (λ n. true) (db.notifications.rows ns) < 2 ^ 63 = rw all at few in
    (
      rw (all, open_ones) (omega arith),
      rw
          (
            devices.count_live is_ios ds,
            devices.count_live is_android ds,
            devices.count_live (λ d. true) ds,
          )
          (platforms-le (db.devices.rows ds)),
    )
