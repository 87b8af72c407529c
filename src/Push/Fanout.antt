-- ===== src/Push/Fanout.antt =====
-- The fan-out as a whole, on both tables.
use delivery_api.Base.{
  ℕ, ◌<◌, ◌≤◌, ◌≢◌, ◌⊎◌, ◌∙◌, ap, arith, ◌==◌, ==_iff, leb, Bool-cases, str_eq_iff, ◌≡◌, refl, inl,
  inr, Bool, Option, none, some, Str, Option-cases, if◌then◌else◌, str_eq, find_where,
}
use delivery_api.Models.{WebPushSubscription, DeviceToken, subscription_model, device_model}
use delivery_api.Db.{IsLive, Database}
use delivery_api.Push.{
  Sent, has_id, send_web, send_mobile, used_at, device_used_at, Services, Endpoints, fanout,
}
use delivery_api.Push.Prune.{settled, AreDistinct, deliver_all-row}

-- A registration after a fan-out to a user: without a driver, and one of another user, is left.
abbrev pub outcome :
    {Row A : Type 0} → Option (Row → A) → (A → Sent) → (Row → Row) → Bool → Row → Option Row
outcome none send touch own r = some r
outcome (some answer) send touch own r = if own then settled touch r (send (answer r)) else some r

module _ (services : Services) (user : Str) where
  -- What a fan-out makes of a subscription, by the answer of the push service: a status, or none on
  -- an error.
  pub data Fate (r : WebPushSubscription) : Option WebPushSubscription → Type 0 where
    gone :
        (answer : WebPushSubscription → Option ℕ)
        → services.web ≡ some answer
        → r.user_id ≡ user
        → (answer r ≡ some 404) ⊎ (answer r ≡ some 410)
        → Fate r none
    used :
        (answer : WebPushSubscription → Option ℕ) (status : ℕ)
        → services.web ≡ some answer
        → r.user_id ≡ user
        → answer r ≡ some status
        → status < 400
        → Fate r (some (record r { last_used = services.now r.id }))
    unreached :
        (answer : WebPushSubscription → Option ℕ)
        → services.web ≡ some answer
        → r.user_id ≡ user
        → answer r ≡ none
        → Fate r (some r)
    rejected :
        (answer : WebPushSubscription → Option ℕ) (status : ℕ)
        → services.web ≡ some answer
        → r.user_id ≡ user
        → answer r ≡ some status
        → 400 ≤ status
        → status ≢ 404
        → status ≢ 410
        → Fate r (some r)
    foreign : r.user_id ≢ user → Fate r (some r)
    disabled : services.web ≡ none → Fate r (some r)

  settled-Fate :
      (r : WebPushSubscription) (answer : WebPushSubscription → Option ℕ)
      → services.web ≡ some answer
      → r.user_id ≡ user
      → Fate r (settled (used_at services.now) r (send_web (answer r)))
  unfolding send_web
  settled-Fate r answer on own = elim (Option-cases (answer r)) [
    | inl e ↦ rw e (unreached answer on own e)
    | inr (status, e) ↦ elim (Bool-cases (status == 404)) [
      | inl a ↦
          let same = (==_iff status 404).0 a in
          rw (e, a) (gone answer on own (inl (e ∙ ap some same)))
      | inr not_a ↦ elim (Bool-cases (status == 410)) [
        | inl b ↦
            let same = (==_iff status 410).0 b in
            rw (e, not_a, b) (gone answer on own (inr (e ∙ ap some same)))
        | inr not_b ↦ elim (Bool-cases (leb 400 status)) [
          | inl high ↦
              rw (e, not_a, not_b, high)
                (rejected answer status on own e (ground arith) (ground arith) (ground arith))
          | inr low ↦ rw (e, not_a, not_b, low) (used answer status on own e (ground arith))
        ]
      ]
    ]
  ]

  outcome-Fate :
      (r : WebPushSubscription) (web : Option (WebPushSubscription → Option ℕ))
      → services.web ≡ web
      → Fate r (outcome web send_web (used_at services.now) (str_eq r.user_id user) r)
  outcome-Fate r none missing = disabled missing
  outcome-Fate r (some answer) on = elim (Bool-cases (str_eq r.user_id user)) [
    | inl own ↦ rw own (settled-Fate r answer on ((str_eq_iff r.user_id user).0 own))
    | inr apart ↦ rw apart (foreign (ground (arith, str_eq_iff r.user_id user)))
  ]

module _ (db : Database) (services : Services) (user : Str) (e : Endpoints db) where
  subscription-outcome :
      IsLive db.subscriptions
      → (k : ℕ) (r : WebPushSubscription)
      → AreDistinct subscription_model (db.subscriptions.rows e.subscriptions)
      → find_where (has_id subscription_model k) (db.subscriptions.rows e.subscriptions) ≡ some r
      → find_where
          (has_id subscription_model k)
          (db.subscriptions.rows (fanout db services user e).subscriptions)
        ≡ outcome services.web send_web (used_at services.now) (str_eq r.user_id user) r
  unfolding fanout
  subscription-outcome live k r distinct found = elim (Option-cases services.web) [
    | inl off ↦ rw (fanout, off) found
    | inr (answer, on) ↦
        rw (fanout, on)
          (deliver_all-row db.subscriptions live (λ r. send_web (answer r)) (used_at services.now)
            (λ r. refl) (λ r. refl) k (λ r. str_eq r.user_id user) e.subscriptions r distinct found)
  ]

  -- In a table of subscriptions none of whose calls fails and whose ids are distinct, a fan-out
  -- deletes exactly the subscriptions of the user that the push service answers 404 or 410 for,
  -- notes the time of use of those that it answers a status below 400 for, and leaves as they are
  -- those that it answers any other status or an error for, those of other users, and all of them
  -- when the driver is off.
  pub fanout-subscription :
      IsLive db.subscriptions
      → (k : ℕ) (r : WebPushSubscription)
      → AreDistinct subscription_model (db.subscriptions.rows e.subscriptions)
      → find_where (has_id subscription_model k) (db.subscriptions.rows e.subscriptions) ≡ some r
      → Fate services user r (
          find_where
            (has_id subscription_model k)
            (db.subscriptions.rows (fanout db services user e).subscriptions))
  fanout-subscription live k r distinct found =
      rw (subscription-outcome live k r distinct found)
        (outcome-Fate services user r services.web refl)

  -- The same of the devices, which are deleted when the push service does not know their token.
  pub fanout-device :
      IsLive db.devices
      → (k : ℕ) (r : DeviceToken) → AreDistinct device_model (db.devices.rows e.devices)
      → find_where (has_id device_model k) (db.devices.rows e.devices) ≡ some r
      → find_where (has_id device_model k) (db.devices.rows (fanout db services user e).devices)
        ≡ outcome services.mobile send_mobile
            (device_used_at services.now)
            (str_eq r.user_id user)
            r
  unfolding fanout
  fanout-device live k r distinct found = elim (Option-cases services.mobile) [
    | inl off ↦ rw (fanout, off) found
    | inr (answer, on) ↦
        rw (fanout, on)
          (deliver_all-row db.devices live (λ r. send_mobile (answer r))
            (device_used_at services.now) (λ r. refl) (λ r. refl) k (λ r. str_eq r.user_id user)
            e.devices r distinct found)
  ]
