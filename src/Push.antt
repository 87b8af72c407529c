-- ===== src/Push.antt =====
-- internal/push: the fan-out of a notification to the browsers and the devices of its user, with
-- what the two drivers make of an answer. What the push services answer, and whether the drivers
-- are enabled, are arguments. The fan-out runs beside its caller; here it is one step.
pub mod Prune
pub mod Fanout
pub mod Drivers
pub mod Tests
use delivery_api.Base.{
  ℕ, Bool, true, false, ◌&&◌, ◌||◌, not, Option, none, some, List, [], ◌∷◌, Str, codes, ◌==◌, leb,
  if◌then◌else◌, str_eq, is_empty, contains,
}
use delivery_api.Models.{
  Model, WebPushSubscription, DeviceToken, Notification, subscription_model, device_model,
}
use delivery_api.Db.{Table, Database}

-- The two results of a driver.
pub record Sent : Type 0 where
  pub stale : Bool
  pub failed : Bool

pub record WebPush : Type 0 where
  pub public_key : Str
  pub private_key : Str
  pub subject : Str

pub is_enabled : WebPush → Bool
is_enabled w =
    not (is_empty w.public_key) && (not (is_empty w.private_key) && not (is_empty w.subject))

-- What SendWeb makes of the status of the answer, or of an error.
pub send_web : Option ℕ → Sent
send_web none = record { stale = false; failed = true }
send_web (some status) =
    if (status == 404) || (status == 410)
    then record { stale = true; failed = false }
    else if leb 400 status
    then record { stale = false; failed = true }
    else record { stale = false; failed = false }

-- What SendMobile of an enabled driver makes of the error of the client, if any.
pub send_mobile : Option Str → Sent
unfolding contains
send_mobile none = record { stale = false; failed = false }
send_mobile (some text) =
    if contains text (codes "registration-token-not-registered")
      || contains text (codes "invalid-registration-token")
    then record { stale = true; failed = false }
    else record { stale = false; failed = true }

abbrev pub has_id : {Row : Type 0} → Model Row → ℕ → Row → Bool
has_id model n r = model.id r == n

module _ {Row : Type 0} {model : Model Row} (t : Table model) (send : Row → Sent)
    (touch : Row → Row) where
  -- The loop's body for one row.
  abbrev pub deliver_to : Row → t.State → t.State
  deliver_to r s =
      if (send r).stale
      then (t.delete (has_id model (model.id r)) s).0
      else if (send r).failed
      then s
      else (t.update (has_id model (model.id r)) touch s).0

  abbrev pub deliver_all : List Row → t.State → t.State
  deliver_all [] s = s
  deliver_all (r ∷ rs) s = deliver_all rs (deliver_to r s)

abbrev pub used_at : (ℕ → ℕ) → WebPushSubscription → WebPushSubscription
used_at now s = record s { last_used = now s.id }

abbrev pub device_used_at : (ℕ → ℕ) → DeviceToken → DeviceToken
device_used_at now d = record d { last_used = now d.id }

-- What the fan-out takes from outside: the drivers, `none` for one that is missing or disabled, as
-- what they answer for a row; and the clock when the row with an id is delivered to.
pub record Services : Type 0 where
  pub web : Option (WebPushSubscription → Option ℕ)
  pub mobile : Option (DeviceToken → Option Str)
  pub now : ℕ → ℕ

module _ (db : Database) where
  pub record Endpoints : Type 0 where
    pub subscriptions : db.subscriptions.State
    pub devices : db.devices.State

  abbrev pub web_part : Services → Str → db.subscriptions.State → db.subscriptions.State
  web_part services user s = elim services.web [
    | none ↦ s
    | some answer ↦
        deliver_all db.subscriptions (λ r. send_web (answer r)) (used_at services.now)
          (db.subscriptions.find (λ r. str_eq r.user_id user) s) s
  ]

  abbrev pub mobile_part : Services → Str → db.devices.State → db.devices.State
  mobile_part services user s = elim services.mobile [
    | none ↦ s
    | some answer ↦
        deliver_all db.devices (λ r. send_mobile (answer r)) (device_used_at services.now)
          (db.devices.find (λ r. str_eq r.user_id user) s) s
  ]

  -- (*Dispatcher).fanout, for the user of the notification
  unfoldable pub fanout : Services → Str → Endpoints → Endpoints
  unfolding send_web send_mobile str_eq
  fanout services user e = record {
    subscriptions = web_part services user e.subscriptions;
    devices = mobile_part services user e.devices;
  }
