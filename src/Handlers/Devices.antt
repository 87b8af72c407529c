-- ===== src/Handlers/Devices.antt =====
-- Browsers and devices that are told of notifications: the registrations of
-- internal/handlers/notifications.go. `none` is a body that cannot be decoded.
pub mod Replacing
pub mod Tests
use delivery_api.Base.{
  ℕ, Bool, true, false, not, ◌&&◌, ◌||◌, Option, none, some, Str, codes, if◌then◌else◌, is_empty,
  str_eq, List, [], ◌∷◌,
}
use delivery_api.Models.{WebPushSubscription, DeviceToken}
use delivery_api.Db.{Database}
use delivery_api.Push.{WebPush, is_enabled}
use delivery_api.Handlers.Reply.{Reply, reply, error}

-- VAPIDPublicKey, of the driver if there is one
pub vapid_public_key : Option WebPush → Reply Str
vapid_public_key none = error 503 (codes "web push not configured")
vapid_public_key (some w) =
    if not (is_enabled w)
    then error 503 (codes "web push not configured")
    else reply 200 w.public_key

pub record WebPushSubRequest : Type 0 where
  pub endpoint : Str
  pub p256dh : Str
  pub auth : Str
  pub user_agent : Str

pub record DeviceTokenRequest : Type 0 where
  pub platform : Str
  pub token : Str
  pub app_version : Str

abbrev pub at_endpoint : Str → WebPushSubscription → Bool
at_endpoint endpoint s = str_eq s.endpoint endpoint

abbrev pub with_token : Str → DeviceToken → Bool
with_token token d = str_eq d.token token

abbrev pub new_subscription : ℕ → Str → WebPushSubRequest → WebPushSubscription
new_subscription now user req = record {
  id = 0;
  user_id = user;
  endpoint = req.endpoint;
  p256dh = req.p256dh;
  auth = req.auth;
  user_agent = req.user_agent;
  created_at = now;
  last_used = now;
}

abbrev pub new_device : ℕ → Str → DeviceTokenRequest → DeviceToken
new_device now user req = record {
  id = 0;
  user_id = user;
  platform = req.platform;
  token = req.token;
  app_version = req.app_version;
  created_at = now;
  last_used = now;
}

abbrev pub created_or_error {ℓ} : {A : Type ℓ} → Option A → Reply Bool
created_or_error none = error 500 (codes "save failed")
created_or_error (some row) = reply 201 true

module _ (db : Database) where
  pub register_web_push :
      ℕ
      → Str
      → Option WebPushSubRequest
      → db.subscriptions.State
      → db.subscriptions.State × Reply Bool
  register_web_push now user none s = (
    s,
    if is_empty user
        then error 401 (codes "unauthorized")
        else error 400 (codes "endpoint and keys required"),
  )
  register_web_push now user (some req) s =
      let cleared = (db.subscriptions.delete (at_endpoint req.endpoint) s).0 in
      let made = db.subscriptions.create (new_subscription now user req) cleared in
      if is_empty user
      then (s, error 401 (codes "unauthorized"))
      else if is_empty req.endpoint || (is_empty req.p256dh || is_empty req.auth)
      then (s, error 400 (codes "endpoint and keys required"))
      else (made.0, created_or_error made.1)

  -- UnregisterWebPush, with the endpoint of the body
  pub unregister_web_push :
      Str → Option Str → db.subscriptions.State → db.subscriptions.State × Reply Bool
  unregister_web_push user none s = (
    s,
    if is_empty user
        then error 401 (codes "unauthorized")
        else error 400 (codes "endpoint required"),
  )
  unregister_web_push user (some endpoint) s =
      if is_empty user
      then (s, error 401 (codes "unauthorized"))
      else if is_empty endpoint
      then (s, error 400 (codes "endpoint required"))
      else (
        (db.subscriptions.delete (λ r. str_eq r.user_id user && str_eq r.endpoint endpoint) s).0,
        reply 200 true,
      )

  pub register_device :
      ℕ → Str → Option DeviceTokenRequest → db.devices.State → db.devices.State × Reply Bool
  register_device now user none s = (
    s,
    if is_empty user then error 401 (codes "unauthorized") else error 400 (codes "token required"),
  )
  register_device now user (some req) s =
      let cleared = (db.devices.delete (with_token req.token) s).0 in
      let made = db.devices.create (new_device now user req) cleared in
      if is_empty user
      then (s, error 401 (codes "unauthorized"))
      else if is_empty req.token
      then (s, error 400 (codes "token required"))
      else if not (str_eq req.platform (codes "ios")) && not (str_eq req.platform (codes "android"))
      then (s, error 400 (codes "platform must be ios or android"))
      else (made.0, created_or_error made.1)

  -- UnregisterDevice, with the token of the body
  pub unregister_device : Str → Option Str → db.devices.State → db.devices.State × Reply Bool
  unregister_device user none s = (
    s,
    if is_empty user then error 401 (codes "unauthorized") else error 400 (codes "token required"),
  )
  unregister_device user (some token) s =
      if is_empty user
      then (s, error 401 (codes "unauthorized"))
      else if is_empty token
      then (s, error 400 (codes "token required"))
      else (
        (db.devices.delete (λ r. str_eq r.user_id user && str_eq r.token token) s).0,
        reply 200 true,
      )

  -- A call of one of the handlers of subscriptions: who calls it, when, and its body.
  pub data Call : Type 0 where
    register : ℕ → Str → Option WebPushSubRequest → Call
    unregister : Str → Option Str → Call

  abbrev pub serve : Call → db.subscriptions.State → db.subscriptions.State
  serve (register now user body) s = (register_web_push now user body s).0
  serve (unregister user body) s = (unregister_web_push user body s).0

  abbrev pub serve_all : List Call → db.subscriptions.State → db.subscriptions.State
  serve_all [] s = s
  serve_all (c ∷ cs) s = serve_all cs (serve c s)
