-- ===== src/Push/Drivers.antt =====
-- web.go, fcm.go and New of internal/push: what the two drivers send, and the services that the
-- dispatcher has. The libraries of the two services are arguments.
use delivery_api.Base.{
  ℕ, ◌≡◌, refl, Bool, false, Option, none, some, List, [], ◌∷◌, Str, codes, is_empty, if◌then◌else◌,
}
use delivery_api.Models.{WebPushSubscription, DeviceToken, Notification}
use delivery_api.Db.{Database}
use delivery_api.Push.{WebPush, is_enabled, Services, Endpoints, fanout}

-- What SendWeb hands to SendNotification.
pub record WebRequest : Type 0 where
  pub endpoint : Str
  pub p256dh : Str
  pub auth : Str
  pub payload : Str
  pub subscriber : Str
  pub vapid_public_key : Str
  pub vapid_private_key : Str
  pub ttl : ℕ

pub web_request : WebPush → WebPushSubscription → Str → WebRequest
web_request w sub payload = record {
  endpoint = sub.endpoint;
  p256dh = sub.p256dh;
  auth = sub.auth;
  payload = payload;
  subscriber = w.subject;
  vapid_public_key = w.public_key;
  vapid_private_key = w.private_key;
  ttl = 60;
}

-- What SendMobile hands to Send.
pub record MobileMessage : Type 0 where
  pub token : Str
  pub title : Str
  pub body : Str
  pub members : List (Str × Str)

pub mobile_message : DeviceToken → Notification → MobileMessage
mobile_message token n = record {
  token = token.token;
  title = n.title;
  body = n.body;
  members =
      (codes "id", n.external_id)
      ∷ (codes "type", n.type)
      ∷ (codes "source", n.source)
      ∷ (codes "link", n.link)
      ∷ [];
}

-- NewFCM; `make_client` says whether NewApp and Messaging make a client of the credentials.
pub new_fcm : (Str → Bool) → Str → Bool
new_fcm make_client credentials = if is_empty credentials then false else make_client credentials

-- The libraries: the status or the error of SendNotification, and the error of Send, if any.
pub record Libraries : Type 0 where
  pub make_client : Str → Bool
  pub post : WebRequest → Option ℕ
  pub push : MobileMessage → Option Str
  pub now : ℕ → ℕ

-- The drivers of a dispatcher as its fan-out of a notification uses them.
pub services : Libraries → WebPush → Str → Notification → Str → Services
unfolding is_enabled web_request mobile_message new_fcm
services lib w credentials n payload = record {
  web = if is_enabled w then some (λ sub. lib.post (web_request w sub payload)) else none;
  mobile =
      if new_fcm lib.make_client credentials
      then some (λ token. lib.push (mobile_message token n))
      else none;
  now = lib.now;
}

-- Send, as its goroutine runs
pub dispatch :
    (db : Database) → Libraries → WebPush → Str → Notification → Str → Endpoints db → Endpoints db
unfolding services fanout
dispatch db lib w credentials n payload e =
    fanout db (services lib w credentials n payload) n.user_id e

-- With a key of VAPID missing, and without credentials of Firebase that make a client, a
-- notification changes no registration.
pub dispatch-disabled :
    (db : Database) (lib : Libraries) (w : WebPush) (credentials payload : Str) (n : Notification)
    (e : Endpoints db)
    → is_enabled w ≡ false
    → new_fcm lib.make_client credentials ≡ false
    → dispatch db lib w credentials n payload e ≡ e
unfolding dispatch
dispatch-disabled db lib w credentials payload n e no_web no_mobile =
    rw (services, no_web, no_mobile) refl
