-- ===== src/Models.antt =====
-- internal/models: the rows that the service stores. The column UpdatedAt, which only the mapper
-- writes, is left out. Times are nanoseconds; a nil pointer is `none`. A status column holds a
-- word; the words are those that the comment of the column lists.
use delivery_api.Base.{ℕ, Bool, Option, Str, ◌==◌, if◌then◌else◌}

-- The columns that the database fills when it creates a row.
pub record Generated : Type 0 where
  pub id : ℕ
  pub created_at : ℕ

-- A mapped struct: its primary key, its creation time, and how generated columns are put into it.
pub record Model (Row : Type 0) : Type 0 where
  pub id : Row → ℕ
  pub created_at : Row → ℕ
  pub fill : Generated → Row → Row

pub data MessageStatus : Type 0 where
  queued sending sent delivered bounced complained failed : MessageStatus

pub record Message : Type 0 where
  pub id : ℕ
  pub external_id : Str
  pub user_id : Str
  pub domain_id : ℕ
  pub api_key_id : ℕ
  pub from_email : Str
  pub from_name : Str
  pub to_email : Str
  pub subject : Str
  pub html_body : Option Str
  pub text_body : Option Str
  pub headers : Option Str
  pub template_id : Option ℕ
  pub tags : Option Str
  pub attachments : Option Str
  pub status : MessageStatus
  pub retries : ℕ
  pub next_retry_at : Option ℕ
  pub error : Option Str
  pub sent_at : Option ℕ
  pub created_at : ℕ

-- The types that the code writes; the comment of the column lists others, which no code writes.
pub data EventType : Type 0 where
  queued sent deferred failed bounced : EventType

pub record MessageEvent : Type 0 where
  pub id : ℕ
  pub message_id : ℕ
  pub type : EventType
  pub payload : Option Str
  pub created_at : ℕ

pub data DomainStatus : Type 0 where
  pending verified failed : DomainStatus

pub record SendingDomain : Type 0 where
  pub id : ℕ
  pub user_id : Str
  pub domain : Str
  pub status : DomainStatus
  pub dkim_private_key : Str
  pub dkim_public_key : Str
  pub dkim_selector : Str
  pub spf_verified : Bool
  pub dkim_verified : Bool
  pub dmarc_verified : Bool
  pub return_path_verified : Bool
  pub last_verified_at : Option ℕ
  pub created_at : ℕ

pub record ApiKey : Type 0 where
  pub id : ℕ
  pub user_id : Str
  pub name : Str
  pub key_hash : Str
  pub key_prefix : Str
  pub domain_id : Option ℕ
  pub scopes : Str
  pub last_used_at : Option ℕ
  pub expires_at : Option ℕ
  pub created_at : ℕ

pub data Reason : Type 0 where
  bounce complaint manual : Reason

pub record Suppression : Type 0 where
  pub id : ℕ
  pub user_id : Str
  pub email : Str
  pub reason : Reason
  pub source : Str
  pub created_at : ℕ

pub record Notification : Type 0 where
  pub id : ℕ
  pub external_id : Str
  pub user_id : Str
  pub source : Str
  pub type : Str
  pub title : Str
  pub body : Str
  pub link : Str
  pub payload : Option Str
  pub read_at : Option ℕ
  pub created_at : ℕ

-- One registration of a browser.
pub record WebPushSubscription : Type 0 where
  pub id : ℕ
  pub user_id : Str
  pub endpoint : Str
  pub p256dh : Str
  pub auth : Str
  pub user_agent : Str
  pub created_at : ℕ
  pub last_used : ℕ

-- One registration of a mobile device.
pub record DeviceToken : Type 0 where
  pub id : ℕ
  pub user_id : Str
  pub platform : Str
  pub token : Str
  pub app_version : Str
  pub created_at : ℕ
  pub last_used : ℕ

abbrev pub message_model : Model Message
message_model = record {
  id = λ m. m.id;
  created_at = λ m. m.created_at;
  fill = λ g m. record m { id = g.id; created_at = g.created_at };
}

abbrev pub event_model : Model MessageEvent
event_model = record {
  id = λ e. e.id;
  created_at = λ e. e.created_at;
  fill = λ g e. record e { id = g.id; created_at = g.created_at };
}

abbrev pub domain_model : Model SendingDomain
domain_model = record {
  id = λ d. d.id;
  created_at = λ d. d.created_at;
  fill = λ g d. record d { id = g.id; created_at = g.created_at };
}

-- A creation time that is set is kept.
abbrev pub key_model : Model ApiKey
key_model = record {
  id = λ k. k.id;
  created_at = λ k. k.created_at;
  fill = λ g k. record k {
    id = g.id;
    created_at = if k.created_at == 0 then g.created_at else k.created_at;
  };
}

abbrev pub suppression_model : Model Suppression
suppression_model = record {
  id = λ s. s.id;
  created_at = λ s. s.created_at;
  fill = λ g s. record s { id = g.id; created_at = g.created_at };
}

-- A subscription, a device and a notification come with their creation time.
abbrev pub subscription_model : Model WebPushSubscription
subscription_model = record {
  id = λ s. s.id;
  created_at = λ s. s.created_at;
  fill = λ g s. record s { id = g.id };
}

abbrev pub device_model : Model DeviceToken
device_model = record {
  id = λ d. d.id;
  created_at = λ d. d.created_at;
  fill = λ g d. record d { id = g.id };
}

abbrev pub notification_model : Model Notification
notification_model = record {
  id = λ n. n.id;
  created_at = λ n. n.created_at;
  fill = λ g n. record n { id = g.id };
}
