-- ===== src/Handlers/Listing.antt =====
-- The handlers that list rows: of internal/handlers, those of send.go, domains.go, keys.go,
-- notifications.go, admin.go and admin_notifications.go. A number of a query is what Atoi reads, 0
-- for an error and for what is below one. `like` is the LIKE of the database.
pub mod Windows
pub mod Owners
pub mod Tests
use mathlib.Core.List.{reverse}
use delivery_api.Base.{
  ℕ, ◌-◌, ◌*◌, ◌%◌, ◌^◌, Bool, true, false, not, ◌&&◌, ◌||◌, Option, none, some, get_or, is_some,
  List, [], Str, codes, ltb, leb, ◌==◌, if◌then◌else◌, is_empty, str_eq,
}
use delivery_api.Models.{Message, MessageStatus, MessageEvent, SendingDomain, ApiKey, Notification}
use delivery_api.Db.{Database, Store}
use delivery_api.Handlers.Reply.{Reply, reply, error}
use delivery_api.Handlers.Domains.{owned, numbered, view, Env, DomainView, DnsRecord, dns_records}

pub record Page (Row : Type 0) : Type 0 where
  pub rows : List Row
  pub total : ℕ
  pub page : ℕ
  pub limit : ℕ

abbrev pub page_of : ℕ → ℕ
page_of n = if ltb n 1 then 1 else n

abbrev pub limit_of : ℕ → ℕ
limit_of n = let m = if ltb n 1 then 25 else n in if ltb 200 m then 200 else m

-- The product of two 64-bit integers; the database is given no offset for one below zero.
pub offset_of : ℕ → ℕ → ℕ
offset_of page limit = let n = ((page - 1) * limit) % 2 ^ 64 in if ltb n (2 ^ 63) then n else 0

-- The word of the column.
pub status_word : MessageStatus → Str
status_word MessageStatus.queued = codes "queued"
status_word MessageStatus.sending = codes "sending"
status_word MessageStatus.sent = codes "sent"
status_word MessageStatus.delivered = codes "delivered"
status_word MessageStatus.bounced = codes "bounced"
status_word MessageStatus.complained = codes "complained"
status_word MessageStatus.failed = codes "failed"

abbrev pub of_sender : Str → Message → Bool
of_sender user m = str_eq m.user_id user

-- The conditions of AdminListMessages.
pub is_listed : (Str → Str → Bool) → Str → Str → Message → Bool
unfolding status_word
is_listed like status search m =
    (is_empty status || str_eq (status_word m.status) status)
    && (is_empty search || (like m.to_email search || like m.subject search))

-- The query of AdminListNotifications; a time that cannot be parsed is `none`.
pub record NotificationQuery : Type 0 where
  pub user_id : Str
  pub source : Str
  pub type : Str
  pub unread : Bool
  pub since : Option ℕ
  pub page : ℕ
  pub limit : ℕ

abbrev pub from_time : Option ℕ → ℕ → Bool
from_time none at = true
from_time (some t) at = leb t at

pub is_asked : NotificationQuery → Notification → Bool
is_asked q n =
    (is_empty q.user_id || str_eq n.user_id q.user_id)
    && ((is_empty q.source || str_eq n.source q.source)
        && ((is_empty q.type || str_eq n.type q.type)
            && ((not q.unread || not (is_some n.read_at)) && from_time q.since n.created_at)))

module _ (db : Database) where
  pub list_messages : Str → db.messages.State → List Message
  list_messages user s = db.messages.page (of_sender user) 0 (some 100) s

  -- GetMessage. The events come in the opposite order of a page.
  pub get_message : Str → Str → Store db → Reply (Message × List MessageEvent)
  get_message id user s =
      elim (db.messages.first (λ m. str_eq m.external_id id && (is_empty user || of_sender user m))
        s.messages) [
          | none ↦ error 404 (codes "message not found")
          | some m ↦
              reply 200 (m, reverse (db.events.page (λ e. e.message_id == m.id) 0 none s.events))
        ]

  pub list_domains : Str → db.domains.State → List SendingDomain
  list_domains user s = db.domains.page (λ d. str_eq d.user_id user) 0 none s

  pub list_api_keys : Str → db.keys.State → List ApiKey
  list_api_keys user s = db.keys.page (λ k. str_eq k.user_id user) 0 none s

  pub get_domain : Env → ℕ → Str → db.domains.State → Reply DomainView
  get_domain env id user s = elim (db.domains.first (owned db id user) s) [
    | none ↦ error 404 (codes "domain not found")
    | some d ↦ reply 200 (view env d)
  ]

  -- GetDNSRecords
  pub get_dns_records : Env → ℕ → Str → db.domains.State → Reply (List DnsRecord)
  get_dns_records env id user s = elim (db.domains.first (owned db id user) s) [
    | none ↦ error 404 (codes "domain not found")
    | some d ↦ reply 200 (dns_records env d)
  ]

  pub domain_messages : ℕ → Str → Store db → Reply (List Message)
  domain_messages id user s = elim (db.domains.first (owned db id user) s.domains) [
    | none ↦ error 404 (codes "domain not found")
    | some d ↦
        reply 200 (
          db.messages.page (λ m. (m.domain_id == d.id) && of_sender user m) 0 (some 100) s.messages)
  ]

  pub admin_list_domains : db.domains.State → List SendingDomain
  admin_list_domains s = db.domains.page (λ d. true) 0 none s

  pub admin_list_keys : db.keys.State → List ApiKey
  admin_list_keys s = db.keys.page (λ k. true) 0 none s

  pub admin_get_domain : Env → ℕ → db.domains.State → Reply DomainView
  admin_get_domain env id s = elim (db.domains.first (numbered db id) s) [
    | none ↦ error 404 (codes "domain not found")
    | some d ↦ reply 200 (view env d)
  ]

  -- AdminGetDomainDNS
  pub admin_get_domain_dns : Env → ℕ → db.domains.State → Reply (List DnsRecord)
  admin_get_domain_dns env id s = elim (db.domains.first (numbered db id) s) [
    | none ↦ error 404 (codes "domain not found")
    | some d ↦ reply 200 (dns_records env d)
  ]

  pub admin_get_domain_messages : ℕ → Store db → Reply (List Message)
  admin_get_domain_messages id s = elim (db.domains.first (numbered db id) s.domains) [
    | none ↦ error 404 (codes "domain not found")
    | some d ↦ reply 200 (db.messages.page (λ m. m.domain_id == d.id) 0 (some 100) s.messages)
  ]

  pub admin_list_messages :
      (Str → Str → Bool) → Str → Str → ℕ → ℕ → db.messages.State → Page Message
  unfolding is_listed offset_of
  admin_list_messages like status search page limit s =
      let p = page_of page in
      let l = limit_of limit in
      record {
        rows = db.messages.page (is_listed like status search) (offset_of p l) (some l) s;
        total = get_or (db.messages.count (is_listed like status search) s) 0;
        page = p;
        limit = l;
      }

  pub admin_list_notifications : NotificationQuery → db.notifications.State → Page Notification
  unfolding is_asked offset_of
  admin_list_notifications q s =
      let p = page_of q.page in
      let l = limit_of q.limit in
      record {
        rows = db.notifications.page (is_asked q) (offset_of p l) (some l) s;
        total = get_or (db.notifications.count (is_asked q) s) 0;
        page = p;
        limit = l;
      }

  abbrev pub since_pivot : Str → db.notifications.State → Notification → Bool
  since_pivot id s n =
      if is_empty id then true else elim (db.notifications.first (λ p. str_eq p.external_id id) s) [
        | none ↦ true
        | some pivot ↦ ltb pivot.created_at n.created_at
      ]

  -- ListNotifications, with the numbers and texts of its query.
  pub list_notifications : Str → Bool → ℕ → Str → db.notifications.State → Reply (List Notification)
  list_notifications user unread limit since s =
      let l = if ltb 0 limit && leb limit 200 then limit else 50 in
      if is_empty user
      then error 401 (codes "unauthorized")
      else reply 200 (
          db.notifications.page
            (λ n.
              str_eq n.user_id user
              && ((not unread || not (is_some n.read_at)) && since_pivot since s n))
            0 (some l) s)
