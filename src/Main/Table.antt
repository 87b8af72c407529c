-- ===== src/Main/Table.antt =====
-- main.go: the patterns that main registers, with the guard before each handler.
use Prim.Native.String.{String}
use delivery_api.Base.{
  List, [], ◌∷◌, ◌++◌, Str, codes, if◌then◌else◌, is_empty, has_prefix, map, split,
}
use delivery_api.Main.Mux.{Segment, literal, wildcard, Pattern}

-- The functions behind the guards, by their names.
pub data Handler : Type 0 where
  health : Handler
  login_redirect : Handler
  auth_callback : Handler
  auth_me : Handler
  auth_logout : Handler
  send_email : Handler
  get_message : Handler
  service_send : Handler
  list_domains : Handler
  create_domain : Handler
  get_domain : Handler
  delete_domain : Handler
  domain_messages : Handler
  verify_domain : Handler
  get_dns_records : Handler
  check_dns_provider : Handler
  auto_setup_dns : Handler
  list_api_keys : Handler
  create_api_key : Handler
  list_messages : Handler
  admin_stats : Handler
  admin_list_messages : Handler
  admin_list_domains : Handler
  admin_get_domain : Handler
  admin_get_domain_dns : Handler
  admin_get_domain_messages : Handler
  admin_verify_domain : Handler
  admin_list_keys : Handler
  admin_list_tenants : Handler
  admin_list_notifications : Handler
  admin_notification_stats : Handler
  admin_send_test_notification : Handler
  enroll_delivery : Handler
  unenroll_delivery : Handler
  internal_tenant_status : Handler
  service_notify : Handler
  list_notifications : Handler
  unread_count : Handler
  stream_notifications : Handler
  ws_stream_notifications : Handler
  self_notify : Handler
  mark_all_read : Handler
  mark_read : Handler
  delete_notification : Handler
  vapid_public_key : Handler
  register_web_push : Handler
  unregister_web_push : Handler
  register_device : Handler
  unregister_device : Handler
  get_preferences : Handler
  update_preferences : Handler

pub data Guard : Type 0 where
  unguarded : Guard
  by_auth : Guard
  by_query_token : Guard
  by_service : Guard
  by_admin : Guard

pub record Route : Type 0 where
  pub pattern : Pattern
  pub guard : Guard
  pub handler : Handler

abbrev segment : Str → Segment
segment s = if has_prefix s (codes "{") then wildcard else literal s

abbrev segments : List Str → List Segment
segments [] = []
segments (empty ∷ parts) = map segment parts

abbrev route : String → String → Guard → Handler → Route
route method path guard handler = record {
  pattern = record { method = codes method; path = segments (split b'/' (codes path)) };
  guard = guard;
  handler = handler;
}

abbrev auth_routes : List Route
auth_routes =
    route "GET" "/api/health" unguarded health
    ∷ route "GET" "/api/auth/login" unguarded login_redirect
    ∷ route "GET" "/api/auth/callback" unguarded auth_callback
    ∷ route "GET" "/api/auth/me" unguarded auth_me
    ∷ route "GET" "/api/auth/logout" unguarded auth_logout
    ∷ []

abbrev mail_routes : List Route
mail_routes =
    route "POST" "/api/emails" by_auth send_email
    ∷ route "GET" "/api/emails/{id}" by_auth get_message
    ∷ []

abbrev service_routes : List Route
service_routes = route "POST" "/api/service/send" by_service service_send ∷ []

abbrev domain_routes : List Route
domain_routes =
    route "GET" "/api/domains" by_auth list_domains
    ∷ route "POST" "/api/domains" by_auth create_domain
    ∷ route "GET" "/api/domains/{id}" by_auth get_domain
    ∷ route "DELETE" "/api/domains/{id}" by_auth delete_domain
    ∷ route "GET" "/api/domains/{id}/messages" by_auth domain_messages
    ∷ route "POST" "/api/domains/{id}/verify" by_auth verify_domain
    ∷ route "GET" "/api/domains/{id}/dns-records" by_auth get_dns_records
    ∷ route "GET" "/api/domains/{id}/dns-provider" by_auth check_dns_provider
    ∷ route "POST" "/api/domains/{id}/auto-dns" by_auth auto_setup_dns
    ∷ route "GET" "/api/keys" by_auth list_api_keys
    ∷ route "POST" "/api/keys" by_auth create_api_key
    ∷ route "GET" "/api/messages" by_auth list_messages
    ∷ []

abbrev admin_routes : List Route
admin_routes =
    route "GET" "/api/admin/stats" by_admin admin_stats
    ∷ route "GET" "/api/admin/messages" by_admin admin_list_messages
    ∷ route "GET" "/api/admin/domains" by_admin admin_list_domains
    ∷ route "GET" "/api/admin/domains/{id}" by_admin admin_get_domain
    ∷ route "GET" "/api/admin/domains/{id}/dns-records" by_admin admin_get_domain_dns
    ∷ route "GET" "/api/admin/domains/{id}/messages" by_admin admin_get_domain_messages
    ∷ route "POST" "/api/admin/domains/{id}/verify" by_admin admin_verify_domain
    ∷ route "GET" "/api/admin/keys" by_admin admin_list_keys
    ∷ route "GET" "/api/admin/tenants" by_admin admin_list_tenants
    ∷ route "GET" "/api/admin/notifications" by_admin admin_list_notifications
    ∷ route "GET" "/api/admin/notifications/stats" by_admin admin_notification_stats
    ∷ route "POST" "/api/admin/notifications/test" by_admin admin_send_test_notification
    ∷ []

abbrev enrolment_routes : List Route
enrolment_routes =
    route "POST" "/api/enroll" by_auth enroll_delivery
    ∷ route "DELETE" "/api/enroll" by_auth unenroll_delivery
    ∷ route "GET" "/internal/tenant-status" unguarded internal_tenant_status
    ∷ []

abbrev notification_routes : List Route
notification_routes =
    route "POST" "/internal/notify" unguarded service_notify
    ∷ route "GET" "/api/notifications" by_auth list_notifications
    ∷ route "GET" "/api/notifications/unread-count" by_auth unread_count
    ∷ route "GET" "/api/notifications/stream" by_auth stream_notifications
    ∷ route "GET" "/api/notifications/ws" by_query_token ws_stream_notifications
    ∷ route "POST" "/api/notifications/self" by_auth self_notify
    ∷ route "POST" "/api/notifications/read-all" by_auth mark_all_read
    ∷ route "POST" "/api/notifications/{id}/read" by_auth mark_read
    ∷ route "DELETE" "/api/notifications/{id}" by_auth delete_notification
    ∷ route "GET" "/api/notifications/vapid-public-key" unguarded vapid_public_key
    ∷ route "POST" "/api/notifications/web-push" by_auth register_web_push
    ∷ route "DELETE" "/api/notifications/web-push" by_auth unregister_web_push
    ∷ route "POST" "/api/notifications/devices" by_auth register_device
    ∷ route "DELETE" "/api/notifications/devices" by_auth unregister_device
    ∷ route "GET" "/api/notifications/preferences" by_auth get_preferences
    ∷ route "PUT" "/api/notifications/preferences" by_auth update_preferences
    ∷ []

-- In the order of their registration, with the service's key. The root is not among them.
unfoldable pub routes : Str → List Route
unfolding split has_prefix
routes service_key =
    auth_routes
    ++ (mail_routes
        ++ ((if is_empty service_key then [] else service_routes)
            ++ (domain_routes ++ (admin_routes ++ (enrolment_routes ++ notification_routes)))))
