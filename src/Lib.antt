-- ===== src/Lib.antt =====
-- The verification library of the delivery service (module construct/delivery): outbound mail with
-- its DKIM signing and queue, the SMTP relay, the HTTP handlers that accept mail, the guards that
-- decide for whom a request acts, the sign-in and the API keys, the domains that mail is sent from
-- and their DNS records, the notifications with their hub and their push services, the operators'
-- views, and the tables that they share.
--
-- A caller posts to SendEmail or ServiceSend (internal/handlers/send.go), or speaks SMTP to the
-- relay (internal/smtp/relay.go). Both create a row of the table messages with the status queued
-- and put its id into the channel of the queue (internal/queue/worker.go). A worker takes an id,
-- builds the message (internal/smtp/message.go), and hands it to the sender
-- (internal/smtp/sender.go), which signs it (internal/smtp/dkim.go) and tries the recipient's
-- hosts; the outcome is written to the row, an event, and for a bounce a suppression. Start and the
-- retry tick put unfinished rows into the channel again.
--
-- A browser signs in through the accounts service (auth.go) and then acts by its session; a program
-- acts by an API key or by a token of the accounts service. A service that notifies a user creates
-- a row, publishes to the hub, and hands the row to the push dispatcher, as the user's preferences
-- allow.
--
-- The files, each with its children:
-- Base: shared names, Boolean tests, list queries, Go strings as lists of bytes, and search in
-- them.
-- Models: the rows of internal/models; Db: the tables behind database.DB; Listed: tables held as
-- lists.
-- Smtp/Sender, Smtp/Dkim, Smtp/Message, Smtp/Relay: the files of internal/smtp with these names,
-- and internal/crypto/keys.go and loadDKIMKeys of main.go in Smtp/Dkim.
-- Queue: internal/queue/worker.go; Handlers/Send: internal/handlers/send.go, its requests in
-- Handlers/Send/Request; Handlers/Layout: internal/handlers/template.go.
-- Handlers/Access: internal/handlers/helpers.go, cat_token.go, internal.go, the sessions of
-- auth.go, and internal/middleware.
-- Handlers/SignIn: the rest of internal/handlers/auth.go, and in Handlers/SignIn/Tokens its random
-- texts with HashAPIKey of internal/models/api_key.go; Handlers/Enrolment:
-- internal/handlers/keys.go and enroll.go.
-- Handlers/Domains: internal/handlers/domains.go, with the verification of
-- internal/handlers/admin.go; Handlers/AutoDns: its name servers and automatic set-up; Dns:
-- internal/dns/cloudflare.go, and in Dns/Requests its requests.
-- Handlers/Notifications, Handlers/Devices, Handlers/Preferences:
-- internal/handlers/notifications.go, emitting and the inbox, the registrations, and the
-- preferences; Handlers/Streams: its two streams; Hub: internal/sse/hub.go; Push: internal/push,
-- and in Push/Drivers what the drivers send.
-- Handlers/Listing: the lists of every handler; Handlers/Tenants: the tenants of
-- internal/handlers/admin.go; Handlers/Operators: the counts of internal/handlers/admin.go and
-- admin_notifications.go and the test notification.
-- Config: internal/config/config.go; Main: the answers of main.go with the CORS header, in
-- Main/Table the routes with the guards before their handlers, in Main/Start the parts that main
-- makes, and in Main/Mux the ServeMux that they are registered with.
--
-- Operations keep the source's names in this library's spelling: process is (*Queue).process,
-- submit is (*relaySession).Data. A handler takes the shared state and returns it with its answer;
-- the state is a Store of tables and a Queue. A table is a parameter with the laws of gorm's calls,
-- each of which may fail; a theorem about a database none of whose calls fails says so by the
-- hypothesis IsLive. Clocks, random bytes, decoders, encoders, the crypto library, the answers of
-- the network, and the services of accounts, push and Cloudflare are arguments. Times are
-- nanoseconds.
--
-- Loops are structural recursion. wrap_lines runs on fuel, the length of the encoded text, which
-- each round shortens by at least one byte; decimal runs on one more than its number.
--
-- Not modelled: the bound of the channel, at which a sender blocks; data races between workers,
-- since a call of process is one step, and between handlers, since a call of a handler is one step
-- on the tables that it uses; TLS; the redirects of ServeMux to clean paths; connecting, listening
-- and the timeouts of the server; and what lies outside the files above. Letters and blanks of the
-- functions of package strings are those of ASCII. Logging has no effect.
mod Base
pub mod Models
pub mod Main
pub mod Db
pub mod Listed
pub mod Smtp
pub mod Queue
pub mod Push
pub mod Dns
pub mod Config
pub mod Handlers
pub mod Hub
