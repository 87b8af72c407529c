-- ===== src/Handlers.antt =====
-- internal/handlers: the HTTP handlers.
pub mod Reply
pub mod Layout
pub mod Send
pub mod Access
pub mod SignIn
pub mod Enrolment
pub mod Devices
pub mod Preferences
pub mod AutoDns
pub mod Listing
pub mod Operators
pub mod Tenants
pub mod Domains
pub mod Notifications
pub mod Streams
pub use Reply.*
