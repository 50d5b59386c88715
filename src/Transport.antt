-- ===== src/Transport.antt =====
-- internal/infrastructure/transport: the workers, and the handlers of HTTP requests.
pub mod Outbox
pub mod Pending
pub mod Sqs
pub mod Start
pub mod Lifecycle
pub mod Http
pub mod Auth
pub mod Server
pub mod Kept
