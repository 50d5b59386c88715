-- ===== src/Repository.antt =====
-- The package internal/infrastructure/repository. Its `tx == nil` and `pool == nil` checks have no
-- counterpart: a repository is always called with the transaction or the pool that it needs.
pub mod Wallet
pub mod Transaction
pub mod Messaging
pub mod RoundTrip
pub mod Spares
pub mod Stable
pub mod Reconciled
pub mod Held
