-- ===== src/Usecase.antt =====
-- The package internal/usecase.
pub mod Events
pub mod Wager
pub mod Process
pub mod Resolve
pub mod OpenWallet
pub mod Reconciliation
