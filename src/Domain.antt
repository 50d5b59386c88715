-- ===== src/Domain.antt =====
-- The package internal/domain: money, wallets and wager transactions.
pub mod Money
pub mod Wallet
pub mod Wager
