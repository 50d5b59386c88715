-- ===== src/Repository/RoundTrip.antt =====
-- `TransactionRepository.SaveWithRetryAt` followed by `FindByExternalIDTx`.
use jungle_gaming_challenge.Base.{◌*◌, ◌/◌}
use jungle_gaming_challenge.Base.Text.{Text}
use jungle_gaming_challenge.Domain.Wager.{WagerTransaction}

-- A transaction as the columns keep it, its times to the microsecond.
abbrev pub kept : WagerTransaction → WagerTransaction
kept t = record t {
  created_at = t.created_at / 1000 * 1000;
  updated_at = t.updated_at / 1000 * 1000;
}
