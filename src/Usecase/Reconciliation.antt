-- ===== src/Usecase/Reconciliation.antt =====
-- internal/usecase/reconciliation_usecase.go.
pub mod Sound
use jungle_gaming_challenge.Base.{ℕ, Bool}
use jungle_gaming_challenge.Base.Text.{Text}
use jungle_gaming_challenge.Base.Int.{ℤ, pos, sub64, eqb_ℤ}
use jungle_gaming_challenge.Domain.Money.{new_internal_money, to_text}
use jungle_gaming_challenge.Domain.Wallet.{Wallet}
use jungle_gaming_challenge.Store.{Tx, ◌>>=◌, pure}
use jungle_gaming_challenge.Repository.Wallet.{find_by_id, calculate_ledger_balance}

-- `ReconciliationOutputDTO`; the three balances share the currency
pub record ReconciliationOutput : Type 0 where
  pub wallet_id : Text
  pub stored_balance : Text
  pub calculated_balance : Text
  pub difference : Text
  pub currency : Text
  pub consistent : Bool
  pub checked_entries : ℕ

abbrev pub report : Text → Wallet → ℤ × ℕ → ReconciliationOutput
report wallet_id wallet (ledger_amount, checked_entries) =
    let stored_amount = wallet.balance.amount in
    let difference_amount = sub64 stored_amount ledger_amount in
    let currency = wallet.balance.currency in
    record {
      wallet_id = wallet_id;
      stored_balance = to_text (new_internal_money stored_amount currency);
      calculated_balance = to_text (new_internal_money ledger_amount currency);
      difference = to_text (new_internal_money difference_amount currency);
      currency = currency;
      consistent = eqb_ℤ difference_amount (pos 0);
      checked_entries = checked_entries;
    }

-- `ReconciliationUsecase.Execute`
unfoldable pub reconcile : Text → Tx ReconciliationOutput
reconcile wallet_id = do
  wallet ← find_by_id wallet_id
  ledger ← calculate_ledger_balance wallet_id
  pure (report wallet_id wallet ledger)
