-- ===== src/Domain/Wallet.antt =====
-- internal/domain/wallet.go. `time.Now()` is an argument of the operations that read the clock; a
-- method that changes its wallet returns the new one, and the caller keeps the old one on an error.
pub mod Balance
use jungle_gaming_challenge.Base.{ℕ, Bool, ◌||◌, not}
use jungle_gaming_challenge.Base.Text.{Text, is_empty, text_eq}
use jungle_gaming_challenge.Base.Int.{ℤ, pos, ltb_ℤ, add64}
use jungle_gaming_challenge.Errors.{
  Result, ok, err, fail_if, ◌>>=◌, ◌>>◌, id_and_player_id_required, negative_amount_input,
  negative_or_zero_amount_input, wallet_currency_mismatch, insufficient_balance,
}
use jungle_gaming_challenge.Domain.Money.{Money, add, subtract, compare_money, is_zero, is_negative}

pub record Wallet : Type 0 where
  pub id : Text
  pub player_id : Text
  pub balance : Money
  pub version : ℤ
  pub created_at : ℕ
  pub updated_at : ℕ

unfoldable pub new_wallet : Text → Text → Money → ℕ → Result Wallet
new_wallet id player_id initial_balance now = do
  fail_if (is_empty id || is_empty player_id) id_and_player_id_required
  fail_if (is_negative initial_balance) negative_amount_input
  ok (record {
    id = id;
    player_id = player_id;
    balance = initial_balance;
    version = pos 1;
    created_at = now;
    updated_at = now;
  })

unfoldable pub rehydrate_wallet : Text → Text → Money → ℤ → ℕ → ℕ → Result Wallet
rehydrate_wallet id player_id balance version created_at updated_at = do
  fail_if (is_empty id || is_empty player_id) id_and_player_id_required
  fail_if (is_negative balance) negative_amount_input
  ok (record {
    id = id;
    player_id = player_id;
    balance = balance;
    version = version;
    created_at = created_at;
    updated_at = updated_at;
  })

-- the end of both methods: the balance, `w.version++` and the time
abbrev with_balance : Wallet → Money → ℕ → Wallet
with_balance w new_balance now = record w {
  balance = new_balance;
  version = add64 w.version (pos 1);
  updated_at = now;
}

unfoldable pub debit : Wallet → Money → ℕ → Result Wallet
debit w amount now = do
  fail_if (is_negative amount || is_zero amount) negative_or_zero_amount_input
  fail_if (not (text_eq w.balance.currency amount.currency)) wallet_currency_mismatch
  comparison ← compare_money w.balance amount
  fail_if (ltb_ℤ comparison (pos 0)) insufficient_balance
  new_balance ← subtract w.balance amount
  ok (with_balance w new_balance now)

unfoldable pub credit : Wallet → Money → ℕ → Result Wallet
credit w amount now = do
  fail_if (is_negative amount || is_zero amount) negative_or_zero_amount_input
  fail_if (not (text_eq w.balance.currency amount.currency)) wallet_currency_mismatch
  new_balance ← add w.balance amount
  ok (with_balance w new_balance now)
