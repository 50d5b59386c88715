-- ===== src/Repository/Wallet.antt =====
-- internal/infrastructure/repository/wallet_repository.go.
use jungle_gaming_challenge.Base.{
  ℕ, ◌+◌, Bool, ◌&&◌, List, [], ◌∷◌, Option, none, some, ◌==◌, if◌then◌else◌,
}
use jungle_gaming_challenge.Base.Text.{Text, text_eq}
use jungle_gaming_challenge.Base.Int.{ℤ, pos, ◌+ℤ◌, sub64, leb_ℤ, max_int64, min_int64}
use jungle_gaming_challenge.Errors.{
  Result, ok, err, fail_if, wallet_not_found, wallet_row_not_found, database, out_of_range,
}
use jungle_gaming_challenge.Domain.Money.{new_internal_money}
use jungle_gaming_challenge.Domain.Wallet.{Wallet, rehydrate_wallet}
use jungle_gaming_challenge.Store.{
  timestamptz, WalletRow, LedgerRow, debit_entry, credit_entry, no_direction, Tx, ◌>>=◌, lift,
  statement, pool_query, done,
}
use jungle_gaming_challenge.Store.Insert.{insert_wallet}
use jungle_gaming_challenge.Store.Update.{select_wallet, update_wallet}

abbrev pub wallet_row : Wallet → WalletRow
wallet_row w = record {
  id = w.id;
  player_id = w.player_id;
  currency = w.balance.currency;
  amount = w.balance.amount;
  version = w.version;
  created_at = timestamptz w.created_at;
  updated_at = timestamptz w.updated_at;
}

abbrev pub wallet_of_row : WalletRow → Result Wallet
wallet_of_row r =
    rehydrate_wallet r.id r.player_id (new_internal_money r.amount r.currency) r.version
      r.created_at r.updated_at

unfoldable pub save : Wallet → Tx (Unit {0})
save wallet = statement (insert_wallet (wallet_row wallet))

unfoldable pub update : Wallet → ℤ → Tx (Unit {0})
update wallet expected_version = do
  rows ← statement (
      update_wallet wallet.balance.amount wallet.version wallet.updated_at wallet.id
        expected_version)
  lift (fail_if (rows == 0) wallet_row_not_found)

-- what both `Find` methods make of the row that the query gives, or of `pgx.ErrNoRows`
abbrev pub scan_wallet : Option WalletRow → Result Wallet
scan_wallet none = err wallet_not_found
scan_wallet (some r) = wallet_of_row r

unfoldable pub find_by_id_with_lock : Text → Tx Wallet
find_by_id_with_lock id = do
  row ← statement (λ db. done (select_wallet id db) db)
  lift (scan_wallet row)

unfoldable pub find_by_id : Text → Tx Wallet
find_by_id id = do row ← pool_query (select_wallet id); lift (scan_wallet row)

-- SUM(CASE WHEN direction = 'CREDIT' THEN amount ELSE 0 END) over the entries of one wallet
abbrev pub credit_amount : LedgerRow → ℤ
credit_amount l = elim l.direction [
  | credit_entry ↦ l.amount
  | debit_entry ↦ pos 0
  | no_direction ↦ pos 0
]

abbrev pub debit_amount : LedgerRow → ℤ
debit_amount l = elim l.direction [
  | credit_entry ↦ pos 0
  | debit_entry ↦ l.amount
  | no_direction ↦ pos 0
]

module _ (wallet_id : Text) where
  abbrev pub sum_where : (LedgerRow → ℤ) → List LedgerRow → ℤ
  sum_where f [] = pos 0
  sum_where f (l ∷ ls) = (if text_eq l.wallet_id wallet_id then f l else pos 0) +ℤ sum_where f ls

  abbrev pub count_entries : List LedgerRow → ℕ
  count_entries [] = 0
  count_entries (l ∷ ls) = (if text_eq l.wallet_id wallet_id then 1 else 0) + count_entries ls

  abbrev pub total_credits : List LedgerRow → ℤ
  total_credits = sum_where credit_amount

  abbrev pub total_debits : List LedgerRow → ℤ
  total_debits = sum_where debit_amount

abbrev is_int64 : ℤ → Bool
is_int64 a = leb_ℤ min_int64 a && leb_ℤ a max_int64

-- The query's three columns into three `int64` variables, and their difference.
abbrev pub scan_ledger_balance : ℤ × ℤ × ℕ → Result (ℤ × ℕ)
scan_ledger_balance (credits, debits, entries) =
    if is_int64 credits && is_int64 debits
    then ok (sub64 credits debits, entries)
    else err (database out_of_range)

-- The exact sums; the two columns are read into an `int64` each.
unfoldable pub calculate_ledger_balance : Text → Tx (ℤ × ℕ)
calculate_ledger_balance wallet_id = do
  row ← pool_query (λ db. (
    total_credits wallet_id db.ledger,
    total_debits wallet_id db.ledger,
    count_entries wallet_id db.ledger,
  ))
  lift (scan_ledger_balance row)
