-- ===== src/Repository/Transaction.antt =====
-- internal/infrastructure/repository/transaction_repository.go.
use jungle_gaming_challenge.Base.{ℕ, List, [], ◌∷◌, Option, none, some, map}
use jungle_gaming_challenge.Base.Text.{Text}
use jungle_gaming_challenge.Base.Int.{ℤ}
use jungle_gaming_challenge.Errors.{Error, database, unique_violation, duplicate_transaction}
use jungle_gaming_challenge.Domain.Money.{new_internal_money}
use jungle_gaming_challenge.Domain.Wager.{WagerTransaction, rehydrate_wager_transaction}
use jungle_gaming_challenge.Store.{
  timestamptz, timestamptz?, Db, TransactionRow, LedgerRow, Direction, Tx, ◌>>=◌, map_error,
  statement, done, time_now, pool_query,
}
use jungle_gaming_challenge.Store.Insert.{insert_transaction, insert_ledger}
use jungle_gaming_challenge.Store.Due.{select_pending_references}
use jungle_gaming_challenge.Store.Update.{
  select_by_external_id, select_by_idempotency_key, select_by_id, update_status,
}

-- `IDLEntryDTO`
pub record LedgerEntry : Type 0 where
  pub id : Text
  pub wallet_id : Text
  pub transaction_id : Text
  pub direction : Direction
  pub amount : ℤ
  pub balance_before : ℤ
  pub balance_after : ℤ

-- An empty text is written as NULL, and NULL is read as the empty text.
abbrev pub nullable : Text → Option Text
nullable [] = none
nullable (c ∷ s) = some (c ∷ s)

abbrev pub or_empty : Option Text → Text
or_empty none = []
or_empty (some s) = s

abbrev pub transaction_row : WagerTransaction → Option ℕ → TransactionRow
transaction_row t next_retry_at = record {
  id = t.id;
  provider_id = t.provider_id;
  external_transaction_id = t.external_transaction_id;
  idempotency_key = t.idempotency_key;
  payload_hash = t.payload_hash;
  wallet_id = t.wallet_id;
  player_id = t.player_id;
  round_id = t.round_id;
  game_id = t.game_id;
  kind = t.kind;
  amount = t.money.amount;
  currency = t.money.currency;
  reference_external_id = nullable t.reference_external_id;
  status = t.status;
  failure_code = nullable t.failure_code;
  next_retry_at = timestamptz? next_retry_at;
  created_at = timestamptz t.created_at;
  updated_at = timestamptz t.updated_at;
}

-- the end of `scanOne`, and the loop body of `FindPendingReferences`
unfoldable pub wager_of_row : TransactionRow → WagerTransaction
wager_of_row r =
    rehydrate_wager_transaction r.id r.provider_id r.external_transaction_id r.idempotency_key
      r.payload_hash r.wallet_id r.player_id r.round_id r.game_id r.kind
      (new_internal_money r.amount r.currency) (or_empty r.reference_external_id) r.status
      (or_empty r.failure_code) r.created_at r.updated_at

-- `pgx.ErrNoRows` is no error: the answer is nil.
abbrev pub scan_one : Option TransactionRow → Option WagerTransaction
scan_one none = none
scan_one (some r) = some (wager_of_row r)

unfoldable pub query_one : (Db → Option TransactionRow) → Tx (Option WagerTransaction)
query_one query = statement (λ db. done (scan_one (query db)) db)

unfoldable pub find_by_external_id_tx : Text → Text → Tx (Option WagerTransaction)
find_by_external_id_tx provider_id external_id =
    query_one (select_by_external_id provider_id external_id)

-- in a transaction of its own
unfoldable pub find_by_external_id : Text → Text → Tx (Option WagerTransaction)
find_by_external_id provider_id external_id =
    pool_query (λ db. scan_one (select_by_external_id provider_id external_id db))

unfoldable pub find_by_idempotency_key : Text → Tx (Option WagerTransaction)
find_by_idempotency_key key = query_one (select_by_idempotency_key key)

unfoldable pub find_by_id_for_update : Text → Tx (Option WagerTransaction)
find_by_id_for_update id = query_one (select_by_id id)

-- `isUniqueViolation(err)` gives `ErrDuplicateTransaction`; other errors are wrapped.
abbrev pub save_error : Error → Error
save_error (database unique_violation) = duplicate_transaction
save_error e = e

unfoldable pub save_with_retry_at : WagerTransaction → Option ℕ → Tx (Unit {0})
save_with_retry_at t next_retry_at =
    map_error save_error (statement (insert_transaction (transaction_row t next_retry_at)))

unfoldable pub save : WagerTransaction → Tx (Unit {0})
unfolding save_with_retry_at
save t = save_with_retry_at t none

unfoldable pub update_status_with_retry_at : WagerTransaction → Option ℕ → Tx (Unit {0})
update_status_with_retry_at t next_retry_at =
    statement (update_status t.status (nullable t.failure_code) next_retry_at t.updated_at t.id)

unfoldable pub update_transaction_status : WagerTransaction → Tx (Unit {0})
unfolding update_status_with_retry_at
update_transaction_status t = update_status_with_retry_at t none

abbrev pub ledger_row : LedgerEntry → ℕ → LedgerRow
ledger_row e now = record {
  id = e.id;
  wallet_id = e.wallet_id;
  transaction_id = e.transaction_id;
  direction = e.direction;
  amount = e.amount;
  balance_before = e.balance_before;
  balance_after = e.balance_after;
  created_at = timestamptz now;
}

unfoldable pub save_ledger_entry : LedgerEntry → Tx (Unit {0})
save_ledger_entry entry = do now ← time_now; statement (insert_ledger (ledger_row entry now))

unfoldable pub find_pending_references : ℕ → Tx (List WagerTransaction)
find_pending_references limit = do
  now ← time_now
  pool_query (λ db. map wager_of_row (select_pending_references now limit db))
