-- ===== src/Repository/Stable.antt =====
-- Every method of the repositories keeps what no write takes away.
use jungle_gaming_challenge.Base.{ℕ, ◌≡◌, Option, none, ◌==◌}
use jungle_gaming_challenge.Base.Text.{Text}
use jungle_gaming_challenge.Base.Int.{ℤ, pos, add64}
use jungle_gaming_challenge.Errors.{fail_if, wallet_row_not_found}
use jungle_gaming_challenge.Domain.Wager.{WagerTransaction}
use jungle_gaming_challenge.Domain.Wallet.{Wallet}
use jungle_gaming_challenge.Store.{Db, OutboxRow, pending_event, TransactionRow}
use jungle_gaming_challenge.Store.Insert.{
  insert_wallet, insert_transaction, insert_ledger, insert_inbox, insert_outbox,
}
use jungle_gaming_challenge.Store.Update.{update_wallet, update_status, select_wallet}
use jungle_gaming_challenge.Store.Always.{
  World, Always, query-Always, bind-Always, lift-Always, map_error-Always, time_now-Always,
}
use jungle_gaming_challenge.Store.Writes.{Write, Stable, writing-Always}
use jungle_gaming_challenge.Repository.Wallet.{
  save as save_wallet, wallet_row, update, find_by_id_with_lock, scan_wallet,
}
use jungle_gaming_challenge.Repository.Transaction.{
  LedgerEntry, ledger_row, transaction_row, nullable, query_one, scan_one, find_by_external_id_tx,
  find_by_idempotency_key, find_by_id_for_update, save, save_with_retry_at, save_error,
  update_status_with_retry_at, update_transaction_status, save_ledger_entry,
}
use jungle_gaming_challenge.Repository.Messaging.{save_outbox, save_inbox, inbox_error, inbox_row}

module _ {P : World} where
  pub query_one-Always : (query : Db → Option TransactionRow) → Always P (query_one query)
  unfolding query_one
  query_one-Always query = query-Always (λ db. scan_one (query db))

  pub find_by_external_id_tx-Always :
      (provider_id external_id : Text) → Always P (find_by_external_id_tx provider_id external_id)
  unfolding find_by_external_id_tx
  find_by_external_id_tx-Always provider_id external_id = query_one-Always _

  pub find_by_idempotency_key-Always : (key : Text) → Always P (find_by_idempotency_key key)
  unfolding find_by_idempotency_key
  find_by_idempotency_key-Always key = query_one-Always _

  pub find_by_id_for_update-Always : (id : Text) → Always P (find_by_id_for_update id)
  unfolding find_by_id_for_update
  find_by_id_for_update-Always id = query_one-Always _

  pub find_by_id_with_lock-Always : (id : Text) → Always P (find_by_id_with_lock id)
  unfolding find_by_id_with_lock
  find_by_id_with_lock-Always id =
      bind-Always (query-Always (select_wallet id)) (λ row. lift-Always (scan_wallet row))

  module _ (stable : Stable P) where
    pub save_wallet-Always : (w : Wallet) → Always P (save_wallet w)
    unfolding save_wallet
    save_wallet-Always w =
        writing-Always (insert_wallet (wallet_row w))
          (λ db db' v e. Write.wallet_inserted (wallet_row w) v e) stable

    pub update-Always :
        (w : Wallet) (expected : ℤ)
        → w.version ≡ add64 expected (pos 1)
        → Always P (update w expected)
    unfolding update
    update-Always w expected next =
        bind-Always
          (writing-Always (update_wallet w.balance.amount w.version w.updated_at w.id expected)
            (λ db db' n e. Write.wallet_updated _ _ _ _ _ n next e) stable)
          (λ rows. lift-Always (fail_if (rows == 0) wallet_row_not_found))

    pub save_with_retry_at-Always :
        (t : WagerTransaction) (next : Option ℕ) → Always P (save_with_retry_at t next)
    unfolding save_with_retry_at
    save_with_retry_at-Always t next = map_error-Always save_error (
        writing-Always (insert_transaction (transaction_row t next))
          (λ db db' v e. Write.transaction_inserted (transaction_row t next) v e) stable)

    pub save-Always : (t : WagerTransaction) → Always P (save t)
    unfolding save
    save-Always t = save_with_retry_at-Always t none

    pub update_status_with_retry_at-Always :
        (t : WagerTransaction) (next : Option ℕ) → Always P (update_status_with_retry_at t next)
    unfolding update_status_with_retry_at
    update_status_with_retry_at-Always t next =
        writing-Always (update_status t.status (nullable t.failure_code) next t.updated_at t.id)
          (λ db db' v e. Write.status_updated _ _ _ _ _ v e) stable

    pub update_transaction_status-Always :
        (t : WagerTransaction) → Always P (update_transaction_status t)
    unfolding update_transaction_status
    update_transaction_status-Always t = update_status_with_retry_at-Always t none

    pub save_ledger_entry-Always : (e : LedgerEntry) → Always P (save_ledger_entry e)
    unfolding save_ledger_entry
    save_ledger_entry-Always e = bind-Always time_now-Always λ now.
        writing-Always (insert_ledger (ledger_row e now))
          (λ db db' v h. Write.ledger_inserted (ledger_row e now) v h) stable

    pub save_outbox-Always : (e : OutboxRow) → e.status ≡ pending_event → Always P (save_outbox e)
    unfolding save_outbox
    save_outbox-Always e fresh =
        writing-Always (insert_outbox e) (λ db db' v h. Write.outbox_inserted e v fresh h) stable

    pub save_inbox-Always :
        (consumer message hash : Text) → Always P (save_inbox consumer message hash)
    unfolding save_inbox
    save_inbox-Always consumer message hash = bind-Always time_now-Always λ now.
        map_error-Always inbox_error (
          writing-Always (insert_inbox (inbox_row consumer message hash now))
            (λ db db' v e. Write.inbox_inserted (inbox_row consumer message hash now) v e) stable)
