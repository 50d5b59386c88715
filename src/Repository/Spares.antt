-- ===== src/Repository/Spares.antt =====
-- The methods of the repositories that change neither a wallet nor the ledger.
use jungle_gaming_challenge.Base.{refl, Option, none, ℕ, arith}
use jungle_gaming_challenge.Base.Text.{Text}
use jungle_gaming_challenge.Errors.{Result, ok, err}
use jungle_gaming_challenge.Domain.Wager.{WagerTransaction}
use jungle_gaming_challenge.Store.{Db, TransactionRow, InboxRow, OutboxRow}
use jungle_gaming_challenge.Store.Insert.{insert_transaction, insert_outbox, insert_inbox}
use jungle_gaming_challenge.Store.Update.{update_status}
use jungle_gaming_challenge.Store.Rules.{
  Quiet, Any, Yields, SparesAt, statement-Quiet, bind-Quiet, lift-Quiet, map_error-Quiet,
  time_now-Quiet,
}
use jungle_gaming_challenge.Repository.Wallet.{find_by_id_with_lock, scan_wallet}
use jungle_gaming_challenge.Repository.Transaction.{
  query_one, find_by_external_id_tx, find_by_idempotency_key, find_by_id_for_update,
  save_with_retry_at, save, save_error, transaction_row, update_status_with_retry_at,
  update_transaction_status,
}
use jungle_gaming_challenge.Repository.Messaging.{save_outbox, save_inbox, inbox_error, inbox_row}

pub Yields-Any : {A : Type 0} (r : Result A) → Yields Any r
Yields-Any (ok a) = tt
Yields-Any (err e) = tt

-- The insertions into the other tables.
insert_transaction-Spares :
    (r : TransactionRow) (db : Db) → SparesAt Any db (insert_transaction r db)
unfolding insert_transaction
insert_transaction-Spares r db = ground arith

insert_inbox-Spares : (r : InboxRow) (db : Db) → SparesAt Any db (insert_inbox r db)
unfolding insert_inbox
insert_inbox-Spares r db = ground arith

insert_outbox-Spares : (r : OutboxRow) (db : Db) → SparesAt Any db (insert_outbox r db)
unfolding insert_outbox
insert_outbox-Spares r db = ground arith

pub query_one-Quiet : (query : Db → Option TransactionRow) → Quiet Any (query_one query)
unfolding query_one
query_one-Quiet query = statement-Quiet _ (λ db. (refl, refl, tt))

pub find_by_external_id_tx-Quiet :
    (provider_id external_id : Text) → Quiet Any (find_by_external_id_tx provider_id external_id)
unfolding find_by_external_id_tx
find_by_external_id_tx-Quiet provider_id external_id = query_one-Quiet _

pub find_by_idempotency_key-Quiet : (key : Text) → Quiet Any (find_by_idempotency_key key)
unfolding find_by_idempotency_key
find_by_idempotency_key-Quiet key = query_one-Quiet _

pub find_by_id_for_update-Quiet : (id : Text) → Quiet Any (find_by_id_for_update id)
unfolding find_by_id_for_update
find_by_id_for_update-Quiet id = query_one-Quiet _

pub find_by_id_with_lock-Quiet : (id : Text) → Quiet Any (find_by_id_with_lock id)
unfolding find_by_id_with_lock
find_by_id_with_lock-Quiet id =
    bind-Quiet {R = Any} (statement-Quiet _ (λ db. (refl, refl, tt)))
      (λ row _. lift-Quiet (scan_wallet row) (Yields-Any (scan_wallet row)))

pub save_with_retry_at-Quiet :
    (t : WagerTransaction) (next : Option ℕ) → Quiet Any (save_with_retry_at t next)
unfolding save_with_retry_at
save_with_retry_at-Quiet t next =
    map_error-Quiet save_error
      (statement-Quiet _ (insert_transaction-Spares (transaction_row t next)))

pub save-Quiet : (t : WagerTransaction) → Quiet Any (save t)
unfolding save
save-Quiet t = save_with_retry_at-Quiet t none

pub update_status_with_retry_at-Quiet :
    (t : WagerTransaction) (next : Option ℕ) → Quiet Any (update_status_with_retry_at t next)
unfolding update_status_with_retry_at update_status
update_status_with_retry_at-Quiet t next = statement-Quiet _ (λ db. (refl, refl, tt))

pub update_transaction_status-Quiet :
    (t : WagerTransaction) → Quiet Any (update_transaction_status t)
unfolding update_transaction_status
update_transaction_status-Quiet t = update_status_with_retry_at-Quiet t none

pub save_outbox-Quiet : (e : OutboxRow) → Quiet Any (save_outbox e)
unfolding save_outbox
save_outbox-Quiet e = statement-Quiet _ (insert_outbox-Spares e)

pub save_inbox-Quiet : (consumer message hash : Text) → Quiet Any (save_inbox consumer message hash)
unfolding save_inbox
save_inbox-Quiet consumer message hash = bind-Quiet {R = Any} {Q = Any} time_now-Quiet λ now _.
    map_error-Quiet inbox_error
      (statement-Quiet _ (insert_inbox-Spares (inbox_row consumer message hash now)))
