-- ===== src/Usecase/Resolve.antt =====
-- internal/usecase/wager_usecase.go: `ResolvePendingReference`.
pub mod Sound
pub mod Stable
use jungle_gaming_challenge.Base.{
  ℕ, ◌+◌, ◌*◌, Bool, true, false, Option, none, some, [], ◌∷◌, if◌then◌else◌,
}
use jungle_gaming_challenge.Base.Text.{Text, codes}
use jungle_gaming_challenge.Domain.Wallet.{Wallet, credit}
use jungle_gaming_challenge.Domain.Wager.{
  WagerTransaction, TransactionStatus, pending, pending_reference, processed, rejected, failed,
  transition_to_processed, transition_to_rejected,
}
use jungle_gaming_challenge.Store.{
  credit_entry, Tx, ◌>>=◌, ◌>>◌, lift, pure, time_now, execute_in_transaction, Env, Session,
}
use jungle_gaming_challenge.Repository.Wallet.{find_by_id_with_lock}
use jungle_gaming_challenge.Repository.Transaction.{
  find_by_id_for_update, find_by_external_id_tx, update_transaction_status,
  update_status_with_retry_at,
}
use jungle_gaming_challenge.Usecase.Events.{save_outbox_event, save_balance_changed, wager_json}
use jungle_gaming_challenge.Usecase.Wager.{is_processed}
use jungle_gaming_challenge.Usecase.Process.{second, move_balance}

abbrev pub is_pending_reference : TransactionStatus → Bool
is_pending_reference pending_reference = true
is_pending_reference _ = false

-- `refTx == nil`: the transaction is looked at again in five seconds.
unfoldable pub retry_later : WagerTransaction → Tx (Unit {0})
retry_later p = do now ← time_now; update_status_with_retry_at p (some (now + 5 * second))

-- the reference was not processed
unfoldable pub reject_pending : WagerTransaction → Tx (Unit {0})
reject_pending p = do
  now ← time_now
  p' ← lift (transition_to_rejected p (codes "INVALID_REFERENCE") now)
  update_transaction_status p'

-- the reference was processed: the amount goes back to the wallet that was read
unfoldable pub credit_locked : WagerTransaction → Wallet → Tx (Unit {0})
credit_locked p wallet = do
  now ← time_now
  new ← lift (credit wallet p.money now)
  processed_at ← time_now
  p' ← lift (transition_to_processed p processed_at)
  update_transaction_status p'
  move_balance p' wallet new credit_entry
  save_outbox_event p'.id (codes "WagerTransactionProcessed") (wager_json p')
  save_balance_changed p' wallet.balance.amount new credit_entry

unfoldable pub credit_pending : WagerTransaction → Tx (Unit {0})
unfolding credit_locked
credit_pending p = do wallet ← find_by_id_with_lock p.wallet_id; credit_locked p wallet

abbrev pub resolve_by_found : WagerTransaction → Option WagerTransaction → Tx (Unit {0})
resolve_by_found p none = retry_later p
resolve_by_found p (some r) = if is_processed r.status then credit_pending p else reject_pending p

unfoldable pub resolve_by_reference : WagerTransaction → Tx (Unit {0})
unfolding retry_later reject_pending credit_pending
resolve_by_reference p = do
  ref ← find_by_external_id_tx p.provider_id p.reference_external_id
  resolve_by_found p ref

abbrev pub resolve_found : Option WagerTransaction → Tx (Unit {0})
resolve_found none = pure tt
resolve_found (some p) = if is_pending_reference p.status then resolve_by_reference p else pure tt

unfoldable pub resolve_body : Text → Tx (Unit {0})
unfolding resolve_by_reference
resolve_body pending_id = do found ← find_by_id_for_update pending_id; resolve_found found

unfoldable pub resolve_pending_reference : Text → Tx (Unit {0})
unfolding resolve_body
resolve_pending_reference pending_id = execute_in_transaction (resolve_body pending_id)
