-- ===== src/Usecase/Process.antt =====
-- internal/usecase/wager_usecase.go: the closure of `ProcessTransactionWithInbox` from the switch on the
-- kind to its end, and the whole method.
pub mod Writes
pub mod OnWallet
pub mod Conserves
pub mod Moved
pub mod Once
pub mod Redelivery
pub mod Outcomes
pub mod Replay
pub mod Reads
pub mod Stable
pub mod Claims
use jungle_gaming_challenge.Base.{
  ℕ, ◌+◌, ◌*◌, Bool, true, false, not, List, [], ◌∷◌, ◌++◌, Option, none, some, if◌then◌else◌,
}
use jungle_gaming_challenge.Base.Text.{Text, codes, text_eq}
use jungle_gaming_challenge.Base.Int.{ℤ}
use jungle_gaming_challenge.Errors.{
  Result, ok, err, Error, fail_if, incompatible_currency, wallet_owner_mismatch, duplicate_message,
}
use jungle_gaming_challenge.Config.{Config}
use jungle_gaming_challenge.Domain.Money.{
  Money, new_money_from_string, is_currency_supported, to_text,
}
use jungle_gaming_challenge.Domain.Wallet.{Wallet}
use jungle_gaming_challenge.Domain.Wager.{
  WagerTransaction, transaction_kind, status_text, new_wager_transaction, transition_to_processed,
  transition_to_pending_reference, transition_to_rejected, calculate_and_set_payload_hash,
}
use jungle_gaming_challenge.Store.{
  Direction, Env, Session, Tx, ◌>>=◌, ◌>>◌, lift, pure, raise, attempt, time_now,
  execute_in_transaction,
}
use jungle_gaming_challenge.Repository.Wallet.{find_by_id_with_lock, update}
use jungle_gaming_challenge.Repository.Transaction.{
  LedgerEntry, find_by_external_id_tx, save, save_with_retry_at, save_ledger_entry,
}
use jungle_gaming_challenge.Repository.Messaging.{save_inbox}
use jungle_gaming_challenge.Usecase.Events.{save_outbox_event, save_balance_changed, wager_json}
use jungle_gaming_challenge.Usecase.Wager.{
  InboxClaim, InputTransaction, OutputTransaction, Outcome, outcome, lookup_existing, replay,
  saved_or_replayed, Effect, insufficient, awaiting_reference, unmoved, moved, kind_effect,
}

-- `time.Second` in nanoseconds
abbrev pub second : ℕ
second = 1_000_000_000

-- A bet above the balance is kept as rejected, and the wallet as it was read.
unfoldable pub reject_bet : InputTransaction → WagerTransaction → Wallet → Tx Outcome
unfolding saved_or_replayed
reject_bet input t wallet = do
  now ← time_now
  t' ← lift (transition_to_rejected t (codes "INSUFFICIENT_BALANCE") now)
  saved_or_replayed input t' (save t') do
    save_outbox_event t'.id (codes "WagerTransactionRejected") (wager_json t')
    pure (outcome t' wallet false)

-- `if pendingReference`
unfoldable pub await_reference : InputTransaction → WagerTransaction → Wallet → Tx Outcome
unfolding saved_or_replayed
await_reference input t wallet = do
  now ← time_now
  t' ← lift (transition_to_pending_reference t now)
  retry_base ← time_now
  saved_or_replayed input t' (save_with_retry_at t' (some (retry_base + 5 * second))) do
    save_outbox_event t'.id (codes "WagerTransactionPendingReference") (wager_json t')
    pure (outcome t' wallet false)

abbrev pub ledger_entry : WagerTransaction → Wallet → Wallet → Direction → LedgerEntry
ledger_entry t old new direction = record {
  id = codes "led_" ++ t.id;
  wallet_id = new.id;
  transaction_id = t.id;
  direction = direction;
  amount = t.money.amount;
  balance_before = old.balance.amount;
  balance_after = new.balance.amount;
}

-- The new balance under the version that was read, and its entry in the ledger.
unfoldable pub move_balance : WagerTransaction → Wallet → Wallet → Direction → Tx (Unit {0})
move_balance t old new direction = do
  update new old.version
  save_ledger_entry (ledger_entry t old new direction)

-- `if updateWallet`
unfoldable pub record_move : WagerTransaction → Wallet → Wallet → Direction → Tx (Unit {0})
unfolding move_balance
record_move t old new direction = do
  move_balance t old new direction
  save_balance_changed t old.balance.amount new direction

-- The end of the closure, with the writes that an effect on the wallet asks for.
unfoldable pub settle : InputTransaction → WagerTransaction → Wallet → Tx (Unit {0}) → Tx Outcome
unfolding saved_or_replayed
settle input t wallet moves = do
  now ← time_now
  t' ← lift (transition_to_processed t now)
  saved_or_replayed input t' (save t') do
    moves
    save_outbox_event t'.id (codes "WagerTransactionProcessed") (wager_json t')
    pure (outcome t' wallet false)

-- The fields of the transaction that `record_move` reads do not change when it is marked as processed.
unfoldable pub apply_effect : Effect → InputTransaction → WagerTransaction → Wallet → Tx Outcome
unfolding reject_bet await_reference settle record_move
apply_effect insufficient input t wallet = reject_bet input t wallet
apply_effect awaiting_reference input t wallet = await_reference input t wallet
apply_effect unmoved input t wallet = settle input t wallet (pure tt)
apply_effect (moved new direction) input t wallet =
    settle input t new (record_move t wallet new direction)

-- The closure from the wallet that it has read on.
unfoldable pub process_locked : InputTransaction → WagerTransaction → Wallet → Tx Outcome
unfolding apply_effect
process_locked input t wallet = do
  lift (fail_if (not (text_eq wallet.player_id t.player_id)) wallet_owner_mismatch)
  effect ← kind_effect t.kind t wallet
  apply_effect effect input t wallet

-- The closure behind the inbox.
unfoldable pub process_new : InputTransaction → WagerTransaction → Tx Outcome
unfolding process_locked
process_new input t = do wallet ← find_by_id_with_lock t.wallet_id; process_locked input t wallet

abbrev pub replay_or_process :
    InputTransaction → WagerTransaction → Option WagerTransaction → Tx Outcome
replay_or_process input t none = process_new input t
replay_or_process input t (some existing) = replay existing

unfoldable pub process_once : InputTransaction → WagerTransaction → Tx Outcome
unfolding process_new
process_once input t = do
  existing ← lookup_existing input t.payload_hash
  replay_or_process input t existing

-- What follows `ErrDuplicateMessage` from the inbox.
abbrev pub replay_or_acknowledge :
    InputTransaction → WagerTransaction → Option WagerTransaction → Tx Outcome
replay_or_acknowledge input t none = do
  wallet ← find_by_id_with_lock input.wallet_id
  pure (outcome t wallet true)
replay_or_acknowledge input t (some existing) = replay existing

unfoldable pub replay_claimed : InputTransaction → WagerTransaction → Tx Outcome
replay_claimed input t = do
  existing ← find_by_external_id_tx input.provider_id input.external_transaction_id
  replay_or_acknowledge input t existing

abbrev pub after_claim : InputTransaction → WagerTransaction → Result (Unit {0}) → Tx Outcome
after_claim input t (ok claimed) = process_once input t
after_claim input t (err duplicate_message) = replay_claimed input t
after_claim input t (err e) = raise e

-- The closure that `ExecuteInTransaction` runs.
unfoldable pub process_body : InputTransaction → WagerTransaction → Option InboxClaim → Tx Outcome
unfolding process_once replay_claimed
process_body input t none = process_once input t
process_body input t (some inbox) = do
  claim ← attempt (save_inbox inbox.consumer_name inbox.message_id inbox.payload_hash)
  after_claim input t claim

-- fmt.Sprintf("tx_%s_%s", input.ProviderID, input.ExternalTransactionID)
abbrev pub internal_tx_id : Text → Text → Text
internal_tx_id provider_id external_id = codes "tx_" ++ (provider_id ++ (codes "_" ++ external_id))

abbrev pub hashed : WagerTransaction → Tx WagerTransaction
hashed t env s = (ok (calculate_and_set_payload_hash env.sha256_json t), s)

-- What precedes the database transaction.
unfoldable pub new_wager : Config → InputTransaction → Tx WagerTransaction
new_wager cfg input = do
  money ← lift (new_money_from_string input.amount input.currency)
  lift (fail_if (not (is_currency_supported money cfg.supported_currencies)) incompatible_currency)
  now ← time_now
  t ← lift (
      new_wager_transaction (internal_tx_id input.provider_id input.external_transaction_id)
        input.provider_id input.external_transaction_id input.idempotency_key input.wallet_id
        input.player_id input.round_id input.game_id (transaction_kind input.kind) money
        input.reference_external_id now)
  hashed t

abbrev pub output : Outcome → OutputTransaction
output o = record {
  transaction_id = o.result_tx.id;
  status = status_text o.result_tx.status;
  balance_amount = to_text o.final_wallet.balance;
  balance_currency = o.final_wallet.balance.currency;
  idempotent_replay = o.idempotent_replay;
}

unfoldable pub process_transaction_with_inbox :
    Config → InputTransaction → Option InboxClaim → Tx OutputTransaction
unfolding new_wager process_body
process_transaction_with_inbox cfg input inbox = do
  t ← new_wager cfg input
  o ← execute_in_transaction (process_body input t inbox)
  pure (output o)

unfoldable pub process_transaction : Config → InputTransaction → Tx OutputTransaction
unfolding process_transaction_with_inbox
process_transaction cfg input = process_transaction_with_inbox cfg input none
