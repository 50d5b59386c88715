-- ===== src/Usecase/Wager.antt =====
-- internal/usecase/wager_usecase.go: `ProcessTransactionWithInbox`, block by block. The variables that
-- its closure sets (`resultTx`, `finalWallet`, `idempotentReplay`) are the closure's result here.
use jungle_gaming_challenge.Base.{Bool, true, false, not, Option, none, some, if◌then◌else◌}
use jungle_gaming_challenge.Base.Text.{Text, text_eq}
use jungle_gaming_challenge.Errors.{
  Result, ok, err, Error, insufficient_balance, reference_not_usable, unsupported_kind,
  transaction_conflict, duplicate_transaction,
}
use jungle_gaming_challenge.Domain.Wallet.{Wallet, debit, credit}
use jungle_gaming_challenge.Domain.Wager.{
  WagerTransaction, TransactionKind, opening, bet, win, loss, refund, rollback, unknown,
  TransactionStatus, processed, mark_as_idempotent_replay,
}
use jungle_gaming_challenge.Store.{
  Direction, debit_entry, credit_entry, Tx, ◌>>=◌, lift, pure, raise, attempt, time_now,
}
use jungle_gaming_challenge.Repository.Wallet.{find_by_id_with_lock}
use jungle_gaming_challenge.Repository.Transaction.{find_by_external_id_tx, find_by_idempotency_key}

pub record InboxClaim : Type 0 where
  pub consumer_name : Text
  pub message_id : Text
  pub payload_hash : Text

-- `InputTransactionDTO`
pub record InputTransaction : Type 0 where
  pub provider_id : Text
  pub external_transaction_id : Text
  pub idempotency_key : Text
  pub player_id : Text
  pub wallet_id : Text
  pub round_id : Text
  pub game_id : Text
  pub kind : Text
  pub amount : Text
  pub currency : Text
  pub reference_external_id : Text

-- `OutputTransactionDTO`, with the two fields of its `MoneyDTO`
pub record OutputTransaction : Type 0 where
  pub transaction_id : Text
  pub status : Text
  pub balance_amount : Text
  pub balance_currency : Text
  pub idempotent_replay : Bool

-- What the closure leaves in the variables around it.
pub record Outcome : Type 0 where
  pub result_tx : WagerTransaction
  pub final_wallet : Wallet
  pub idempotent_replay : Bool

abbrev pub outcome : WagerTransaction → Wallet → Bool → Outcome
outcome t w replay = record { result_tx = t; final_wallet = w; idempotent_replay = replay }

abbrev pub is_processed : TransactionStatus → Bool
is_processed processed = true
is_processed _ = false

-- a stored transaction is returned only for the same payload
abbrev pub same_payload : Text → WagerTransaction → Result (Option WagerTransaction)
same_payload expected_hash t =
    if not (text_eq t.payload_hash expected_hash) then err transaction_conflict else ok (some t)

abbrev pub found_by_key : Text → Option WagerTransaction → Tx (Option WagerTransaction)
found_by_key expected_hash none = pure none
found_by_key expected_hash (some t) = lift (same_payload expected_hash t)

abbrev pub found_by_external :
    InputTransaction → Text → Option WagerTransaction → Tx (Option WagerTransaction)
found_by_external input expected_hash none = do
  by_key ← find_by_idempotency_key input.idempotency_key
  found_by_key expected_hash by_key
found_by_external input expected_hash (some t) = lift (same_payload expected_hash t)

unfoldable pub lookup_existing : InputTransaction → Text → Tx (Option WagerTransaction)
lookup_existing input expected_hash = do
  by_external ← find_by_external_id_tx input.provider_id input.external_transaction_id
  found_by_external input expected_hash by_external

-- a stored transaction as the answer, with its wallet
unfoldable pub replay : WagerTransaction → Tx Outcome
replay existing = do
  wallet ← find_by_id_with_lock existing.wallet_id
  pure (outcome (mark_as_idempotent_replay existing) wallet true)

abbrev pub replay_or_conflict : Option WagerTransaction → Tx Outcome
replay_or_conflict none = raise transaction_conflict
replay_or_conflict (some existing) = replay existing

unfoldable pub handle_save_conflict : InputTransaction → WagerTransaction → Error → Tx Outcome
unfolding lookup_existing replay
handle_save_conflict input t duplicate_transaction = do
  existing ← lookup_existing input t.payload_hash
  replay_or_conflict existing
handle_save_conflict input t save_err = raise save_err

abbrev pub after_save :
    InputTransaction → WagerTransaction → Tx Outcome → Result (Unit {0}) → Tx Outcome
after_save input t rest (ok saved) = rest
after_save input t rest (err e) = handle_save_conflict input t e

-- `if err := save; err != nil { return u.handleSaveConflict(...) }`, and what follows it
unfoldable pub saved_or_replayed :
    InputTransaction → WagerTransaction → Tx (Unit {0}) → Tx Outcome → Tx Outcome
unfolding handle_save_conflict
saved_or_replayed input t save_tx rest = do r ← attempt save_tx; after_save input t rest r

-- What the switch on the kind leaves behind: the wallet to write with its direction, or why none is.
pub data Effect : Type 0 where
  insufficient awaiting_reference unmoved : Effect
  moved : Wallet → Direction → Effect

abbrev pub debit_effect : Result Wallet → Result Effect
debit_effect (ok w) = ok (moved w debit_entry)
debit_effect (err insufficient_balance) = ok insufficient
debit_effect (err e) = err e

abbrev pub credit_effect : Result Wallet → Result Effect
credit_effect (ok w) = ok (moved w credit_entry)
credit_effect (err e) = err e

abbrev pub debited : WagerTransaction → Wallet → Tx Effect
debited t wallet = do now ← time_now; lift (debit_effect (debit wallet t.money now))

abbrev pub credited : WagerTransaction → Wallet → Tx Effect
credited t wallet = do now ← time_now; lift (credit_effect (credit wallet t.money now))

abbrev pub found_reference : WagerTransaction → Wallet → Option WagerTransaction → Tx Effect
found_reference t wallet none = pure awaiting_reference
found_reference t wallet (some r) =
    if is_processed r.status then credited t wallet else raise reference_not_usable

-- REFUND and ROLLBACK give the amount back if what they refer to has been processed.
unfoldable pub reference_effect : WagerTransaction → Wallet → Tx Effect
reference_effect t wallet = do
  ref ← find_by_external_id_tx t.provider_id t.reference_external_id
  found_reference t wallet ref

-- `switch wagerTx.Kind()`
unfoldable pub kind_effect : TransactionKind → WagerTransaction → Wallet → Tx Effect
unfolding reference_effect
kind_effect bet t wallet = debited t wallet
kind_effect win t wallet = credited t wallet
kind_effect loss t wallet = pure unmoved
kind_effect refund t wallet = reference_effect t wallet
kind_effect rollback t wallet = reference_effect t wallet
kind_effect opening t wallet = raise unsupported_kind
kind_effect (unknown s) t wallet = raise unsupported_kind
