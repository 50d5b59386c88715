-- ===== src/Tests/Program.antt =====
-- The theorems on the use cases and the store at concrete requests.
use jungle_gaming_challenge.Base.{
  ◌≡◌, ◌≢◌, ◌⊎◌, refl, sym, subst, true, false, [], ◌∷◌, none, some, arith,
}
use jungle_gaming_challenge.Base.Text.{codes, text_eq, text_eq_self}
use jungle_gaming_challenge.Base.Int.{ℤ, pos, sub64, add64, wrap64, ◌-ℤ◌, ◌+ℤ◌, ◌≤ℤ◌, max_int64}
use jungle_gaming_challenge.Errors.{Result, ok, err, Error, transaction_conflict}
use jungle_gaming_challenge.Domain.Money.{
  new_money_from_string, normalize, is_currency_supported, is_zero, is_negative, new_internal_money,
}
use jungle_gaming_challenge.Domain.Money.Digits.{parse_int}
use jungle_gaming_challenge.Domain.Wallet.{rehydrate_wallet}
use jungle_gaming_challenge.Domain.Wager.{
  WagerTransaction, bet, refund, pending, pending_reference, processed, failed,
  calculate_and_set_payload_hash, new_wager_transaction, transaction_kind,
  rehydrate_wager_transaction, status_text,
}
use jungle_gaming_challenge.Domain.Wager.Lifecycle.{
  process, defer, reject, call, Moves, run, call-Moves, run-ne-failed,
}
use jungle_gaming_challenge.Domain.Wager.Creation.{is_ok, new_wager_transaction-Makes}
use jungle_gaming_challenge.Store.{Session, time_now, TransactionRow}
use jungle_gaming_challenge.Store.Rules.{Yields}
use jungle_gaming_challenge.Store.Update.{select_by_external_id, select_wallet}
use jungle_gaming_challenge.Repository.Transaction.{
  transaction_row, wager_of_row, save_with_retry_at,
}
use jungle_gaming_challenge.Repository.Wallet.{
  wallet_of_row, total_credits, total_debits, count_entries,
}
use jungle_gaming_challenge.Repository.Reconciled.{Reconciled, ledger_balance}
use jungle_gaming_challenge.Usecase.Process.{
  process_transaction, process_transaction_with_inbox, new_wager,
}
use jungle_gaming_challenge.Usecase.Process.Once.{MovedAsAsked, process-MovesOnce}
use jungle_gaming_challenge.Usecase.Process.Conserves.{process-Reconciled}
use jungle_gaming_challenge.Usecase.Process.Redelivery.{redelivery-Fails, was_claimed}
use jungle_gaming_challenge.Usecase.Process.Outcomes.{repeated-unchanged}
use jungle_gaming_challenge.Usecase.Process.Replay.{repeated-replayed, repeated-conflict}
use jungle_gaming_challenge.Usecase.Reconciliation.{ReconciliationOutput, reconcile}
use jungle_gaming_challenge.Usecase.Reconciliation.Sound.{IsReport, reconcile-exact}
use jungle_gaming_challenge.Usecase.Resolve.{resolve_pending_reference}
use jungle_gaming_challenge.Usecase.Resolve.Sound.{resolve-Reconciled}
use jungle_gaming_challenge.Usecase.OpenWallet.{open_wallet}
use jungle_gaming_challenge.Usecase.OpenWallet.Ledger.{open_wallet-Reconciled}
use jungle_gaming_challenge.Tests.World.{steady, no_rows, session, config, opening_input, claim}
use jungle_gaming_challenge.Tests.Runs.{opened, bet_request, bet_made, ana, ana_row, stored}
use jungle_gaming_challenge.Domain.Money.Digits.{format_nat}
use jungle_gaming_challenge.Domain.Money.{to_text}

abbrev after_opening : Session
after_opening = (open_wallet config opening_input steady (session no_rows)).1

open_wallet-Reconciled_example : Reconciled after_opening.db.wallets after_opening.db.ledger
open_wallet-Reconciled_example =
    open_wallet-Reconciled config opening_input steady (session no_rows) (tt, tt)

opened-Reconciled : Reconciled opened.db.wallets opened.db.ledger
opened-Reconciled = open_wallet-Reconciled config opening_input steady (session no_rows) (tt, tt)

abbrev after_bet : Session
after_bet = (process_transaction_with_inbox config bet_request (some claim) steady opened).1

process-Reconciled_example : Reconciled after_bet.db.wallets after_bet.db.ledger
process-Reconciled_example =
    process-Reconciled config bet_request (some claim) steady opened opened-Reconciled

process-MovesOnce_example :
    ((after_bet.db.wallets ≡ opened.db.wallets) × (after_bet.db.ledger ≡ opened.db.ledger))
    ⊎ MovedAsAsked bet_request opened.db.wallets opened.db.ledger after_bet.db.wallets
        after_bet.db.ledger
process-MovesOnce_example =
    process-MovesOnce config bet_request (some claim) steady opened opened-Reconciled

-- a refund that waits, and the bet that it refers to, which has been processed
abbrev pending_refund : TransactionRow
pending_refund = record (transaction_row (bet_made [] 7) none) {
  kind = refund;
  status = pending_reference;
  reference_external_id = some (codes "0");
}

abbrev processed_bet : TransactionRow
processed_bet = record (transaction_row (bet_made [] 7) none) {
  id = codes "tx_p_0";
  external_transaction_id = codes "0";
  idempotency_key = codes "k0";
  status = processed;
}

abbrev with_refund : Session
with_refund = record opened {
  db = record opened.db { transactions = pending_refund ∷ processed_bet ∷ opened.db.transactions };
}

abbrev after_resolution : Session
after_resolution = (resolve_pending_reference (codes "tx_p_1") steady with_refund).1

resolve-Reconciled_example : Reconciled after_resolution.db.wallets after_resolution.db.ledger
resolve-Reconciled_example =
    resolve-Reconciled (codes "tx_p_1") steady with_refund opened-Reconciled

-- the bet as the use case makes it, and as it is stored
abbrev hashed_bet : WagerTransaction
hashed_bet = calculate_and_set_payload_hash steady.sha256_json (bet_made [] 7)

abbrev bet_row : TransactionRow
bet_row = transaction_row hashed_bet none

abbrev with_bet : Session
with_bet = session (stored bet_row)

bet_stored :
    select_by_external_id bet_request.provider_id bet_request.external_transaction_id with_bet.db
    ≡ some bet_row
unfolding select_by_external_id text_eq calculate_and_set_payload_hash
bet_stored = refl

made :
    new_wager config bet_request steady with_bet ≡ (ok hashed_bet, record with_bet { readings = 1 })
unfolding new_wager new_money_from_string normalize parse_int sub64 wrap64 ◌-ℤ◌
    is_currency_supported text_eq time_now new_wager_transaction transaction_kind is_zero add64 ◌+ℤ◌
    is_negative
made = refl

repeated-unchanged_example :
    (process_transaction config bet_request steady with_bet).1.db ≡ with_bet.db
repeated-unchanged_example =
    repeated-unchanged config bet_request steady with_bet bet_row bet_stored

-- the stored bet has the payload of the request
same_hash : text_eq (wager_of_row bet_row).payload_hash hashed_bet.payload_hash ≡ true
unfolding wager_of_row rehydrate_wager_transaction
same_hash = text_eq_self hashed_bet.payload_hash

ana_stored : select_wallet (wager_of_row bet_row).wallet_id with_bet.db ≡ some ana_row
unfolding select_wallet text_eq wager_of_row rehydrate_wager_transaction
    calculate_and_set_payload_hash
ana_stored = refl

ana_read : wallet_of_row ana_row ≡ ok ana
unfolding rehydrate_wallet is_negative new_internal_money normalize
ana_read = refl

repeated-replayed_example :
    (process_transaction config bet_request steady with_bet).0
    ≡ ok (record {
      transaction_id = codes "tx_p_1";
      status = codes "PENDING";
      balance_amount = to_text ana.balance;
      balance_currency = codes "BRL";
      idempotent_replay = true;
    })
unfolding calculate_and_set_payload_hash status_text
repeated-replayed_example =
    repeated-replayed config bet_request steady with_bet (record with_bet { readings = 1 })
      hashed_bet bet_row (λ n. refl) made bet_stored ana_row ana same_hash ana_stored ana_read

-- the same external id with another payload
abbrev other_row : TransactionRow
other_row = transaction_row (bet_made (codes "h") 8) none

abbrev with_other : Session
with_other = session (stored other_row)

other_stored :
    select_by_external_id bet_request.provider_id bet_request.external_transaction_id with_other.db
    ≡ some other_row
unfolding select_by_external_id text_eq
other_stored = refl

other_made :
    new_wager config bet_request steady with_other
    ≡ (ok hashed_bet, record with_other { readings = 1 })
unfolding new_wager new_money_from_string parse_int sub64 wrap64 ◌-ℤ◌ is_currency_supported text_eq
    time_now new_wager_transaction transaction_kind is_zero add64 ◌+ℤ◌ is_negative
other_made = refl

other_hash : text_eq (wager_of_row other_row).payload_hash hashed_bet.payload_hash ≡ false
unfolding wager_of_row text_eq rehydrate_wager_transaction calculate_and_set_payload_hash format_nat
    to_text
other_hash = refl

repeated-conflict_example :
    (process_transaction config bet_request steady with_other).0 ≡ err transaction_conflict
repeated-conflict_example =
    repeated-conflict config bet_request steady with_other (record with_other { readings = 1 })
      hashed_bet other_row (λ n. refl) other_made other_stored other_hash

abbrev with_ana : Session
with_ana = session (record no_rows { wallets = ana_row ∷ [] })

abbrev saved : Session
saved = (save_with_retry_at (bet_made (codes "h") 8) none steady with_ana).1

ledger_sums :
    (total_credits ana.id with_bet.db.ledger ≡ pos 10000)
    × (total_debits ana.id with_bet.db.ledger ≡ pos 3050)
unfolding text_eq ◌+ℤ◌
ledger_sums = (refl, refl)

abbrev Fits : ℤ → Type 0
Fits a = (pos 0 ≤ℤ a) × (a ≤ℤ max_int64)

Fits-10000 : Fits (pos 10000)
Fits-10000 = (omega arith, omega arith)

Fits-3050 : Fits (pos 3050)
Fits-3050 = (omega arith, omega arith)

credits_fit : Fits (total_credits ana.id with_bet.db.ledger)
credits_fit = subst Fits (sym ledger_sums.0) Fits-10000

debits_fit : Fits (total_debits ana.id with_bet.db.ledger)
debits_fit = subst Fits (sym ledger_sums.1) Fits-3050

reconcile-exact_example :
    (found : ReconciliationOutput) × ((reconcile ana.id steady with_bet).0 ≡ ok found)
    × IsReport ana.id ana
        (ledger_balance ana.id with_bet.db.ledger)
        (count_entries ana.id with_bet.db.ledger)
        found
unfolding wager_of_row rehydrate_wager_transaction calculate_and_set_payload_hash
reconcile-exact_example =
    reconcile-exact ana.id steady with_bet ana_row ana refl refl ana_stored ana_read
      (omega arith, omega arith) credits_fit.0 credits_fit.1 debits_fit.0 debits_fit.1

abbrev made_bet : Result WagerTransaction
made_bet =
    new_wager_transaction (codes "tx_p_1") (codes "p") (codes "1") (codes "k1")
      (codes "wal_ana_brl") (codes "ana") (codes "r") (codes "g") bet
      (record { amount = pos 3050; currency = codes "BRL" }) [] 7

new_wager_transaction-Makes_example :
    (is_ok made_bet ≡ true)
    × Yields
        (λ t.
          (t.status ≡ pending)
          × (t.kind ≡ bet)
          × (t.money ≡ record { amount = pos 3050; currency = codes "BRL" }))
        made_bet
new_wager_transaction-Makes_example =
    new_wager_transaction-Makes (codes "tx_p_1") (codes "p") (codes "1") (codes "k1")
      (codes "wal_ana_brl") (codes "ana") (codes "r") (codes "g") bet
      (record { amount = pos 3050; currency = codes "BRL" }) [] 7

-- an inbox that holds the message
abbrev claimed : Session
claimed = session (record no_rows {
  inbox =
      record {
        message_id = claim.message_id;
        consumer_name = claim.consumer_name;
        payload_hash = claim.payload_hash;
        received_at = 7;
        processed_at = 7;
      }
      ∷ [];
})

message_claimed : was_claimed claim claimed.db.inbox ≡ true
unfolding text_eq
message_claimed = refl

redelivery-Fails_example :
    let p = process_transaction_with_inbox config bet_request (some claim) steady claimed in
    ((e : Error) × (p.0 ≡ err e)) × (p.1.db ≡ claimed.db)
redelivery-Fails_example = redelivery-Fails config bet_request claim steady claimed message_claimed

call-Moves_example : Moves process (bet_made [] 7) (call process (bet_made [] 7) 8)
call-Moves_example = call-Moves process (bet_made [] 7) 8

abbrev done_bet : WagerTransaction
done_bet = record (bet_made [] 7) { status = processed }

run-ne-failed_example :
    (run ((defer, 8) ∷ (reject (codes "X"), 9) ∷ []) (bet_made [] 7)).status ≢ failed
run-ne-failed_example =
    run-ne-failed ((defer, 8) ∷ (reject (codes "X"), 9) ∷ []) (bet_made [] 7) (λ e. cc e)
