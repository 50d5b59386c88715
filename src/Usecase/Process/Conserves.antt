-- ===== src/Usecase/Process/Conserves.antt =====
-- Wallets and ledger under `ProcessTransactionWithInbox`, from the parts of its closure up to the method.
use jungle_gaming_challenge.Base.{
  ◌≡◌, ℕ, arith, refl, sym, subst, true, List, Option, none, some, not,
}
use jungle_gaming_challenge.Base.Text.{Text, text_eq}
use jungle_gaming_challenge.Errors.{
  Result, ok, err, fail_if, duplicate_message, wallet_owner_mismatch, incompatible_currency,
}
use jungle_gaming_challenge.Config.{Config}
use jungle_gaming_challenge.Domain.Money.{Money, new_money_from_string, is_currency_supported}
use jungle_gaming_challenge.Domain.Wallet.{Wallet}
use jungle_gaming_challenge.Domain.Wager.{
  WagerTransaction, calculate_and_set_payload_hash, transaction_kind, new_wager_transaction,
}
use jungle_gaming_challenge.Store.{Env, Session, WalletRow, LedgerRow, pure}
use jungle_gaming_challenge.Store.Rules.{
  Quiet, Any, Yields, bind-Quiet, lift-Quiet, pure-Quiet, raise-Quiet, attempt-Quiet,
  time_now-Quiet,
}
use jungle_gaming_challenge.Store.Invariant.{
  Money2, Safe, Quiet-Safe, bind-Safe, Quiet-Keeps, transaction-Keeps, bind-Keeps,
}
use jungle_gaming_challenge.Repository.Spares.{
  Yields-Any, find_by_external_id_tx-Quiet, find_by_id_with_lock-Quiet, save_inbox-Quiet,
}
use jungle_gaming_challenge.Repository.Reconciled.{Reconciled}
use jungle_gaming_challenge.Repository.Reconciled.Reading.{find-Safe}
use jungle_gaming_challenge.Usecase.Wager.{
  InboxClaim, InputTransaction, outcome, Effect, insufficient, awaiting_reference, unmoved, moved,
}
use jungle_gaming_challenge.Usecase.Process.OnWallet.{OnWallet, direction_of, kind_effect-Quiet}
use jungle_gaming_challenge.Usecase.Process.Writes.{
  lookup_existing-Quiet, replay-Quiet, reject_bet-Safe, await_reference-Safe, settle-Safe,
  record_move-Safe, Moves, read-Moves,
}
use jungle_gaming_challenge.Usecase.Process.{
  move_balance, record_move, apply_effect, process_locked, process_new, hashed, process_once,
  replay_or_process, replay_or_acknowledge, after_claim, replay_claimed, process_body,
  process_transaction_with_inbox, new_wager, output, internal_tx_id,
}

module _ {I P : Money2} (w : Wallet)
    (P→I : (ws : List WalletRow) (ls : List LedgerRow) → P ws ls → I ws ls)
    (input : InputTransaction) (t : WagerTransaction)
    (moves : Moves I P (direction_of t.kind) t.money w) where
  apply_effect-Safe :
      (effect : Effect)
      → OnWallet (direction_of t.kind) w effect
      → Safe I P (apply_effect effect input t w)
  unfolding apply_effect
  apply_effect-Safe insufficient on = reject_bet-Safe input t w P→I
  apply_effect-Safe awaiting_reference on = await_reference-Safe input t w P→I
  apply_effect-Safe unmoved on =
      settle-Safe input t w P→I (pure tt) (Quiet-Safe {R = Any} (pure-Quiet tt tt) P→I)
  apply_effect-Safe (moved new d) on = settle-Safe input t new P→I (record_move t w new d) (
      record_move-Safe t w new d
        (subst (λ e. Safe I P (move_balance t w new e)) (sym on.2) (moves t new refl on.0)))

  pub process_locked-Safe : Safe I P (process_locked input t w)
  unfolding process_locked
  process_locked-Safe =
      bind-Safe {R = Any}
        (lift-Quiet (fail_if (not (text_eq w.player_id t.player_id)) wallet_owner_mismatch)
          (Yields-Any _))
        λ _ _. bind-Safe (kind_effect-Quiet t.kind t w) apply_effect-Safe

process_new-Safe :
    (input : InputTransaction) (t : WagerTransaction)
    → Safe Reconciled Reconciled (process_new input t)
unfolding process_new
process_new-Safe input t = find-Safe t.wallet_id (λ w _.
    process_locked-Safe w (λ ws ls k. k.0) input t (read-Moves (direction_of t.kind) t.money w))

replay_or_acknowledge-Quiet :
    (input : InputTransaction) (t : WagerTransaction) (o : Option WagerTransaction)
    → Quiet Any (replay_or_acknowledge input t o)
replay_or_acknowledge-Quiet input t none =
    bind-Quiet {R = Any} (find_by_id_with_lock-Quiet input.wallet_id)
      (λ w _. pure-Quiet (outcome t w true) tt)
replay_or_acknowledge-Quiet input t (some e) = replay-Quiet e

replay_claimed-Quiet :
    (input : InputTransaction) (t : WagerTransaction) → Quiet Any (replay_claimed input t)
unfolding replay_claimed
replay_claimed-Quiet input t =
    bind-Quiet {R = Any}
      (find_by_external_id_tx-Quiet input.provider_id input.external_transaction_id)
      (λ o _. replay_or_acknowledge-Quiet input t o)

-- The closure around `process_new`, which alone moves money.
module _ {I P : Money2} (P→I : (ws : List WalletRow) (ls : List LedgerRow) → P ws ls → I ws ls)
    (input : InputTransaction) (t : WagerTransaction) (new : Safe I P (process_new input t)) where
  replay_or_process-Safe : (o : Option WagerTransaction) → Safe I P (replay_or_process input t o)
  replay_or_process-Safe none = new
  replay_or_process-Safe (some e) = Quiet-Safe (replay-Quiet e) P→I

  process_once-Safe : Safe I P (process_once input t)
  unfolding process_once
  process_once-Safe =
      bind-Safe {R = Any} (lookup_existing-Quiet input t.payload_hash)
        (λ o _. replay_or_process-Safe o)

  after_claim-Safe : (r : Result (Unit {0})) → Safe I P (after_claim input t r)
  after_claim-Safe (ok claimed) = process_once-Safe
  after_claim-Safe (err duplicate_message) = Quiet-Safe (replay_claimed-Quiet input t) P→I
  after_claim-Safe (err e) = Quiet-Safe {R = Any} (raise-Quiet e) P→I

  pub process_body-Safe : (inbox : Option InboxClaim) → Safe I P (process_body input t inbox)
  unfolding process_body
  process_body-Safe none = process_once-Safe
  process_body-Safe (some inbox) =
      bind-Safe {R = Yields Any}
        (attempt-Quiet (save_inbox-Quiet inbox.consumer_name inbox.message_id inbox.payload_hash))
        (λ r _. after_claim-Safe r)

-- The transaction moves the money of the request's text, for the request's wallet, by its kind.
abbrev pub Asked : InputTransaction → WagerTransaction → Type 0
Asked input t =
    (new_money_from_string input.amount input.currency ≡ ok t.money)
    × (t.kind ≡ transaction_kind input.kind)
    × (t.wallet_id ≡ input.wallet_id)

hashed-Quiet :
    (input : InputTransaction) (t : WagerTransaction)
    → Asked input t
    → Quiet (Asked input) (hashed t)
unfolding calculate_and_set_payload_hash
hashed-Quiet input t k = record { runs = λ env s. ((refl, refl), k) }

Yields-itself : {A : Type 0} (r : Result A) → Yields (λ a. r ≡ ok a) r
Yields-itself (ok a) = refl
Yields-itself (err e) = tt

module _ (id : Text) (input : InputTransaction) (m : Money) (now : ℕ) where
  abbrev new_transaction : Result WagerTransaction
  new_transaction =
      new_wager_transaction id input.provider_id input.external_transaction_id input.idempotency_key
        input.wallet_id input.player_id input.round_id input.game_id (transaction_kind input.kind) m
        input.reference_external_id now

  new_transaction-Asked :
      new_money_from_string input.amount input.currency ≡ ok m
      → Yields (Asked input) new_transaction
  unfolding new_wager_transaction
  new_transaction-Asked h = ground arith

pub new_wager-Quiet :
    (cfg : Config) (input : InputTransaction) → Quiet (Asked input) (new_wager cfg input)
unfolding new_wager
new_wager-Quiet cfg input =
    bind-Quiet
      (lift-Quiet (new_money_from_string input.amount input.currency)
        (Yields-itself (new_money_from_string input.amount input.currency)))
      λ money asked.
        bind-Quiet {R = Any}
          (lift-Quiet
            (fail_if (not (is_currency_supported money cfg.supported_currencies))
              incompatible_currency)
            (Yields-Any _))
          λ _ _. bind-Quiet {R = Any} time_now-Quiet λ now _.
            bind-Quiet
              (lift-Quiet
                (new_transaction (internal_tx_id input.provider_id input.external_transaction_id)
                  input money now)
                (new_transaction-Asked _ input money now asked))
              λ t k. hashed-Quiet input t k

-- Processing a request, with or without an inbox, keeps the wallets tied to the ledger: if before it
-- every wallet's balance is zero or more and the sum of its credits less its debits, wallet ids are
-- unique and every entry belongs to a wallet, then so it is afterwards. That holds for every request
-- and configuration, whether the call succeeds or fails, wherever a statement, BEGIN or COMMIT fails.
pub process-Reconciled :
    (cfg : Config) (input : InputTransaction) (inbox : Option InboxClaim) (env : Env) (s : Session)
    → Reconciled s.db.wallets s.db.ledger
    → let after = (process_transaction_with_inbox cfg input inbox env s).1.db in
      Reconciled after.wallets after.ledger
unfolding process_transaction_with_inbox
process-Reconciled cfg input inbox env s k =
    (bind-Keeps {I = Reconciled} (Quiet-Keeps (new_wager-Quiet cfg input)) λ t.
        bind-Keeps
          (transaction-Keeps
            (process_body-Safe (λ ws ls k. k) input t (process_new-Safe input t) inbox))
          λ o. Quiet-Keeps {R = Any} (pure-Quiet (output o) tt)).runs
      env s k
