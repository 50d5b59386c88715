-- ===== src/Usecase/Process/Reads.antt =====
-- The parts of `ProcessTransactionWithInbox` that read or choose, and properties that no write takes away.
use jungle_gaming_challenge.Base.{true, not, List, Option, none, some}
use jungle_gaming_challenge.Base.Text.{Text}
use jungle_gaming_challenge.Errors.{
  Result, ok, err, Error, fail_if, duplicate_transaction, incompatible_currency,
  transaction_conflict, reference_not_usable, unsupported_kind,
}
use jungle_gaming_challenge.Config.{Config}
use jungle_gaming_challenge.Domain.Money.{new_money_from_string, is_currency_supported}
use jungle_gaming_challenge.Domain.Wallet.{Wallet, debit, credit}
use jungle_gaming_challenge.Domain.Wager.{
  WagerTransaction, TransactionKind, opening, bet, win, loss, refund, rollback, unknown,
  mark_as_idempotent_replay, new_wager_transaction, transaction_kind,
}
use jungle_gaming_challenge.Store.{Tx, JsonValue}
use jungle_gaming_challenge.Store.Always.{
  World, Always, bind-Always, lift-Always, pure-Always, raise-Always, attempt-Always, if-Always,
  time_now-Always,
}
use jungle_gaming_challenge.Repository.Stable.{
  find_by_external_id_tx-Always, find_by_idempotency_key-Always, find_by_id_with_lock-Always,
}
use jungle_gaming_challenge.Usecase.Events.{marshal}
use jungle_gaming_challenge.Usecase.Wager.{
  InputTransaction, Outcome, outcome, same_payload, found_by_key, found_by_external,
  lookup_existing, replay, replay_or_conflict, handle_save_conflict, after_save, saved_or_replayed,
  awaiting_reference, unmoved, debit_effect, credit_effect, debited, credited, found_reference,
  reference_effect, kind_effect, is_processed,
}
use jungle_gaming_challenge.Usecase.Process.{
  hashed, replay_or_acknowledge, replay_claimed, new_wager, internal_tx_id,
}

module _ {P : World} where
  pub marshal-Always : (m : List (Text × JsonValue)) → Always P (marshal m)
  marshal-Always m = record { runs = λ env s h. h }

  pub hashed-Always : (t : WagerTransaction) → Always P (hashed t)
  hashed-Always t = record { runs = λ env s h. h }

  pub new_wager-Always : (cfg : Config) (input : InputTransaction) → Always P (new_wager cfg input)
  unfolding new_wager
  new_wager-Always cfg input =
      bind-Always (lift-Always (new_money_from_string input.amount input.currency)) λ money.
        bind-Always
          (lift-Always (
            fail_if (not (is_currency_supported money cfg.supported_currencies))
              incompatible_currency))
          λ _. bind-Always time_now-Always λ now.
            bind-Always
              (lift-Always (
                new_wager_transaction
                  (internal_tx_id input.provider_id input.external_transaction_id) input.provider_id
                  input.external_transaction_id input.idempotency_key input.wallet_id
                  input.player_id input.round_id input.game_id (transaction_kind input.kind) money
                  input.reference_external_id now))
              hashed-Always

-- The reading parts.
module _ {P : World} where
  found_by_key-Always : (h : Text) (o : Option WagerTransaction) → Always P (found_by_key h o)
  found_by_key-Always h none = pure-Always none
  found_by_key-Always h (some t) = lift-Always (same_payload h t)

  found_by_external-Always :
      (input : InputTransaction) (h : Text) (o : Option WagerTransaction)
      → Always P (found_by_external input h o)
  found_by_external-Always input h none =
      bind-Always (find_by_idempotency_key-Always input.idempotency_key) (found_by_key-Always h)
  found_by_external-Always input h (some t) = lift-Always (same_payload h t)

  pub lookup_existing-Always :
      (input : InputTransaction) (h : Text) → Always P (lookup_existing input h)
  unfolding lookup_existing
  lookup_existing-Always input h =
      bind-Always (find_by_external_id_tx-Always input.provider_id input.external_transaction_id)
        (found_by_external-Always input h)

  pub replay-Always : (t : WagerTransaction) → Always P (replay t)
  unfolding replay
  replay-Always t =
      bind-Always (find_by_id_with_lock-Always t.wallet_id)
        (λ w. pure-Always (outcome (mark_as_idempotent_replay t) w true))

  replay_or_conflict-Always : (o : Option WagerTransaction) → Always P (replay_or_conflict o)
  replay_or_conflict-Always none = raise-Always transaction_conflict
  replay_or_conflict-Always (some t) = replay-Always t

  handle_save_conflict-Always :
      (input : InputTransaction) (t : WagerTransaction) (e : Error)
      → Always P (handle_save_conflict input t e)
  unfolding handle_save_conflict
  handle_save_conflict-Always input t duplicate_transaction =
      bind-Always (lookup_existing-Always input t.payload_hash) replay_or_conflict-Always
  handle_save_conflict-Always input t e = raise-Always e

  pub saved_or_replayed-Always :
      (input : InputTransaction) (t : WagerTransaction) (save_tx : Tx (Unit {0}))
      (rest : Tx Outcome)
      → Always P save_tx
      → Always P rest
      → Always P (saved_or_replayed input t save_tx rest)
  unfolding saved_or_replayed
  saved_or_replayed-Always input t save_tx rest q k = bind-Always (attempt-Always q) after
    where
      after : (r : Result (Unit {0})) → Always P (after_save input t rest r)
      after (ok saved) = k
      after (err e) = handle_save_conflict-Always input t e

  debited-Always : (t : WagerTransaction) (w : Wallet) → Always P (debited t w)
  debited-Always t w =
      bind-Always time_now-Always (λ now. lift-Always (debit_effect (debit w t.money now)))

  credited-Always : (t : WagerTransaction) (w : Wallet) → Always P (credited t w)
  credited-Always t w =
      bind-Always time_now-Always (λ now. lift-Always (credit_effect (credit w t.money now)))

  found_reference-Always :
      (t : WagerTransaction) (w : Wallet) (o : Option WagerTransaction)
      → Always P (found_reference t w o)
  found_reference-Always t w none = pure-Always awaiting_reference
  found_reference-Always t w (some r) =
      if-Always (is_processed r.status) (credited-Always t w) (raise-Always reference_not_usable)

  reference_effect-Always : (t : WagerTransaction) (w : Wallet) → Always P (reference_effect t w)
  unfolding reference_effect
  reference_effect-Always t w =
      bind-Always (find_by_external_id_tx-Always t.provider_id t.reference_external_id)
        (found_reference-Always t w)

  pub kind_effect-Always :
      (k : TransactionKind) (t : WagerTransaction) (w : Wallet) → Always P (kind_effect k t w)
  unfolding kind_effect
  kind_effect-Always bet t w = debited-Always t w
  kind_effect-Always win t w = credited-Always t w
  kind_effect-Always loss t w = pure-Always unmoved
  kind_effect-Always refund t w = reference_effect-Always t w
  kind_effect-Always rollback t w = reference_effect-Always t w
  kind_effect-Always opening t w = raise-Always unsupported_kind
  kind_effect-Always (unknown s) t w = raise-Always unsupported_kind

  replay_or_acknowledge-Always :
      (input : InputTransaction) (t : WagerTransaction) (o : Option WagerTransaction)
      → Always P (replay_or_acknowledge input t o)
  replay_or_acknowledge-Always input t none =
      bind-Always (find_by_id_with_lock-Always input.wallet_id)
        (λ w. pure-Always (outcome t w true))
  replay_or_acknowledge-Always input t (some e) = replay-Always e

  pub replay_claimed-Always :
      (input : InputTransaction) (t : WagerTransaction) → Always P (replay_claimed input t)
  unfolding replay_claimed
  replay_claimed-Always input t =
      bind-Always (find_by_external_id_tx-Always input.provider_id input.external_transaction_id)
        (replay_or_acknowledge-Always input t)
