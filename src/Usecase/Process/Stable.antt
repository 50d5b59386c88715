-- ===== src/Usecase/Process/Stable.antt =====
-- `ProcessTransactionWithInbox` keeps what no write takes away, from the events up to the method.
use jungle_gaming_challenge.Base.{◌≡◌, refl, false, not, Option, none, some, ◌+◌, ◌*◌}
use jungle_gaming_challenge.Base.Text.{Text, text_eq, codes}
use jungle_gaming_challenge.Base.Int.{ℤ, pos, add64}
use jungle_gaming_challenge.Errors.{
  Result, ok, err, fail_if, duplicate_message, wallet_owner_mismatch,
}
use jungle_gaming_challenge.Config.{Config}
use jungle_gaming_challenge.Domain.Wallet.{Wallet}
use jungle_gaming_challenge.Domain.Wager.{
  WagerTransaction, transition_to_processed, transition_to_rejected,
  transition_to_pending_reference,
}
use jungle_gaming_challenge.Store.{Tx, ◌>>◌, pure, Direction}
use jungle_gaming_challenge.Store.Always.{
  World, Always, bind-Always, lift-Always, pure-Always, raise-Always, attempt-Always,
  time_now-Always, execute-Always,
}
use jungle_gaming_challenge.Store.Writes.{Stable, Beside-Stable}
use jungle_gaming_challenge.Store.Then.{yields_then-Always}
use jungle_gaming_challenge.Repository.Stable.{
  find_by_id_with_lock-Always, update-Always, save_with_retry_at-Always, save-Always,
  save_ledger_entry-Always, save_outbox-Always, save_inbox-Always,
}
use jungle_gaming_challenge.Repository.Messaging.{outbox_row}
use jungle_gaming_challenge.Usecase.Process.OnWallet.{OnWallet, direction_of, kind_effect-Quiet}
use jungle_gaming_challenge.Usecase.Process.Reads.{
  marshal-Always, new_wager-Always, lookup_existing-Always, replay-Always, saved_or_replayed-Always,
  kind_effect-Always, replay_claimed-Always,
}
use jungle_gaming_challenge.Usecase.Events.{
  event_id, balance_changed, wager_json, save_outbox_event, save_balance_changed,
}
use jungle_gaming_challenge.Usecase.Wager.{
  InboxClaim, InputTransaction, outcome, Effect, insufficient, awaiting_reference, unmoved, moved,
}
use jungle_gaming_challenge.Usecase.Process.{
  second, reject_bet, await_reference, ledger_entry, move_balance, record_move, settle,
  apply_effect, process_locked, process_new, process_once, replay_or_process, after_claim,
  process_body, output, process_transaction_with_inbox,
}

module _ {P : World} (stable : Stable P) where
  pub save_outbox_event-Always :
      (aggregate name payload : Text) → Always P (save_outbox_event aggregate name payload)
  unfolding save_outbox_event
  save_outbox_event-Always aggregate name payload = bind-Always time_now-Always λ now.
      save_outbox-Always stable (outbox_row (event_id aggregate now) aggregate name payload now)
        refl

  pub save_balance_changed-Always :
      (t : WagerTransaction) (before : ℤ) (w : Wallet) (d : Direction)
      → Always P (save_balance_changed t before w d)
  unfolding save_balance_changed
  save_balance_changed-Always t before w d =
      bind-Always (marshal-Always (balance_changed t before w d))
        (λ payload. save_outbox_event-Always w.id (codes "WalletBalanceChanged") payload)

  -- an event about the transaction, and the answer
  announced-Always :
      (t : WagerTransaction) (event : Text) (w : Wallet)
      → Always P (save_outbox_event t.id event (wager_json t) >> pure (outcome t w false))
  announced-Always t event w =
      bind-Always (save_outbox_event-Always t.id event (wager_json t))
        (λ _. pure-Always (outcome t w false))

  reject_bet-Always :
      (input : InputTransaction) (t : WagerTransaction) (w : Wallet)
      → Always P (reject_bet input t w)
  unfolding reject_bet
  reject_bet-Always input t w = bind-Always time_now-Always λ now.
      bind-Always (lift-Always (transition_to_rejected t (codes "INSUFFICIENT_BALANCE") now)) λ t'.
        saved_or_replayed-Always input t' _ _ (save-Always stable t')
          (announced-Always t' (codes "WagerTransactionRejected") w)

  await_reference-Always :
      (input : InputTransaction) (t : WagerTransaction) (w : Wallet)
      → Always P (await_reference input t w)
  unfolding await_reference
  await_reference-Always input t w = bind-Always time_now-Always λ now.
      bind-Always (lift-Always (transition_to_pending_reference t now)) λ t'.
        bind-Always time_now-Always λ retry_base.
          saved_or_replayed-Always input t' _ _
            (save_with_retry_at-Always stable t' (some (retry_base + 5 * second)))
            (announced-Always t' (codes "WagerTransactionPendingReference") w)

  pub move_balance-Always :
      (t : WagerTransaction) (old new : Wallet) (d : Direction)
      → new.version ≡ add64 old.version (pos 1)
      → Always P (move_balance t old new d)
  unfolding move_balance
  move_balance-Always t old new d next =
      bind-Always (update-Always stable new old.version next)
        (λ _. save_ledger_entry-Always stable (ledger_entry t old new d))

  record_move-Always :
      (t : WagerTransaction) (old new : Wallet) (d : Direction)
      → new.version ≡ add64 old.version (pos 1)
      → Always P (record_move t old new d)
  unfolding record_move
  record_move-Always t old new d next =
      bind-Always (move_balance-Always t old new d next)
        (λ _. save_balance_changed-Always t old.balance.amount new d)

  settle-Always :
      (input : InputTransaction) (t : WagerTransaction) (w : Wallet) (moves : Tx (Unit {0}))
      → Always P moves
      → Always P (settle input t w moves)
  unfolding settle
  settle-Always input t w moves kept = bind-Always time_now-Always λ now.
      bind-Always (lift-Always (transition_to_processed t now)) λ t'.
        saved_or_replayed-Always input t' _ _ (save-Always stable t')
          (bind-Always kept (λ _. announced-Always t' (codes "WagerTransactionProcessed") w))

  apply_effect-Always :
      (effect : Effect) (input : InputTransaction) (t : WagerTransaction) (w : Wallet)
      → OnWallet (direction_of t.kind) w effect
      → Always P (apply_effect effect input t w)
  unfolding apply_effect
  apply_effect-Always insufficient input t w on = reject_bet-Always input t w
  apply_effect-Always awaiting_reference input t w on = await_reference-Always input t w
  apply_effect-Always unmoved input t w on = settle-Always input t w (pure tt) (pure-Always tt)
  apply_effect-Always (moved new d) input t w on =
      settle-Always input t new (record_move t w new d) (record_move-Always t w new d on.1)

  pub process_locked-Always :
      (input : InputTransaction) (t : WagerTransaction) (w : Wallet)
      → Always P (process_locked input t w)
  unfolding process_locked
  process_locked-Always input t w =
      bind-Always
        (lift-Always (fail_if (not (text_eq w.player_id t.player_id)) wallet_owner_mismatch))
        λ _.
          yields_then-Always (kind_effect-Quiet t.kind t w) (kind_effect-Always t.kind t w)
            (λ effect on. apply_effect-Always effect input t w on)

  process_new-Always :
      (input : InputTransaction) (t : WagerTransaction) → Always P (process_new input t)
  unfolding process_new
  process_new-Always input t =
      bind-Always (find_by_id_with_lock-Always t.wallet_id) (process_locked-Always input t)

  replay_or_process-Always :
      (input : InputTransaction) (t : WagerTransaction) (o : Option WagerTransaction)
      → Always P (replay_or_process input t o)
  replay_or_process-Always input t none = process_new-Always input t
  replay_or_process-Always input t (some e) = replay-Always e

  pub process_once-Always :
      (input : InputTransaction) (t : WagerTransaction) → Always P (process_once input t)
  unfolding process_once
  process_once-Always input t =
      bind-Always (lookup_existing-Always input t.payload_hash) (replay_or_process-Always input t)

  after_claim-Always :
      (input : InputTransaction) (t : WagerTransaction) (r : Result (Unit {0}))
      → Always P (after_claim input t r)
  after_claim-Always input t (ok claimed) = process_once-Always input t
  after_claim-Always input t (err duplicate_message) = replay_claimed-Always input t
  after_claim-Always input t (err e) = raise-Always e

  process_body-Always :
      (input : InputTransaction) (t : WagerTransaction) (inbox : Option InboxClaim)
      → Always P (process_body input t inbox)
  unfolding process_body
  process_body-Always input t none = process_once-Always input t
  process_body-Always input t (some c) =
      bind-Always
        (attempt-Always (save_inbox-Always stable c.consumer_name c.message_id c.payload_hash))
        (after_claim-Always input t)

pub process-Always :
    {P : World} (stable : Stable P) (cfg : Config) (input : InputTransaction)
    (inbox : Option InboxClaim)
    → Always P (process_transaction_with_inbox cfg input inbox)
unfolding process_transaction_with_inbox
process-Always stable cfg input inbox = bind-Always (new_wager-Always cfg input) λ t.
    bind-Always
      (execute-Always (process_body input t inbox)
        (λ before. process_body-Always (Beside-Stable before stable) input t inbox))
      (λ o. pure-Always (output o))
