-- ===== src/Usecase/Resolve/Stable.antt =====
-- `ResolvePendingReference` keeps what no write takes away.
use jungle_gaming_challenge.Base.{Option, none, some, ◌+◌, ◌*◌}
use jungle_gaming_challenge.Base.Text.{Text, codes}
use jungle_gaming_challenge.Domain.Wallet.{Wallet, credit}
use jungle_gaming_challenge.Domain.Wager.{
  WagerTransaction, transition_to_processed, transition_to_rejected,
}
use jungle_gaming_challenge.Store.{credit_entry}
use jungle_gaming_challenge.Store.Always.{
  World, Always, bind-Always, lift-Always, pure-Always, if-Always, time_now-Always, execute-Always,
}
use jungle_gaming_challenge.Store.Writes.{Stable, Beside-Stable}
use jungle_gaming_challenge.Store.Then.{yields_then-Always}
use jungle_gaming_challenge.Repository.Stable.{
  find_by_id_with_lock-Always, find_by_id_for_update-Always, find_by_external_id_tx-Always,
  update_transaction_status-Always, update_status_with_retry_at-Always,
}
use jungle_gaming_challenge.Usecase.Events.{wager_json}
use jungle_gaming_challenge.Usecase.Wager.{is_processed}
use jungle_gaming_challenge.Usecase.Process.{second}
use jungle_gaming_challenge.Usecase.Process.Stable.{
  move_balance-Always, save_outbox_event-Always, save_balance_changed-Always,
}
use jungle_gaming_challenge.Usecase.Resolve.Sound.{credited-OnWallet}
use jungle_gaming_challenge.Usecase.Resolve.{
  retry_later, reject_pending, credit_locked, credit_pending, resolve_by_reference,
  resolve_by_found, resolve_found, resolve_body, resolve_pending_reference, is_pending_reference,
}

module _ {P : World} (stable : Stable P) where
  pub credit_locked-Always : (p : WagerTransaction) (w : Wallet) → Always P (credit_locked p w)
  unfolding credit_locked
  credit_locked-Always p w = bind-Always time_now-Always λ now.
      yields_then-Always (credited-OnWallet w p.money now) (lift-Always (credit w p.money now))
        λ new on. bind-Always time_now-Always λ processed_at.
          bind-Always (lift-Always (transition_to_processed p processed_at)) λ p'.
            bind-Always (update_transaction_status-Always stable p') λ _.
              bind-Always (move_balance-Always stable p' w new credit_entry on.1) λ _.
                bind-Always
                  (save_outbox_event-Always stable p'.id (codes "WagerTransactionProcessed")
                    (wager_json p'))
                  (λ _. save_balance_changed-Always stable p' w.balance.amount new credit_entry)

  credit_pending-Always : (p : WagerTransaction) → Always P (credit_pending p)
  unfolding credit_pending
  credit_pending-Always p =
      bind-Always (find_by_id_with_lock-Always p.wallet_id) (credit_locked-Always p)

  retry_later-Always : (p : WagerTransaction) → Always P (retry_later p)
  unfolding retry_later
  retry_later-Always p =
      bind-Always time_now-Always
        (λ now. update_status_with_retry_at-Always stable p (some (now + 5 * second)))

  reject_pending-Always : (p : WagerTransaction) → Always P (reject_pending p)
  unfolding reject_pending
  reject_pending-Always p = bind-Always time_now-Always λ now.
      bind-Always (lift-Always (transition_to_rejected p (codes "INVALID_REFERENCE") now))
        (update_transaction_status-Always stable)

  resolve_by_reference-Always : (p : WagerTransaction) → Always P (resolve_by_reference p)
  unfolding resolve_by_reference
  resolve_by_reference-Always p =
      bind-Always (find_by_external_id_tx-Always p.provider_id p.reference_external_id) found
    where
      found : (o : Option WagerTransaction) → Always P (resolve_by_found p o)
      found none = retry_later-Always p
      found (some r) =
          if-Always (is_processed r.status) (credit_pending-Always p) (reject_pending-Always p)

  resolve_found-Always : (o : Option WagerTransaction) → Always P (resolve_found o)
  resolve_found-Always none = pure-Always tt
  resolve_found-Always (some p) =
      if-Always (is_pending_reference p.status) (resolve_by_reference-Always p) (pure-Always tt)

  resolve_body-Always : (id : Text) → Always P (resolve_body id)
  unfolding resolve_body
  resolve_body-Always id = bind-Always (find_by_id_for_update-Always id) resolve_found-Always

pub resolve-Always :
    {P : World} (stable : Stable P) (pending_id : Text)
    → Always P (resolve_pending_reference pending_id)
unfolding resolve_pending_reference
resolve-Always stable pending_id =
    execute-Always (resolve_body pending_id)
      (λ before. resolve_body-Always (Beside-Stable before stable) pending_id)
