-- ===== src/Usecase/Resolve/Sound.antt =====
-- Wallets and ledger under `ResolvePendingReference`.
use jungle_gaming_challenge.Base.{
  ℕ, ◌≡◌, Bool, true, false, Option, none, some, ◌+◌, ◌*◌, arith, if◌then◌else◌,
}
use jungle_gaming_challenge.Base.Text.{Text, codes}
use jungle_gaming_challenge.Base.Int.{pos, add64}
use jungle_gaming_challenge.Domain.Money.{Money}
use jungle_gaming_challenge.Domain.Wallet.{Wallet, credit}
use jungle_gaming_challenge.Domain.Wager.{
  WagerTransaction, transition_to_processed, transition_to_rejected,
}
use jungle_gaming_challenge.Store.{credit_entry, Env, Session, Tx, ◌>>◌, pure, lift}
use jungle_gaming_challenge.Store.Rules.{
  Quiet, Any, Yields, bind-Quiet, lift-Quiet, pure-Quiet, time_now-Quiet,
}
use jungle_gaming_challenge.Store.Invariant.{
  Money2, Safe, Quiet-Safe, bind-Safe, then-Safe, transaction-Keeps,
}
use jungle_gaming_challenge.Repository.Spares.{
  Yields-Any, find_by_id_for_update-Quiet, find_by_external_id_tx-Quiet,
  update_transaction_status-Quiet, update_status_with_retry_at-Quiet,
}
use jungle_gaming_challenge.Repository.Reconciled.{Reconciled}
use jungle_gaming_challenge.Repository.Reconciled.Reading.{find-Safe}
use jungle_gaming_challenge.Usecase.Events.{save_outbox_event, save_balance_changed, wager_json}
use jungle_gaming_challenge.Usecase.Wager.{is_processed}
use jungle_gaming_challenge.Usecase.Process.{second}
use jungle_gaming_challenge.Usecase.Process.Writes.{
  Moves, read-Moves, save_outbox_event-Quiet, save_balance_changed-Quiet,
}
use jungle_gaming_challenge.Usecase.Resolve.{
  retry_later, reject_pending, credit_locked, credit_pending, resolve_by_reference,
  resolve_by_found, resolve_found, resolve_body, resolve_pending_reference, is_pending_reference,
}

credit_on_wallet :
    (w : Wallet) (m : Money) (now : ℕ)
    → Yields (λ new. (new.id ≡ w.id) × (new.version ≡ add64 w.version (pos 1))) (credit w m now)
unfolding credit
credit_on_wallet w m now = ground arith

-- A credit is to the wallet itself, under the next version.
pub credited-OnWallet :
    (w : Wallet) (m : Money) (now : ℕ)
    → Quiet
        (λ new. (new.id ≡ w.id) × (new.version ≡ add64 w.version (pos 1)))
        (lift (credit w m now))
credited-OnWallet w m now = lift-Quiet (credit w m now) (credit_on_wallet w m now)

announced : WagerTransaction → Wallet → Wallet → Tx (Unit {0})
announced p old new = do
  save_outbox_event p.id (codes "WagerTransactionProcessed") (wager_json p)
  save_balance_changed p old.balance.amount new credit_entry

announced-Quiet : (p : WagerTransaction) (old new : Wallet) → Quiet Any (announced p old new)
unfolding announced
announced-Quiet p old new =
    bind-Quiet {R = Any}
      (save_outbox_event-Quiet p.id (codes "WagerTransactionProcessed") (wager_json p))
      (λ _ _. save_balance_changed-Quiet p old.balance.amount new credit_entry)

processed_money :
    (p : WagerTransaction) (now : ℕ)
    → Yields (λ p'. p'.money ≡ p.money) (transition_to_processed p now)
unfolding transition_to_processed
processed_money p now = ground arith

pub credit_locked-Safe :
    {I P : Money2} (p : WagerTransaction) (w : Wallet)
    → Moves I P credit_entry p.money w
    → Safe I P (credit_locked p w)
unfolding credit_locked announced
credit_locked-Safe p w moves = bind-Safe {R = Any} time_now-Quiet λ now _.
    bind-Safe (credited-OnWallet w p.money now) λ new on. bind-Safe {R = Any} time_now-Quiet λ at _.
      bind-Safe (lift-Quiet (transition_to_processed p at) (processed_money p at)) λ p' same.
        bind-Safe {R = Any} (update_transaction_status-Quiet p')
          λ _ _. then-Safe (moves p' new same on.0) (λ _. announced-Quiet p' w new)

credit_pending-Safe : (p : WagerTransaction) → Safe Reconciled Reconciled (credit_pending p)
unfolding credit_pending
credit_pending-Safe p =
    find-Safe p.wallet_id (λ w _. credit_locked-Safe p w (read-Moves credit_entry p.money w))

retry_later-Quiet : (p : WagerTransaction) → Quiet Any (retry_later p)
unfolding retry_later
retry_later-Quiet p =
    bind-Quiet {R = Any} time_now-Quiet
      (λ now _. update_status_with_retry_at-Quiet p (some (now + 5 * second)))

reject_pending-Quiet : (p : WagerTransaction) → Quiet Any (reject_pending p)
unfolding reject_pending
reject_pending-Quiet p = bind-Quiet {R = Any} time_now-Quiet λ now _.
    bind-Quiet {R = Any}
      (lift-Quiet (transition_to_rejected p (codes "INVALID_REFERENCE") now) (Yields-Any _))
      (λ p' _. update_transaction_status-Quiet p')

-- The two outcomes of a reference that was found.
by_status :
    (p : WagerTransaction) (b : Bool)
    → Safe Reconciled Reconciled (if b then credit_pending p else reject_pending p)
by_status p true = credit_pending-Safe p
by_status p false = Quiet-Safe (reject_pending-Quiet p) (λ ws ls k. k)

resolve_by_reference-Safe :
    (p : WagerTransaction) → Safe Reconciled Reconciled (resolve_by_reference p)
unfolding resolve_by_reference
resolve_by_reference-Safe p =
    bind-Safe {R = Any} (find_by_external_id_tx-Quiet p.provider_id p.reference_external_id)
      (λ ref _. found ref)
  where
    found : (o : Option WagerTransaction) → Safe Reconciled Reconciled (resolve_by_found p o)
    found none = Quiet-Safe (retry_later-Quiet p) (λ ws ls k. k)
    found (some r) = by_status p (is_processed r.status)

resolve_if :
    (p : WagerTransaction) (b : Bool)
    → Safe Reconciled Reconciled (if b then resolve_by_reference p else pure tt)
resolve_if p true = resolve_by_reference-Safe p
resolve_if p false = Quiet-Safe {R = Any} (pure-Quiet tt tt) (λ ws ls k. k)

resolve_found-Safe : (o : Option WagerTransaction) → Safe Reconciled Reconciled (resolve_found o)
resolve_found-Safe none = Quiet-Safe {R = Any} (pure-Quiet tt tt) (λ ws ls k. k)
resolve_found-Safe (some p) = resolve_if p (is_pending_reference p.status)

resolve_body-Safe : (id : Text) → Safe Reconciled Reconciled (resolve_body id)
unfolding resolve_body
resolve_body-Safe id =
    bind-Safe {R = Any} (find_by_id_for_update-Quiet id) (λ found _. resolve_found-Safe found)

-- Resolving a pending transaction keeps the wallets tied to the ledger: if before it every wallet's
-- balance is zero or more and the sum of its credits less its debits, wallet ids are unique and every
-- entry belongs to a wallet, then so it is afterwards, whether the call succeeds or fails, wherever a
-- statement, BEGIN or COMMIT fails.
pub resolve-Reconciled :
    (pending_id : Text) (env : Env) (s : Session)
    → Reconciled s.db.wallets s.db.ledger
    → let after = (resolve_pending_reference pending_id env s).1.db in
      Reconciled after.wallets after.ledger
unfolding resolve_pending_reference
resolve-Reconciled pending_id env s k =
    (transaction-Keeps {I = Reconciled} (resolve_body-Safe pending_id)).runs env s k
