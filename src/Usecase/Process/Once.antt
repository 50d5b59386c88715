-- ===== src/Usecase/Process/Once.antt =====
-- What a call of `ProcessTransactionWithInbox` moves, as a whole.
use jungle_gaming_challenge.Base.{◌≡◌, subst, List, Option, ◌⊎◌, inl, inr}
use jungle_gaming_challenge.Errors.{Result, ok, err}
use jungle_gaming_challenge.Config.{Config}
use jungle_gaming_challenge.Domain.Money.{Money, new_money_from_string}
use jungle_gaming_challenge.Domain.Wager.{WagerTransaction, transaction_kind}
use jungle_gaming_challenge.Store.{
  Env, Session, WalletRow, LedgerRow, ◌>>=◌, pure, execute_in_transaction,
}
use jungle_gaming_challenge.Store.Rules.{SameMoney, Yields}
use jungle_gaming_challenge.Store.Invariant.{Money2, Holds, Safe, execute_in_transaction-keeps}
use jungle_gaming_challenge.Repository.Reconciled.{Reconciled}
use jungle_gaming_challenge.Repository.Reconciled.Reading.{RowOf, find_row-Safe}
use jungle_gaming_challenge.Usecase.Wager.{InboxClaim, InputTransaction, Outcome}
use jungle_gaming_challenge.Usecase.Process.{
  process_new, process_body, process_transaction_with_inbox, new_wager, output,
}
use jungle_gaming_challenge.Usecase.Process.Writes.{Moves}
use jungle_gaming_challenge.Usecase.Process.OnWallet.{direction_of}
use jungle_gaming_challenge.Usecase.Process.Conserves.{
  Asked, new_wager-Quiet, process_locked-Safe, process_body-Safe,
}
use jungle_gaming_challenge.Usecase.Process.Moved.{Frozen, MovedBy, AtMostOnce, exact-Moves}

-- The balance of the request's wallet moves by the amount of the request, with its entry.
abbrev pub MovedAsAsked :
    InputTransaction → List WalletRow → List LedgerRow → List WalletRow → List LedgerRow → Type 0
MovedAsAsked input ws ls ws' ls' =
    (m : Money) × (new_money_from_string input.amount input.currency ≡ ok m)
    × MovedBy (direction_of (transaction_kind input.kind)) m.amount input.wallet_id ws ls ws' ls'

module _ (input : InputTransaction) (inbox : Option InboxClaim) (env : Env) (s : Session)
    (tied : Reconciled s.db.wallets s.db.ledger) where
  abbrev ws : List WalletRow
  ws = s.db.wallets

  abbrev ls : List LedgerRow
  ls = s.db.ledger

  abbrev Done : Money2
  Done ws' ls' = Frozen ws ls tied.0 ws' ls' ⊎ MovedAsAsked input ws ls ws' ls'

  process_new-AtMostOnce :
      (t : WagerTransaction)
      → Safe
          (AtMostOnce ws ls tied.0 (direction_of t.kind) t.money.amount t.wallet_id)
          (Frozen ws ls tied.0)
          (process_new input t)
  unfolding process_new
  process_new-AtMostOnce t = find_row-Safe t.wallet_id λ w i.
      process_locked-Safe {P = λ ws' ls'. Frozen ws ls tied.0 ws' ls' × RowOf w ws'} w
        (λ ws' ls' k. inl k.0) input t
        (subst
          (λ id.
            Moves (AtMostOnce ws ls tied.0 (direction_of t.kind) t.money.amount id)
              (λ ws' ls'. Frozen ws ls tied.0 ws' ls' × RowOf w ws') (direction_of t.kind) t.money
              w)
          i (exact-Moves ws ls tied.0 (direction_of t.kind) t.money w))

  body_done :
      (t : WagerTransaction) (u : Session)
      → Asked input t
      → SameMoney s u
      → Holds Done (execute_in_transaction (process_body input t inbox) env u).1
  body_done t u (money, kind, wallet) same = at (
      execute_in_transaction-keeps
        (AtMostOnce ws ls tied.0 (direction_of t.kind) t.money.amount t.wallet_id)
        (Frozen ws ls tied.0) (process_body input t inbox) env u
        (process_body-Safe (λ _ _ k. inl k) input t (process_new-AtMostOnce t) inbox) (inl same)
        same)
    where
      at :
          {ws' : List WalletRow} {ls' : List LedgerRow}
          → AtMostOnce ws ls tied.0 (direction_of t.kind) t.money.amount t.wallet_id ws' ls'
          → Done ws' ls'
      at (inl k) = inl k
      at {ws'} {ls'} (inr k) = inr (
        t.money,
        money,
        subst (λ x. MovedBy (direction_of x) t.money.amount input.wallet_id ws ls ws' ls') kind
            (subst (λ x. MovedBy (direction_of t.kind) t.money.amount x ws ls ws' ls') wallet k),
      )

  answered :
      (q : Result Outcome × Session)
      → Holds Done q.1
      → Holds Done (◌>>=◌ (λ e u. q) (λ o. pure (output o)) env s).1
  answered (ok o, u) k = k
  answered (err e, u) k = k

  asked_done :
      (p : Result WagerTransaction × Session)
      → SameMoney s p.1
      → Yields (Asked input) p.0
      → Holds Done
          (◌>>=◌
            (λ e u. p)
            (λ t. do o ← execute_in_transaction (process_body input t inbox); pure (output o))
            env
            s).1
  asked_done (ok t, u) same k = answered _ (body_done t u k same)
  asked_done (err e, u) same k = inl same

-- Processing a request, with or without an inbox, on wallets tied to the ledger, changes no wallet and no
-- entry, or moves money once: then the amount's text reads as some money, there is exactly one new entry,
-- for the request's wallet, of that amount, a debit for a bet and a credit for any other kind; that
-- wallet's balance is less or more by the amount, and no other wallet is changed. That holds for every
-- request and configuration, whether the call succeeds or fails, wherever a statement, BEGIN or COMMIT
-- fails.
pub process-MovesOnce :
    (cfg : Config) (input : InputTransaction) (inbox : Option InboxClaim) (env : Env) (s : Session)
    → Reconciled s.db.wallets s.db.ledger
    → let after = (process_transaction_with_inbox cfg input inbox env s).1.db in
      ((after.wallets ≡ s.db.wallets) × (after.ledger ≡ s.db.ledger))
      ⊎ MovedAsAsked input s.db.wallets s.db.ledger after.wallets after.ledger
unfolding process_transaction_with_inbox
process-MovesOnce cfg input inbox env s k =
    let q = (new_wager-Quiet cfg input).runs env s in
    asked_done input inbox env s k (new_wager cfg input env s) q.0 q.1
