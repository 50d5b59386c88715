-- ===== src/Usecase/OpenWallet/Ledger.antt =====
-- Wallets and ledger under `OpenWalletUsecase.Execute`.
use jungle_gaming_challenge.Base.{◌≡◌, refl, Bool, true, false, not, if◌then◌else◌}
use jungle_gaming_challenge.Base.Text.{codes}
use jungle_gaming_challenge.Base.Int.{pos, ◌-ℤ◌, int_laws}
use jungle_gaming_challenge.Errors.{fail_if, incompatible_currency}
use jungle_gaming_challenge.Config.{Config}
use jungle_gaming_challenge.Domain.Money.{
  new_money_from_string, is_currency_supported, is_zero, Money,
}
use jungle_gaming_challenge.Domain.Wallet.{Wallet, new_wallet}
use jungle_gaming_challenge.Domain.Wager.{WagerTransaction}
use jungle_gaming_challenge.Store.{Env, Session, Tx, pure, ◌>>=◌, ◌>>◌}
use jungle_gaming_challenge.Store.Rules.{
  Quiet, Any, bind-Quiet, lift-Quiet, pure-Quiet, time_now-Quiet,
}
use jungle_gaming_challenge.Store.Invariant.{
  Safe, Quiet-Safe, bind-Safe, then-Safe, seq-Safe, Quiet-Keeps, transaction-Keeps, bind-Keeps,
}
use jungle_gaming_challenge.Repository.Spares.{Yields-Any, save-Quiet}
use jungle_gaming_challenge.Repository.Reconciled.{Reconciled}
use jungle_gaming_challenge.Repository.Reconciled.Move.{AheadBy, save_ledger_entry-Safe}
use jungle_gaming_challenge.Repository.Reconciled.Opened.{save-Safe, Reconciled-of_level}
use jungle_gaming_challenge.Usecase.Events.{wallet_json, save_outbox_event, marshal}
use jungle_gaming_challenge.Usecase.Process.Writes.{save_outbox_event-Quiet, marshal-Quiet}
use jungle_gaming_challenge.Usecase.OpenWallet.{
  OpenWalletInput, wallet_id_of, opening_transaction, opening_entry, opening_payload, hashed,
  record_opening, open_body, wallet_of_input, open_wallet, output,
}

hashed-Quiet : (t : WagerTransaction) → Quiet Any (hashed t)
hashed-Quiet t = record { runs = λ env s. ((refl, refl), tt) }

-- the two events of a wallet that opens with money
announced : Wallet → Tx (Unit {0})
announced w = do
  save_outbox_event w.id (codes "WALLET_OPENED") (wallet_json w)
  payload ← marshal (opening_payload w)
  save_outbox_event w.id (codes "WalletBalanceChanged") payload

announced-Quiet : (w : Wallet) → Quiet Any (announced w)
unfolding announced
announced-Quiet w =
    bind-Quiet {R = Any} (save_outbox_event-Quiet w.id (codes "WALLET_OPENED") (wallet_json w))
      λ _ _.
        bind-Quiet {R = Any} (marshal-Quiet (opening_payload w))
          (λ payload _. save_outbox_event-Quiet w.id (codes "WalletBalanceChanged") payload)

record_opening-Safe :
    (w : Wallet) → Safe Reconciled (AheadBy w.id (w.balance.amount -ℤ pos 0)) (record_opening w)
unfolding record_opening announced
record_opening-Safe w = bind-Safe {R = Any} time_now-Quiet λ created_at _.
    bind-Safe {R = Any} time_now-Quiet λ updated_at _.
      bind-Safe {R = Any} (hashed-Quiet (opening_transaction w created_at updated_at)) λ t _.
        bind-Safe {R = Any} (save-Quiet t)
          λ _ _. then-Safe (save_ledger_entry-Safe (opening_entry t w)) (λ _. announced-Quiet w)

zero_level : (m : Money) → is_zero m ≡ true → m.amount -ℤ pos 0 ≡ pos 0
unfolding is_zero
zero_level m h = grind int_laws

open_body-Safe : (w : Wallet) → Safe Reconciled Reconciled (open_body w)
unfolding open_body
open_body-Safe w = seq-Safe (save-Safe w) (λ _. branch (is_zero w.balance) refl)
  where
    branch :
        (b : Bool)
        → is_zero w.balance ≡ b
        → Safe Reconciled
            (AheadBy w.id (w.balance.amount -ℤ pos 0))
            (if b then pure tt else record_opening w)
    branch true e =
        Quiet-Safe {R = Any} (pure-Quiet tt tt)
          (λ ws ls k. Reconciled-of_level w.id _ ws ls (zero_level w.balance e) k)
    branch false e = record_opening-Safe w

wallet_of_input-Quiet :
    (cfg : Config) (input : OpenWalletInput) → Quiet Any (wallet_of_input cfg input)
unfolding wallet_of_input
wallet_of_input-Quiet cfg input =
    bind-Quiet {R = Any}
      (lift-Quiet (new_money_from_string input.initial_amount input.initial_currency)
        (Yields-Any _))
      λ money _.
        bind-Quiet {R = Any}
          (lift-Quiet
            (fail_if (not (is_currency_supported money cfg.supported_currencies))
              incompatible_currency)
            (Yields-Any _))
          λ _ _. bind-Quiet {R = Any} time_now-Quiet λ now _.
            lift-Quiet (new_wallet (wallet_id_of input) input.player_id money now) (Yields-Any _)

-- Opening a wallet keeps the wallets tied to the ledger: if before it every wallet's balance is zero or
-- more and the sum of its credits less its debits, wallet ids are unique and every entry belongs to a
-- wallet, then so it is afterwards, the new wallet included, for every input and configuration, whether
-- the call succeeds or fails, wherever a statement, BEGIN or COMMIT fails.
pub open_wallet-Reconciled :
    (cfg : Config) (input : OpenWalletInput) (env : Env) (s : Session)
    → Reconciled s.db.wallets s.db.ledger
    → let after = (open_wallet cfg input env s).1.db in Reconciled after.wallets after.ledger
unfolding open_wallet
open_wallet-Reconciled cfg input env s k =
    (bind-Keeps {I = Reconciled} (Quiet-Keeps (wallet_of_input-Quiet cfg input)) λ w.
        bind-Keeps (transaction-Keeps (open_body-Safe w))
          λ _. Quiet-Keeps {R = Any} (pure-Quiet (output w) tt)).runs
      env s k
