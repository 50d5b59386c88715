-- ===== src/Usecase/OpenWallet/Stable.antt =====
-- `OpenWalletUsecase.Execute` keeps what no write takes away.
use jungle_gaming_challenge.Base.{not}
use jungle_gaming_challenge.Base.Text.{codes}
use jungle_gaming_challenge.Errors.{fail_if, incompatible_currency}
use jungle_gaming_challenge.Config.{Config}
use jungle_gaming_challenge.Domain.Money.{new_money_from_string, is_currency_supported, is_zero}
use jungle_gaming_challenge.Domain.Wallet.{Wallet, new_wallet}
use jungle_gaming_challenge.Domain.Wager.{WagerTransaction}
use jungle_gaming_challenge.Store.Always.{
  World, Always, bind-Always, lift-Always, pure-Always, if-Always, time_now-Always, execute-Always,
}
use jungle_gaming_challenge.Store.Writes.{Stable, Beside-Stable}
use jungle_gaming_challenge.Repository.Stable.{
  save_wallet-Always, save-Always, save_ledger_entry-Always,
}
use jungle_gaming_challenge.Usecase.Events.{wallet_json}
use jungle_gaming_challenge.Usecase.Process.Reads.{marshal-Always}
use jungle_gaming_challenge.Usecase.Process.Stable.{save_outbox_event-Always}
use jungle_gaming_challenge.Usecase.OpenWallet.{
  OpenWalletInput, wallet_id_of, opening_transaction, opening_entry, opening_payload, hashed,
  record_opening, open_body, wallet_of_input, open_wallet, output,
}

module _ {P : World} (stable : Stable P) where
  hashed-Always : (t : WagerTransaction) → Always P (hashed t)
  hashed-Always t = record { runs = λ env s h. h }

  record_opening-Always : (w : Wallet) → Always P (record_opening w)
  unfolding record_opening
  record_opening-Always w = bind-Always time_now-Always λ created_at.
      bind-Always time_now-Always λ updated_at.
        bind-Always (hashed-Always (opening_transaction w created_at updated_at)) λ t.
          bind-Always (save-Always stable t) λ _.
            bind-Always (save_ledger_entry-Always stable (opening_entry t w)) λ _.
              bind-Always
                (save_outbox_event-Always stable w.id (codes "WALLET_OPENED") (wallet_json w))
                λ _. bind-Always (marshal-Always (opening_payload w)) (λ payload.
                  save_outbox_event-Always stable w.id (codes "WalletBalanceChanged") payload)

  open_body-Always : (w : Wallet) → Always P (open_body w)
  unfolding open_body
  open_body-Always w =
      bind-Always (save_wallet-Always stable w)
        (λ _. if-Always (is_zero w.balance) (pure-Always tt) (record_opening-Always w))

  wallet_of_input-Always :
      (cfg : Config) (input : OpenWalletInput) → Always P (wallet_of_input cfg input)
  unfolding wallet_of_input
  wallet_of_input-Always cfg input =
      bind-Always (lift-Always (new_money_from_string input.initial_amount input.initial_currency))
        λ money.
          bind-Always
            (lift-Always (
              fail_if (not (is_currency_supported money cfg.supported_currencies))
                incompatible_currency))
            λ _.
              bind-Always time_now-Always
                (λ now. lift-Always (new_wallet (wallet_id_of input) input.player_id money now))

pub open_wallet-Always :
    {P : World} (stable : Stable P) (cfg : Config) (input : OpenWalletInput)
    → Always P (open_wallet cfg input)
unfolding open_wallet
open_wallet-Always stable cfg input = bind-Always (wallet_of_input-Always stable cfg input) λ w.
    bind-Always
      (execute-Always (open_body w) (λ before. open_body-Always (Beside-Stable before stable) w))
      (λ _. pure-Always (output w))
