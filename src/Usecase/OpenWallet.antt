-- ===== src/Usecase/OpenWallet.antt =====
-- internal/usecase/open_wallet_usecase.go.
pub mod Ledger
pub mod Stable
use jungle_gaming_challenge.Base.{
  ℕ, Bool, true, false, not, List, [], ◌∷◌, ◌++◌, none, if◌then◌else◌,
}
use jungle_gaming_challenge.Base.Text.{Text, codes, to_lower}
use jungle_gaming_challenge.Base.Int.{ℤ, pos}
use jungle_gaming_challenge.Errors.{ok, fail_if, incompatible_currency}
use jungle_gaming_challenge.Config.{Config}
use jungle_gaming_challenge.Domain.Money.{
  Money, new_money_from_string, is_currency_supported, is_zero, to_text,
}
use jungle_gaming_challenge.Domain.Wallet.{Wallet, new_wallet}
use jungle_gaming_challenge.Domain.Wager.{
  WagerTransaction, opening, processed, rehydrate_wager_transaction, calculate_and_set_payload_hash,
}
use jungle_gaming_challenge.Store.{
  credit_entry, JsonValue, text, number, Tx, ◌>>=◌, ◌>>◌, lift, pure, time_now,
  execute_in_transaction,
}
use jungle_gaming_challenge.Repository.Wallet.{save as save_wallet}
use jungle_gaming_challenge.Repository.Transaction.{LedgerEntry, save, save_ledger_entry}
use jungle_gaming_challenge.Usecase.Events.{save_outbox_event, wallet_json, marshal}

-- `OpenWalletInputDTO`
pub record OpenWalletInput : Type 0 where
  pub player_id : Text
  pub initial_amount : Text
  pub initial_currency : Text

-- `OpenWalletOutputDTO`, with the two fields of its `MoneyDTO`
pub record OpenWalletOutput : Type 0 where
  pub id : Text
  pub player_id : Text
  pub balance_amount : Text
  pub balance_currency : Text
  pub version : ℤ

-- fmt.Sprintf("wal_%s_%s", input.PlayerID, strings.ToLower(input.InitialCurrency))
abbrev pub wallet_id_of : OpenWalletInput → Text
wallet_id_of input =
    codes "wal_" ++ (input.player_id ++ (codes "_" ++ to_lower input.initial_currency))

-- The transaction that stands for the opening balance, before its hash is set.
unfoldable pub opening_transaction : Wallet → ℕ → ℕ → WagerTransaction
opening_transaction w created_at updated_at =
    rehydrate_wager_transaction (codes "tx_opening_" ++ w.id) (codes "INTERNAL")
      (codes "opening_" ++ w.id) (codes "opening:" ++ w.id) [] w.id w.player_id (codes "INTERNAL")
      (codes "INTERNAL") opening w.balance [] processed [] created_at updated_at

abbrev pub opening_entry : WagerTransaction → Wallet → LedgerEntry
opening_entry t w = record {
  id = codes "led_" ++ t.id;
  wallet_id = w.id;
  transaction_id = t.id;
  direction = credit_entry;
  amount = w.balance.amount;
  balance_before = pos 0;
  balance_after = w.balance.amount;
}

-- `balancePayload`, its keys in the order of `json.Marshal`; two amounts are numbers of cents here
abbrev pub opening_payload : Wallet → List (Text × JsonValue)
opening_payload w =
    (codes "amount", number w.balance.amount)
    ∷ (codes "balanceAfter", number w.balance.amount)
    ∷ (codes "balanceBefore", text (codes "0.00"))
    ∷ (codes "currency", text w.balance.currency)
    ∷ (codes "direction", text (codes "CREDIT"))
    ∷ (codes "playerId", text w.player_id)
    ∷ (codes "walletId", text w.id)
    ∷ (codes "walletVersion", number w.version)
    ∷ []

abbrev pub hashed : WagerTransaction → Tx WagerTransaction
hashed t env s = (ok (calculate_and_set_payload_hash env.sha256_json t), s)

-- `if !initialMoney.IsZero()`
unfoldable pub record_opening : Wallet → Tx (Unit {0})
unfolding opening_transaction
record_opening w = do
  created_at ← time_now
  updated_at ← time_now
  t ← hashed (opening_transaction w created_at updated_at)
  save t
  save_ledger_entry (opening_entry t w)
  save_outbox_event w.id (codes "WALLET_OPENED") (wallet_json w)
  payload ← marshal (opening_payload w)
  save_outbox_event w.id (codes "WalletBalanceChanged") payload

unfoldable pub open_body : Wallet → Tx (Unit {0})
unfolding record_opening
open_body w = do save_wallet w; if is_zero w.balance then pure tt else record_opening w

-- What precedes the database transaction.
unfoldable pub wallet_of_input : Config → OpenWalletInput → Tx Wallet
wallet_of_input cfg input = do
  money ← lift (new_money_from_string input.initial_amount input.initial_currency)
  lift (fail_if (not (is_currency_supported money cfg.supported_currencies)) incompatible_currency)
  now ← time_now
  lift (new_wallet (wallet_id_of input) input.player_id money now)

abbrev pub output : Wallet → OpenWalletOutput
output w = record {
  id = w.id;
  player_id = w.player_id;
  balance_amount = to_text w.balance;
  balance_currency = w.balance.currency;
  version = w.version;
}

-- `OpenWalletUsecase.Execute`
unfoldable pub open_wallet : Config → OpenWalletInput → Tx OpenWalletOutput
unfolding wallet_of_input open_body
open_wallet cfg input = do
  w ← wallet_of_input cfg input
  execute_in_transaction (open_body w)
  pure (output w)
