-- ===== src/Usecase/Events.antt =====
-- The events that the use cases write to the outbox: `saveOutboxEvent` of
-- internal/usecase/wager_usecase.go and `saveOutbox` of internal/usecase/open_wallet_usecase.go.
use jungle_gaming_challenge.Base.{ℕ, List, [], ◌∷◌, ◌++◌}
use jungle_gaming_challenge.Base.Text.{Text, codes}
use jungle_gaming_challenge.Base.Int.{ℤ}
use jungle_gaming_challenge.Errors.{ok}
use jungle_gaming_challenge.Domain.Money.{new_internal_money, to_text}
use jungle_gaming_challenge.Domain.Money.Digits.{format_nat}
use jungle_gaming_challenge.Domain.Wallet.{Wallet}
use jungle_gaming_challenge.Domain.Wager.{WagerTransaction}
use jungle_gaming_challenge.Store.{
  Direction, debit_entry, credit_entry, no_direction, JsonValue, text, number, Tx, ◌>>=◌, time_now,
}
use jungle_gaming_challenge.Repository.Messaging.{save_outbox, outbox_row}

-- fmt.Sprintf("evt_%s_%d", aggregateID, now.UnixNano())
abbrev pub event_id : Text → ℕ → Text
event_id aggregate_id now = codes "evt_" ++ (aggregate_id ++ (codes "_" ++ format_nat now))

unfoldable pub save_outbox_event : Text → Text → Text → Tx (Unit {0})
save_outbox_event aggregate_id event_name payload = do
  now ← time_now
  save_outbox (outbox_row (event_id aggregate_id now) aggregate_id event_name payload now)

-- `json.Marshal` of a `*WagerTransaction` or a `*Wallet`: their fields are not exported and they have
-- no `MarshalJSON`, so the object has no members.
abbrev pub wager_json : WagerTransaction → Text
wager_json t = codes "{}"

abbrev pub wallet_json : Wallet → Text
wallet_json w = codes "{}"

abbrev pub direction_text : Direction → Text
direction_text debit_entry = codes "DEBIT"
direction_text credit_entry = codes "CREDIT"
direction_text no_direction = []

-- `balanceChangedPayload`, its keys in the order of `json.Marshal`
unfoldable pub balance_changed : WagerTransaction → ℤ → Wallet → Direction → List (Text × JsonValue)
balance_changed t balance_before w direction =
    (codes "amount", text (to_text t.money))
    ∷ (codes "balanceAfter", text (to_text w.balance))
    ∷ (codes "balanceBefore", text (to_text (new_internal_money balance_before w.balance.currency)))
    ∷ (codes "currency", text t.money.currency)
    ∷ (codes "direction", text (direction_text direction))
    ∷ (codes "transactionId", text t.id)
    ∷ (codes "walletId", text w.id)
    ∷ (codes "walletVersion", number w.version)
    ∷ []

-- the serialized map
abbrev pub marshal : List (Text × JsonValue) → Tx Text
marshal m env s = (ok (env.json_map m), s)

unfoldable pub save_balance_changed : WagerTransaction → ℤ → Wallet → Direction → Tx (Unit {0})
save_balance_changed t balance_before w direction = do
  payload ← marshal (balance_changed t balance_before w direction)
  save_outbox_event w.id (codes "WalletBalanceChanged") payload
