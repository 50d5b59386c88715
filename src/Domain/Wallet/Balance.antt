-- ===== src/Domain/Wallet/Balance.antt =====
-- Debits and credits of a wallet: when they are refused, and what they change.
use jungle_gaming_challenge.Base.{ℕ, ◌≡◌, ◌≢◌, arith}
use jungle_gaming_challenge.Base.Text.{text_eq→eq}
use jungle_gaming_challenge.Base.Int.{ℤ, pos, ◌+ℤ◌, ◌-ℤ◌, ◌≤ℤ◌, IsInt64, add64, +ℤ_parts, -ℤ_parts}
use jungle_gaming_challenge.Errors.{
  Result, ok, err, negative_or_zero_amount_input, wallet_currency_mismatch, insufficient_balance,
  money_overflow,
}
use jungle_gaming_challenge.Domain.Money.{Money, is_zero, is_negative}
use jungle_gaming_challenge.Domain.Money.Arithmetic.{
  add-Answers, subtract-Answers, compare_money-Compares, ne_of_text_eq,
}
use jungle_gaming_challenge.Domain.Wallet.{Wallet, debit, credit}

-- A balance that the code keeps: an `int64` that is not negative.
abbrev pub IsBalance : Money → Type 0
IsBalance m = IsInt64 m.amount × (pos 0 ≤ℤ m.amount)

-- `w'` is `w` with another balance, one version up, written at `now`.
pub record Moved (w : Wallet) (w' : Wallet) (amount : ℤ) (now : ℕ) : Type 0 where
  pub same_id : w'.id ≡ w.id
  pub same_player : w'.player_id ≡ w.player_id
  pub same_currency : w'.balance.currency ≡ w.balance.currency
  pub new_amount : w'.balance.amount ≡ amount
  pub next_version : w'.version ≡ add64 w.version (pos 1)
  pub same_created_at : w'.created_at ≡ w.created_at
  pub stamped : w'.updated_at ≡ now

-- What `debit` answers, with the reason of each refusal.
abbrev pub Debits : Wallet → Money → ℕ → Result Wallet → Type 0
Debits w m now (ok w') =
    (pos 1 ≤ℤ m.amount)
    × (w.balance.currency ≡ m.currency)
    × (m.amount ≤ℤ w.balance.amount)
    × Moved w w' (w.balance.amount -ℤ m.amount) now
    × IsBalance w'.balance
Debits w m now (err negative_or_zero_amount_input) = m.amount ≤ℤ pos 0
Debits w m now (err wallet_currency_mismatch) = w.balance.currency ≢ m.currency
Debits w m now (err insufficient_balance) =
    (w.balance.currency ≡ m.currency) × (w.balance.amount +ℤ pos 1 ≤ℤ m.amount)
Debits w m now (err _) = ⊥

-- What `credit` answers, with the reason of each refusal.
abbrev pub Credits : Wallet → Money → ℕ → Result Wallet → Type 0
Credits w m now (ok w') =
    (pos 1 ≤ℤ m.amount)
    × (w.balance.currency ≡ m.currency)
    × Moved w w' (w.balance.amount +ℤ m.amount) now
    × IsBalance w'.balance
Credits w m now (err negative_or_zero_amount_input) = m.amount ≤ℤ pos 0
Credits w m now (err wallet_currency_mismatch) = w.balance.currency ≢ m.currency
Credits w m now (err money_overflow) =
    (w.balance.currency ≡ m.currency) × (¬ IsInt64 (w.balance.amount +ℤ m.amount))
Credits w m now (err _) = ⊥

-- A debit of a wallet with a balance of zero or more succeeds exactly where the amount is positive,
-- in the wallet's currency and covered by the balance. It then takes exactly that amount off, leaves
-- a balance of zero or more and counts the version up; each refusal has its own error, and no other
-- error occurs.
pub debit-Debits :
    (w : Wallet) (m : Money) (now : ℕ)
    → IsBalance w.balance
    → IsInt64 m.amount
    → Debits w m now (debit w m now)
unfolding debit is_zero is_negative
debit-Debits w m now h k =
    let cmp = compare_money-Compares w.balance m in
    let sub = subtract-Answers w.balance m h.0 k in
    ground (
      arith,
      cmp,
      sub,
      text_eq→eq w.balance.currency m.currency,
      ne_of_text_eq w.balance.currency m.currency,
      -ℤ_parts w.balance.amount m.amount,
      +ℤ_parts w.balance.amount (pos 1),
      +ℤ_parts m.amount (pos 1),
    )

-- A credit of a wallet with a balance of zero or more succeeds exactly where the amount is positive,
-- in the wallet's currency and the new balance fits in 64 bits. It then adds exactly that amount and
-- counts the version up; each refusal has its own error, and no other error occurs.
pub credit-Credits :
    (w : Wallet) (m : Money) (now : ℕ)
    → IsBalance w.balance
    → IsInt64 m.amount
    → Credits w m now (credit w m now)
unfolding credit is_zero is_negative
credit-Credits w m now h k = ground (
  arith,
  add-Answers w.balance m h.0 k,
  text_eq→eq w.balance.currency m.currency,
  ne_of_text_eq w.balance.currency m.currency,
  +ℤ_parts w.balance.amount m.amount,
)
