-- ===== src/Domain/Wager/Creation.antt =====
-- `NewWagerTransaction`: what it accepts, and what it makes of it.
use jungle_gaming_challenge.Base.{ℕ, ◌≡◌, Bool, true, false, ◌||◌, ◌&&◌, not, arith}
use jungle_gaming_challenge.Base.Text.{Text, is_empty, trim_space}
use jungle_gaming_challenge.Base.Int.{pos, ltb_ℤ, eqb_ℤ}
use jungle_gaming_challenge.Errors.{Result, ok, err}
use jungle_gaming_challenge.Domain.Money.{Money, is_zero, is_negative}
use jungle_gaming_challenge.Domain.Wager.{
  WagerTransaction, TransactionKind, bet, win, loss, refund, rollback, opening, unknown, pending,
  new_wager_transaction,
}
use jungle_gaming_challenge.Store.Rules.{Yields}

-- The rules of a request, kind by kind, given whether its reference is blank: a bet or a win of more than
-- zero, a loss of zero, a refund or a rollback of more than zero with a reference.
abbrev pub follows_rules : TransactionKind → Money → Bool → Bool
follows_rules bet money blank = ltb_ℤ (pos 0) money.amount
follows_rules win money blank = ltb_ℤ (pos 0) money.amount
follows_rules loss money blank = eqb_ℤ money.amount (pos 0)
follows_rules refund money blank = ltb_ℤ (pos 0) money.amount && not blank
follows_rules rollback money blank = ltb_ℤ (pos 0) money.amount && not blank
follows_rules opening money blank = false
follows_rules (unknown s) money blank = false

abbrev pub is_ok : {A : Type 0} → Result A → Bool
is_ok (ok a) = true
is_ok (err e) = false

module _ (id provider_id external_id idempotency_key wallet_id player_id round_id game_id : Text)
    (kind : TransactionKind) (money : Money) (reference : Text) (now : ℕ) where
  abbrev made : Result WagerTransaction
  made =
      new_wager_transaction id provider_id external_id idempotency_key wallet_id player_id round_id
        game_id kind money reference now

  -- A transaction is made exactly where it is a bet or a win of more than zero, a loss of zero, or a refund
  -- or a rollback of more than zero with a reference that is not blank, and the six fields are not empty;
  -- it is pending, and has the kind and the money that were given.
  pub new_wager_transaction-Makes :
      (is_ok made ≡ (
        follows_rules kind money (is_empty (trim_space reference))
        && not (
            is_empty id
            || is_empty provider_id
            || is_empty external_id
            || is_empty idempotency_key
            || is_empty wallet_id
            || is_empty player_id)))
      × Yields (λ t. (t.status ≡ pending) × (t.kind ≡ kind) × (t.money ≡ money)) made
  unfolding new_wager_transaction is_zero is_negative
  new_wager_transaction-Makes = (ground arith, ground arith)
