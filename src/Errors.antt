-- ===== src/Errors.antt =====
-- The error values of internal/domain, internal/usecase and internal/infrastructure/repository, and
-- the result of a fallible function. `fmt.Errorf("...: %w", err)` keeps what `errors.Is` sees, so a
-- wrapped sentinel is the sentinel itself here.
use mathlib.Core.Bool.{Bool, true, false}

-- What PostgreSQL answers to a statement that it does not carry out. `aborted` is code 25P02, the
-- answer to every statement after a failed one; `out_of_range` is a sum that does not fit in the
-- variable that reads it; `fault` is a lost connection, a timeout and the like.
pub data DbError : Type 0 where
  unique_violation check_violation foreign_key_violation string_too_long : DbError
  out_of_range aborted fault : DbError

pub data Error : Type 0 where
  -- money.go
  incompatible_currency money_overflow invalid_money_format negative_amount_input : Error
  invalid_currency_format : Error
  -- wallet.go
  id_and_player_id_required negative_or_zero_amount_input wallet_currency_mismatch : Error
  insufficient_balance wallet_not_found : Error
  -- transaction.go
  terminal_state_transition invalid_transaction_kind missing_reference : Error
  invalid_state_transition loss_type_must_have_zero_value amount_must_be_positive : Error
  failure_code_required : Error
  -- wager_usecase.go
  wallet_owner_mismatch reference_not_usable unsupported_kind : Error
  -- internal/infrastructure/repository; `wallet_row_not_found` is its own `ErrWalletNotFound`
  transaction_conflict duplicate_transaction duplicate_message wallet_row_not_found : Error
  -- any other failure of a statement, and of BEGIN and COMMIT
  database : DbError → Error
  begin_failed commit_failed : Error
  -- a call of SQS that failed
  queue_fault : Error

-- What a function with the results `(A, error)` returns: one of the two is used.
pub data Result (A : Type 0) : Type 0 where
  err : Error → Result A
  ok : A → Result A

module _ {B : Type 0} where
  infixl 5 ◌>>=◌ ◌>>◌
  -- `if err != nil { return ..., err }` behind a call
  abbrev pub ◌>>=◌ : {A : Type 0} → Result A → (A → Result B) → Result B
  ◌>>=◌ (err failure) next = err failure
  ◌>>=◌ (ok value) next = next value

  abbrev pub ◌>>◌ : Result (Unit {0}) → Result B → Result B
  check >> next = check >>= λ passed. next

-- `if c { return ..., e }`
abbrev pub fail_if : Bool → Error → Result (Unit {0})
fail_if true e = err e
fail_if false e = ok tt
