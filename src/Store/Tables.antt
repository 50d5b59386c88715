-- ===== src/Store/Tables.antt =====
-- The rows of migrations/000001_init_schema.up.sql. A NULL column is an `Option`; a column whose CHECK
-- lists its values has a data type of these values (and of those that the check is there to refuse).
use jungle_gaming_challenge.Base.{ℕ, ◌*◌, ◌/◌, List, Option, none, some}
use jungle_gaming_challenge.Base.Text.{Text}
use jungle_gaming_challenge.Base.Int.{ℤ}
use jungle_gaming_challenge.Domain.Wager.{TransactionKind, TransactionStatus}

-- What a TIMESTAMP WITH TIME ZONE keeps of a time in nanoseconds: pgx sends whole microseconds, and cuts
-- off the rest.
unfoldable pub timestamptz : ℕ → ℕ
timestamptz t = t / 1000 * 1000

abbrev pub timestamptz? : Option ℕ → Option ℕ
timestamptz? none = none
timestamptz? (some t) = some (timestamptz t)

pub record WalletRow : Type 0 where
  pub id : Text
  pub player_id : Text
  pub currency : Text
  pub amount : ℤ
  pub version : ℤ
  pub created_at : ℕ
  pub updated_at : ℕ

pub record TransactionRow : Type 0 where
  pub id : Text
  pub provider_id : Text
  pub external_transaction_id : Text
  pub idempotency_key : Text
  pub payload_hash : Text
  pub wallet_id : Text
  pub player_id : Text
  pub round_id : Text
  pub game_id : Text
  pub kind : TransactionKind
  pub amount : ℤ
  pub currency : Text
  pub reference_external_id : Option Text
  pub status : TransactionStatus
  pub failure_code : Option Text
  pub next_retry_at : Option ℕ
  pub created_at : ℕ
  pub updated_at : ℕ

-- 'DEBIT', 'CREDIT', and the empty text with which the code begins
pub data Direction : Type 0 where
  debit_entry credit_entry no_direction : Direction

pub record LedgerRow : Type 0 where
  pub id : Text
  pub wallet_id : Text
  pub transaction_id : Text
  pub direction : Direction
  pub amount : ℤ
  pub balance_before : ℤ
  pub balance_after : ℤ
  pub created_at : ℕ

pub record InboxRow : Type 0 where
  pub message_id : Text
  pub consumer_name : Text
  pub payload_hash : Text
  pub received_at : ℕ
  pub processed_at : ℕ

pub data OutboxStatus : Type 0 where
  pending_event published_event failed_event : OutboxStatus

pub record OutboxRow : Type 0 where
  pub id : Text
  pub aggregate_id : Text
  pub event_type : Text
  pub payload : Text
  pub attempts : ℕ
  pub status : OutboxStatus
  pub next_send_at : ℕ
  pub created_at : ℕ
  pub published_at : Option ℕ

-- Each table with its newest row first.
pub record Db : Type 0 where
  pub wallets : List WalletRow
  pub transactions : List TransactionRow
  pub ledger : List LedgerRow
  pub inbox : List InboxRow
  pub outbox : List OutboxRow
