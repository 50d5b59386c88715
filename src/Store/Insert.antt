-- ===== src/Store/Insert.antt =====
-- The INSERT statements of internal/infrastructure/repository under the constraints of
-- migrations/000001_init_schema.up.sql, which PostgreSQL checks in this order: the lengths of the
-- columns, the CHECKs, the unique keys, the foreign keys.
use jungle_gaming_challenge.Base.{
  ℕ, ◌≡◌, refl, arith, Bool, true, false, ◌&&◌, ◌||◌, not, List, [], ◌∷◌, Option, none, some, ltb,
  length, if◌then◌else◌,
}
use jungle_gaming_challenge.Base.Text.{Text, text_eq}
use jungle_gaming_challenge.Base.Int.{pos, ltb_ℤ, eqb_ℤ, ◌+ℤ◌, ◌-ℤ◌}
use jungle_gaming_challenge.Errors.{
  DbError, unique_violation, check_violation, foreign_key_violation, string_too_long,
}
use jungle_gaming_challenge.Domain.Wager.{TransactionKind, unknown}
use jungle_gaming_challenge.Store.{
  Db, WalletRow, TransactionRow, LedgerRow, InboxRow, OutboxRow, debit_entry, credit_entry,
  no_direction, Answer, done, refused,
}

module _ {ℓ} {A : Type ℓ} where
  abbrev pub any : (A → Bool) → List A → Bool
  any p [] = false
  any p (x ∷ xs) = p x || any p xs

-- longer than VARCHAR(n)
abbrev exceeds : ℕ → Text → Bool
exceeds n s = ltb n (length s)

abbrev exceeds? : ℕ → Option Text → Bool
exceeds? n none = false
exceeds? n (some s) = exceeds n s

-- The first violation among those that hold, or the row goes in.
abbrev pub checked : Bool → Bool → Bool → Bool → Db → Answer (Unit {0})
checked too_long bad_value duplicate dangling db =
    if too_long
    then refused string_too_long
    else if bad_value
    then refused check_violation
    else if duplicate
    then refused unique_violation
    else if dangling
    then refused foreign_key_violation
    else done tt db

-- The row went in, so that nothing was violated.
pub checked_done :
    (too_long bad_value duplicate dangling : Bool) (db : Db) {v : Unit {0}} {db' : Db}
    → checked too_long bad_value duplicate dangling db ≡ done v db'
    → (too_long ≡ false)
      × (bad_value ≡ false)
      × (duplicate ≡ false)
      × (dangling ≡ false)
      × (db' ≡ db)
checked_done too_long bad_value duplicate dangling db h = ground arith

-- A duplicate is refused, as one or as something that is checked before.
pub checked_duplicate :
    (too_long bad_value dangling : Bool) (db : Db)
    → (e : DbError) × (checked too_long bad_value true dangling db ≡ refused e)
checked_duplicate true bad_value dangling db = (string_too_long, refl)
checked_duplicate false true dangling db = (check_violation, refl)
checked_duplicate false false dangling db = (unique_violation, refl)

abbrev pub has_wallet : Text → List WalletRow → Bool
has_wallet id = any (λ w. text_eq w.id id)

abbrev pub has_transaction : Text → List TransactionRow → Bool
has_transaction id = any (λ t. text_eq t.id id)

-- `uq_player_currency` and the primary key
abbrev pub same_wallet_key : WalletRow → WalletRow → Bool
same_wallet_key r w =
    text_eq w.id r.id || (text_eq w.player_id r.player_id && text_eq w.currency r.currency)

-- INSERT INTO wallets
unfoldable pub insert_wallet : WalletRow → Db → Answer (Unit {0})
insert_wallet r db =
    checked (exceeds 64 r.id || exceeds 64 r.player_id || exceeds 3 r.currency)
      (ltb_ℤ r.amount (pos 0) || not (ltb_ℤ (pos 0) r.version)) (any (same_wallet_key r) db.wallets)
      false (record db { wallets = r ∷ db.wallets })

abbrev pub is_unknown : TransactionKind → Bool
is_unknown (unknown s) = true
is_unknown _ = false

-- the primary key, `uq_provider_external_tx` and `uq_idempotency_key`
abbrev pub same_transaction_key : TransactionRow → TransactionRow → Bool
same_transaction_key r t =
    text_eq t.id r.id
    || (text_eq t.provider_id r.provider_id
        && text_eq t.external_transaction_id r.external_transaction_id)
    || text_eq t.idempotency_key r.idempotency_key

transaction_too_long : TransactionRow → Bool
transaction_too_long r =
    exceeds 64 r.id
    || exceeds 64 r.provider_id
    || exceeds 64 r.external_transaction_id
    || exceeds 255 r.idempotency_key
    || exceeds 64 r.payload_hash
    || exceeds 64 r.wallet_id
    || exceeds 64 r.player_id
    || exceeds 64 r.round_id
    || exceeds 64 r.game_id
    || exceeds 3 r.currency
    || exceeds? 64 r.reference_external_id
    || exceeds? 50 r.failure_code

-- INSERT INTO wager_transactions; the six kinds and the five statuses fit their columns
unfoldable pub insert_transaction : TransactionRow → Db → Answer (Unit {0})
unfolding transaction_too_long
insert_transaction r db =
    checked (transaction_too_long r) (is_unknown r.kind)
      (any (same_transaction_key r) db.transactions) (not (has_wallet r.wallet_id db.wallets))
      (record db { transactions = r ∷ db.transactions })

-- `chk_ledger_direction` and `chk_ledger_math_consistency`
abbrev is_balanced : LedgerRow → Bool
is_balanced r = elim r.direction [
  | credit_entry ↦ eqb_ℤ r.balance_after (r.balance_before +ℤ r.amount)
  | debit_entry ↦ eqb_ℤ r.balance_after (r.balance_before -ℤ r.amount)
  | no_direction ↦ false
]

-- `chk_ledger_amount_positive` and `chk_ledger_balance_not_negative` with the two above
unfoldable pub ledger_row_ok : LedgerRow → Bool
ledger_row_ok r =
    is_balanced r
    && ltb_ℤ (pos 0) r.amount
    && not (ltb_ℤ r.balance_after (pos 0))
    && not (ltb_ℤ r.balance_before (pos 0))

-- the primary key and `uq_wallet_transaction_ledger`
abbrev same_ledger_key : LedgerRow → LedgerRow → Bool
same_ledger_key r l =
    text_eq l.id r.id
    || (text_eq l.wallet_id r.wallet_id && text_eq l.transaction_id r.transaction_id)

-- INSERT INTO wallet_ledger_entries
unfoldable pub insert_ledger : LedgerRow → Db → Answer (Unit {0})
unfolding ledger_row_ok
insert_ledger r db =
    checked (exceeds 64 r.id || exceeds 64 r.wallet_id || exceeds 64 r.transaction_id)
      (not (ledger_row_ok r)) (any (same_ledger_key r) db.ledger)
      (not (has_wallet r.wallet_id db.wallets)
        || not (has_transaction r.transaction_id db.transactions))
      (record db { ledger = r ∷ db.ledger })

-- INSERT INTO inbox_messages; the primary key is the consumer with the message
unfoldable pub insert_inbox : InboxRow → Db → Answer (Unit {0})
insert_inbox r db =
    checked (exceeds 64 r.message_id || exceeds 100 r.consumer_name || exceeds 64 r.payload_hash)
      false
      (any (λ m. text_eq m.consumer_name r.consumer_name && text_eq m.message_id r.message_id)
        db.inbox)
      false (record db { inbox = r ∷ db.inbox })

-- INSERT INTO outbox_events
unfoldable pub insert_outbox : OutboxRow → Db → Answer (Unit {0})
insert_outbox r db =
    checked (exceeds 64 r.id || exceeds 64 r.aggregate_id || exceeds 100 r.event_type) false
      (any (λ e. text_eq e.id r.id) db.outbox) false (record db { outbox = r ∷ db.outbox })
