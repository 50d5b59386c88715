-- ===== src/Store/Update.antt =====
-- The SELECT and UPDATE statements of internal/infrastructure/repository.
use jungle_gaming_challenge.Base.{
  ℕ, suc, ◌+◌, Bool, ◌&&◌, ◌||◌, not, List, [], ◌∷◌, Option, none, some, leb, if◌then◌else◌,
}
use jungle_gaming_challenge.Base.Text.{Text, text_eq}
use jungle_gaming_challenge.Base.Int.{ℤ, pos, negsuc, ltb_ℤ, leb_ℤ, eqb_ℤ}
use jungle_gaming_challenge.Errors.{check_violation, out_of_range}
use jungle_gaming_challenge.Domain.Wager.{TransactionStatus}
use jungle_gaming_challenge.Store.Insert.{any}
use jungle_gaming_challenge.Store.{
  timestamptz, timestamptz?, Db, WalletRow, TransactionRow, OutboxRow, published_event,
  failed_event, Answer, done, refused,
}

module _ {ℓ} {A : Type ℓ} where
  -- the first row that meets a condition; the conditions below are on unique keys
  abbrev pub find : (A → Bool) → List A → Option A
  find p [] = none
  find p (x ∷ xs) = if p x then some x else find p xs

  -- rewrites the rows that meet a condition
  abbrev pub update_where : (A → Bool) → (A → A) → List A → List A
  update_where p f [] = []
  update_where p f (x ∷ xs) = (if p x then f x else x) ∷ update_where p f xs

  -- `RowsAffected`
  abbrev pub count_where : (A → Bool) → List A → ℕ
  count_where p [] = 0
  count_where p (x ∷ xs) = if p x then suc (count_where p xs) else count_where p xs

-- SELECT ... FROM wallets WHERE id = $1
unfoldable pub select_wallet : Text → Db → Option WalletRow
select_wallet id db = find (λ w. text_eq w.id id) db.wallets

-- SELECT ... FROM wager_transactions WHERE provider_id = $1 AND external_transaction_id = $2
unfoldable pub select_by_external_id : Text → Text → Db → Option TransactionRow
select_by_external_id provider_id external_id db =
    find (λ t. text_eq t.provider_id provider_id && text_eq t.external_transaction_id external_id)
      db.transactions

-- SELECT ... FROM wager_transactions WHERE idempotency_key = $1
unfoldable pub select_by_idempotency_key : Text → Db → Option TransactionRow
select_by_idempotency_key key db = find (λ t. text_eq t.idempotency_key key) db.transactions

-- SELECT ... FROM wager_transactions WHERE id = $1 FOR UPDATE
unfoldable pub select_by_id : Text → Db → Option TransactionRow
select_by_id id db = find (λ t. text_eq t.id id) db.transactions

abbrev pub wallet_at : Text → ℤ → WalletRow → Bool
wallet_at id version w = text_eq w.id id && eqb_ℤ w.version version

-- UPDATE wallets SET amount = $1, version = $2, updated_at = $3 WHERE id = $4 AND version = $5, with
-- `chk_wallet_balance_not_negative` and `chk_wallet_version_positive` on a row that it writes. The
-- answer is the number of rows.
unfoldable pub update_wallet : ℤ → ℤ → ℕ → Text → ℤ → Db → Answer ℕ
update_wallet amount version updated_at id expected_version db =
    let n = count_where (wallet_at id expected_version) db.wallets in
    if (ltb_ℤ amount (pos 0) || not (ltb_ℤ (pos 0) version)) && leb 1 n
    then refused check_violation
    else done n (record db {
      wallets =
          update_where (wallet_at id expected_version)
            (λ w. record w {
              amount = amount;
              version = version;
              updated_at = timestamptz updated_at;
            })
            db.wallets;
    })

-- UPDATE wager_transactions SET status, failure_code, next_retry_at, updated_at WHERE id = $5. The
-- failure codes of the program fit their column.
unfoldable pub update_status :
    TransactionStatus → Option Text → Option ℕ → ℕ → Text → Db → Answer (Unit {0})
update_status status failure_code next_retry_at updated_at id db = done tt (record db {
  transactions =
      update_where (λ t. text_eq t.id id)
        (λ t. record t {
          status = status;
          failure_code = failure_code;
          next_retry_at = timestamptz? next_retry_at;
          updated_at = timestamptz updated_at;
        })
        db.transactions;
})

-- UPDATE outbox_events SET status = 'PUBLISHED', published_at = $1 WHERE id = $2
unfoldable pub mark_published : ℕ → Text → Db → Answer (Unit {0})
mark_published now id db = done tt (record db {
  outbox =
      update_where (λ e. text_eq e.id id)
        (λ e. record e { status = published_event; published_at = some (timestamptz now) })
        db.outbox;
})

-- the range of an `int4`
abbrev pub is_int4 : ℤ → Bool
is_int4 a = leb_ℤ (negsuc 2147483647) a && leb_ℤ a (pos 2147483647)

-- the CASE of the status, and the count
abbrev pub retried_row : ℕ → ℤ → OutboxRow → OutboxRow
retried_row next_send_at max_attempts e = record e {
  attempts = e.attempts + 1;
  next_send_at = timestamptz next_send_at;
  status = if leb_ℤ max_attempts (pos (e.attempts + 1)) then failed_event else e.status;
}

-- UPDATE outbox_events SET attempts = attempts + 1, next_send_at = $1, status = CASE WHEN
-- attempts + 1 >= $3 THEN 'FAILED' ELSE status END WHERE id = $2. The column is an INT, and so is $3: a
-- limit outside of its range is not encoded, and a count that leaves it is an error.
unfoldable pub mark_retry : ℕ → ℤ → Text → Db → Answer (Unit {0})
mark_retry next_send_at max_attempts id db =
    if not (is_int4 max_attempts)
      || any (λ e. text_eq e.id id && leb 2147483647 e.attempts) db.outbox
    then refused out_of_range
    else done tt (record db {
      outbox =
          update_where (λ e. text_eq e.id id) (retried_row next_send_at max_attempts) db.outbox;
    })
