-- ===== src/Store/Keys.antt =====
-- The unique keys of wager_transactions, and what the statements make of them.
use jungle_gaming_challenge.Base.{
  ℕ, Option, ◌≡◌, sym, ap, subst, Bool, false, ◌&&◌, All, arith, List, [], ◌∷◌, inl, inr,
  Bool-cases,
}
use jungle_gaming_challenge.Base.Text.{Text, text_eq}
use jungle_gaming_challenge.Domain.Wager.{TransactionStatus}
use jungle_gaming_challenge.Store.{timestamptz, timestamptz?, Db, TransactionRow}
use jungle_gaming_challenge.Store.Insert.{
  any, checked_done, is_unknown, same_transaction_key, insert_transaction,
}
use jungle_gaming_challenge.Store.Update.{update_where, update_status}
use jungle_gaming_challenge.Store.Rows.{All-update_where}
use jungle_gaming_challenge.Store.Writes.{Stable, Write}
use jungle_gaming_challenge.Store.Effects.{
  wallet_in, ledger_in, inbox_in, outbox_in, update_wallet-others,
}

-- Two transactions with other ids, not with one external id of one provider, and with other idempotency
-- keys.
abbrev pub Apart : TransactionRow → TransactionRow → Type 0
Apart t u =
    (text_eq u.id t.id ≡ false)
    × ((text_eq u.provider_id t.provider_id
          && text_eq u.external_transaction_id t.external_transaction_id)
        ≡ false)
    × (text_eq u.idempotency_key t.idempotency_key ≡ false)

-- Each transaction is apart from all others.
abbrev pub UniqueKeys : List TransactionRow → Type 0
UniqueKeys [] = Unit
UniqueKeys (t ∷ ts) = All (Apart t) ts × UniqueKeys ts

-- A row that meets no key of the table is apart from its rows.
Apart-of_new :
    (r : TransactionRow) (ts : List TransactionRow)
    → any (same_transaction_key r) ts ≡ false
    → All (Apart r) ts
Apart-of_new r [] h = tt
Apart-of_new r (t ∷ ts) h =
    ((ground arith, ground arith, ground arith), Apart-of_new r ts (ground arith))

UniqueKeys-update_where :
    (p : TransactionRow → Bool) (f : TransactionRow → TransactionRow)
    → ((r t : TransactionRow) → Apart r t → Apart r (f t))
    → ((r t : TransactionRow) → Apart r t → Apart (f r) t)
    → (ts : List TransactionRow) → UniqueKeys ts
    → UniqueKeys (update_where p f ts)
UniqueKeys-update_where p f here there [] h = tt
UniqueKeys-update_where p f here there (t ∷ ts) (alone, rest) =
    let others = UniqueKeys-update_where p f here there ts rest in
    let kept : All (Apart t) (update_where p f ts) =
      All-update_where p f (λ x c k. here t x k) (λ x c k. k) ts alone in
    let moved : All (Apart (f t)) (update_where p f ts) =
      All-update_where p f (λ x c k. here (f t) x (there t x k)) (λ x c k. there t x k) ts alone in
    elim (Bool-cases (p t)) [ inl c ↦ rw c (moved, others) | inr c ↦ rw c (kept, others) ]

-- what an UPDATE of the status makes of its row
abbrev restated : TransactionStatus → Option Text → Option ℕ → ℕ → TransactionRow → TransactionRow
restated status code retry now t = record t {
  status = status;
  failure_code = code;
  next_retry_at = timestamptz? retry;
  updated_at = timestamptz now;
}

pub UniqueKeys-Stable : Stable (λ db o. UniqueKeys db.transactions)
unfolding insert_transaction update_status
UniqueKeys-Stable = record { keeps = λ step h. at step h }
  where
    untouched : {ts ts' : List TransactionRow} → ts' ≡ ts → UniqueKeys ts → UniqueKeys ts'
    untouched same h = subst UniqueKeys (sym same) h

    at : {db db' : Db} → Write db db' → UniqueKeys db.transactions → UniqueKeys db'.transactions
    at (Write.wallet_inserted r v e) h = untouched (ap (λ d. d.transactions) (wallet_in r e)) h
    at {db} (Write.transaction_inserted r v e) h =
        let (_, _, alone, _, same) =
          checked_done _ (is_unknown r.kind) (any (same_transaction_key r) db.transactions) _ _ e in
        untouched (ap (λ d. d.transactions) same) (Apart-of_new r db.transactions alone, h)
    at (Write.ledger_inserted r v e) h = untouched (ap (λ d. d.transactions) (ledger_in r e)) h
    at (Write.inbox_inserted r v e) h = untouched (ap (λ d. d.transactions) (inbox_in r e)) h
    at (Write.outbox_inserted r v fresh e) h =
        untouched (ap (λ d. d.transactions) (outbox_in r e).1) h
    at (Write.wallet_updated a b c d e n next w) h =
        untouched (update_wallet-others a b c d e n _ _ w).3 h
    at (Write.status_updated status code retry now id v e) h = untouched (cc e) (
        UniqueKeys-update_where (λ t. text_eq t.id id) (restated status code retry now) (λ r t k. k)
          (λ r t k. k) _ h)
