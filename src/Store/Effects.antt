-- ===== src/Store/Effects.antt =====
-- What a write does to the ledger, to the inbox and to the outbox: at most one new row, and the old ones
-- as they were.
use jungle_gaming_challenge.Base.{
  ℕ, ◌≡◌, ap, Bool, true, false, ◌||◌, ◌&&◌, not, List, ◌∷◌, ◌⊎◌, inl, inr, leb, if◌then◌else◌,
}
use jungle_gaming_challenge.Base.Text.{Text, text_eq}
use jungle_gaming_challenge.Base.Int.{ℤ, pos, ltb_ℤ}
use jungle_gaming_challenge.Errors.{check_violation}
use jungle_gaming_challenge.Store.{
  Db, WalletRow, TransactionRow, LedgerRow, InboxRow, OutboxRow, pending_event, done, refused,
}
use jungle_gaming_challenge.Store.Insert.{
  any, checked_done, is_unknown, insert_wallet, insert_transaction, insert_ledger, insert_inbox,
  insert_outbox,
}
use jungle_gaming_challenge.Store.Update.{update_wallet, update_status, count_where, wallet_at}
use jungle_gaming_challenge.Store.Writes.{
  Write, wallet_inserted, transaction_inserted, ledger_inserted, inbox_inserted, outbox_inserted,
  wallet_updated, status_updated,
}

-- the same rows, or one more
abbrev pub Grows : {A : Type 0} → (A → Type 0) → List A → List A → Type 0
Grows New rows rows' = (rows' ≡ rows) ⊎ ((r : _) × New r × (rows' ≡ r ∷ rows))

-- UPDATE wallets touches the wallets alone.
pub update_wallet-others :
    (amount version : ℤ) (now : ℕ) (id : Text) (expected : ℤ) (n : ℕ) (db db' : Db)
    → update_wallet amount version now id expected db ≡ done n db'
    → (db'.ledger ≡ db.ledger)
      × (db'.inbox ≡ db.inbox)
      × (db'.outbox ≡ db.outbox)
      × (db'.transactions ≡ db.transactions)
unfolding update_wallet
update_wallet-others amount version now id expected n db db' h =
    at _ _
      ((ltb_ℤ amount (pos 0) || not (ltb_ℤ (pos 0) version))
        && leb 1 (count_where (wallet_at id expected) db.wallets))
      h
  where
    at :
        (m : ℕ) (new : Db) (b : Bool)
        → (if b then refused check_violation else done m new) ≡ done n db'
        → (db'.ledger ≡ new.ledger)
          × (db'.inbox ≡ new.inbox)
          × (db'.outbox ≡ new.outbox)
          × (db'.transactions ≡ new.transactions)
    at m new true e = absurd (cc e)
    at m new false e = (cc e, cc e, cc e, cc e)

-- A row that went in is the table's newest, and nothing else is new.
module _ {db db' : Db} {v : Unit {0}} where
  pub wallet_in :
      (r : WalletRow)
      → insert_wallet r db ≡ done v db'
      → db' ≡ record db { wallets = r ∷ db.wallets }
  unfolding insert_wallet
  wallet_in r h = (checked_done _ _ _ false _ h).4

  pub transaction_in :
      (r : TransactionRow)
      → insert_transaction r db ≡ done v db'
      → db' ≡ record db { transactions = r ∷ db.transactions }
  unfolding insert_transaction
  transaction_in r h = (checked_done _ (is_unknown r.kind) _ _ _ h).4

  pub ledger_in :
      (r : LedgerRow) → insert_ledger r db ≡ done v db' → db' ≡ record db { ledger = r ∷ db.ledger }
  unfolding insert_ledger
  ledger_in r h = (checked_done _ _ _ _ _ h).4

  pub inbox_in :
      (r : InboxRow) → insert_inbox r db ≡ done v db' → db' ≡ record db { inbox = r ∷ db.inbox }
  unfolding insert_inbox
  inbox_in r h = (checked_done _ false _ false _ h).4

  pub outbox_in :
      (r : OutboxRow)
      → insert_outbox r db ≡ done v db'
      → (any (λ e. text_eq e.id r.id) db.outbox ≡ false)
        × (db' ≡ record db { outbox = r ∷ db.outbox })
  unfolding insert_outbox
  outbox_in r h =
      let (a, b, c, d, e) =
        checked_done _ false (any (λ e. text_eq e.id r.id) db.outbox) false _ h in
      (c, e)

-- a new event, whose id no other has
abbrev pub NewEvent : List OutboxRow → OutboxRow → Type 0
NewEvent rows r = (r.status ≡ pending_event) × (any (λ e. text_eq e.id r.id) rows ≡ false)

module _ {db db' : Db} where
  pub Write-ledger : Write db db' → Grows {A = LedgerRow} (λ r. Unit) db.ledger db'.ledger
  unfolding update_status
  Write-ledger (wallet_inserted r v h) = inl (ap (λ d. d.ledger) (wallet_in r h))
  Write-ledger (transaction_inserted r v h) = inl (ap (λ d. d.ledger) (transaction_in r h))
  Write-ledger (ledger_inserted r v h) = inr (r, tt, ap (λ d. d.ledger) (ledger_in r h))
  Write-ledger (inbox_inserted r v h) = inl (ap (λ d. d.ledger) (inbox_in r h))
  Write-ledger (outbox_inserted r v fresh h) = inl (ap (λ d. d.ledger) (outbox_in r h).1)
  Write-ledger (wallet_updated a b c d e n next h) =
      inl (update_wallet-others a b c d e n db db' h).0
  Write-ledger (status_updated a b c d e v h) = inl (cc h)

  pub Write-inbox : Write db db' → Grows {A = InboxRow} (λ r. Unit) db.inbox db'.inbox
  unfolding update_status
  Write-inbox (wallet_inserted r v h) = inl (ap (λ d. d.inbox) (wallet_in r h))
  Write-inbox (transaction_inserted r v h) = inl (ap (λ d. d.inbox) (transaction_in r h))
  Write-inbox (ledger_inserted r v h) = inl (ap (λ d. d.inbox) (ledger_in r h))
  Write-inbox (inbox_inserted r v h) = inr (r, tt, ap (λ d. d.inbox) (inbox_in r h))
  Write-inbox (outbox_inserted r v fresh h) = inl (ap (λ d. d.inbox) (outbox_in r h).1)
  Write-inbox (wallet_updated a b c d e n next h) =
      inl (update_wallet-others a b c d e n db db' h).1
  Write-inbox (status_updated a b c d e v h) = inl (cc h)

  pub Write-outbox : Write db db' → Grows (NewEvent db.outbox) db.outbox db'.outbox
  unfolding update_status
  Write-outbox (wallet_inserted r v h) = inl (ap (λ d. d.outbox) (wallet_in r h))
  Write-outbox (transaction_inserted r v h) = inl (ap (λ d. d.outbox) (transaction_in r h))
  Write-outbox (ledger_inserted r v h) = inl (ap (λ d. d.outbox) (ledger_in r h))
  Write-outbox (inbox_inserted r v h) = inl (ap (λ d. d.outbox) (inbox_in r h))
  Write-outbox (outbox_inserted r v fresh h) =
      let (alone, added) = outbox_in r h in inr (r, (fresh, alone), ap (λ d. d.outbox) added)
  Write-outbox (wallet_updated a b c d e n next h) =
      inl (update_wallet-others a b c d e n db db' h).2
  Write-outbox (status_updated a b c d e v h) = inl (cc h)
