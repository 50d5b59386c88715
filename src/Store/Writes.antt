-- ===== src/Store/Writes.antt =====
-- The statements that write, as one step relation between databases.
use jungle_gaming_challenge.Base.{ℕ, ◌≡◌, Option}
use jungle_gaming_challenge.Base.Text.{Text}
use jungle_gaming_challenge.Base.Int.{ℤ, pos, add64}
use jungle_gaming_challenge.Domain.Wager.{TransactionStatus}
use jungle_gaming_challenge.Store.{
  Db, Outside, WalletRow, TransactionRow, LedgerRow, InboxRow, OutboxRow, pending_event, Answer,
  done, statement,
}
use jungle_gaming_challenge.Store.Insert.{
  insert_wallet, insert_transaction, insert_ledger, insert_inbox, insert_outbox,
}
use jungle_gaming_challenge.Store.Update.{update_wallet, update_status, mark_published, mark_retry}
use jungle_gaming_challenge.Store.Always.{World, Always, statement-Always}

-- One statement of the program went through.
pub data Write (db db' : Db) : Type 0 where
  wallet_inserted : (r : WalletRow) (v : Unit {0}) → insert_wallet r db ≡ done v db' → Write db db'
  transaction_inserted :
      (r : TransactionRow) (v : Unit {0}) → insert_transaction r db ≡ done v db' → Write db db'
  ledger_inserted : (r : LedgerRow) (v : Unit {0}) → insert_ledger r db ≡ done v db' → Write db db'
  inbox_inserted : (r : InboxRow) (v : Unit {0}) → insert_inbox r db ≡ done v db' → Write db db'
  outbox_inserted :
      (r : OutboxRow) (v : Unit {0})
      → r.status ≡ pending_event
      → insert_outbox r db ≡ done v db'
      → Write db db'
  wallet_updated :
      (amount version : ℤ) (now : ℕ) (id : Text) (expected : ℤ) (n : ℕ)
      → version ≡ add64 expected (pos 1)
      → update_wallet amount version now id expected db ≡ done n db'
      → Write db db'
  status_updated :
      (status : TransactionStatus) (code : Option Text) (retry : Option ℕ) (now : ℕ) (id : Text)
      (v : Unit {0})
      → update_status status code retry now id db ≡ done v db'
      → Write db db'

-- One statement of the publisher of events went through.
pub data EventWrite (db db' : Db) : Type 0 where
  event_published :
      (now : ℕ) (id : Text) (v : Unit {0})
      → mark_published now id db ≡ done v db'
      → EventWrite db db'
  event_retried :
      (next : ℕ) (max : ℤ) (id : Text) (v : Unit {0})
      → mark_retry next max id db ≡ done v db'
      → EventWrite db db'

-- No write takes `P` away.
pub record Stable (P : World) : Type 0 where
  pub keeps : {db db' : Db} {o : Outside} → Write db db' → P db o → P db' o

-- with `P` of another database, a fact
abbrev pub Beside : World → Db → World
Beside P before db o = P db o × P before o

pub Beside-Stable : {P : World} (before : Db) → Stable P → Stable (Beside P before)
Beside-Stable before stable = record { keeps = λ w h. (stable.keeps w h.0, h.1) }

pub writing-Always :
    {A : Type 0} {P : World} (f : Db → Answer A)
    → ((db db' : Db) (v : A) → f db ≡ done v db' → Write db db')
    → Stable P
    → Always P (statement f)
writing-Always f wrote stable =
    statement-Always f (λ db db' o v e h. stable.keeps (wrote db db' v e) h)
