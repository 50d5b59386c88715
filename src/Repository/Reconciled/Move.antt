-- ===== src/Repository/Reconciled/Move.antt =====
-- `WalletRepository.Update` and `TransactionRepository.SaveLedgerEntry`, one after the other,
-- and wallets tied to the ledger.
use jungle_gaming_challenge.Base.{
  ℕ, ◌≡◌, ◌≢◌, refl, sym, ap, subst, ◌∙◌, Bool, true, false, List, [], ◌∷◌, some, arith, ◌==◌,
  Bool-cases, inl, inr,
}
use jungle_gaming_challenge.Base.Text.{Text, text_eq, text_eq→eq}
use jungle_gaming_challenge.Base.Int.{ℤ, pos, ◌-ℤ◌, ◌≤ℤ◌, eqb_ℤ, eq_of_parts}
use jungle_gaming_challenge.Errors.{fail_if, wallet_row_not_found}
use jungle_gaming_challenge.Domain.Wallet.{Wallet}
use jungle_gaming_challenge.Store.{
  timestamptz, Db, WalletRow, LedgerRow, Session, ◌>>=◌, done, lift,
}
use jungle_gaming_challenge.Store.Insert.{has_wallet, insert_ledger, ledger_row_ok, checked_done}
use jungle_gaming_challenge.Store.Update.{find, update_where, count_where, wallet_at, update_wallet}
use jungle_gaming_challenge.Store.Rules.{statement_cases, time_now-Quiet}
use jungle_gaming_challenge.Store.Invariant.{Safe, Good, Holds, Money2, bind-Safe}
use jungle_gaming_challenge.Repository.Wallet.{update}
use jungle_gaming_challenge.Repository.Transaction.{LedgerEntry, ledger_row, save_ledger_entry}
use jungle_gaming_challenge.Repository.Reconciled.{
  Known, Reconciled, Ahead, Tied, absent_count, signed_of_ok, Tied-of_Ahead, Known-update,
  Ahead-of_update,
}

-- What a reader knows of its wallet: while the row has the version that was read, it has the amount.
abbrev pub WasRead : Wallet → List WalletRow → Type 0
WasRead w ws =
    (r : WalletRow)
    → find (λ x. text_eq x.id w.id) ws ≡ some r
    → r.version ≡ w.version
    → r.amount ≡ w.balance.amount

abbrev pub Read : Wallet → Money2
Read w ws ls = Reconciled ws ls × WasRead w ws

abbrev pub AheadBy : Text → ℤ → Money2
AheadBy id d ws ls = Ahead id d ls ws × Known ws ls

-- What a write of a wallet did, if it went through.
pub update_wallet_done :
    (amount version : ℤ) (now : ℕ) (id : Text) (expected : ℤ) (db : Db) {n : ℕ} {db' : Db}
    → update_wallet amount version now id expected db ≡ done n db'
    → (n ≡ count_where (wallet_at id expected) db.wallets)
      × (db'.wallets
          ≡ update_where
              (wallet_at id expected)
              (λ w. record w { amount = amount; version = version; updated_at = timestamptz now })
              db.wallets)
      × (db'.ledger ≡ db.ledger)
      × (n ≢ 0 → pos 0 ≤ℤ amount)
unfolding update_wallet
update_wallet_done amount version now id expected db {n} {db'} e =
    (ground arith, ground arith, ground arith, λ h. ground arith)

abbrev pub written : Wallet → WalletRow → WalletRow
written new w = record w {
  amount = new.balance.amount;
  version = new.version;
  updated_at = timestamptz new.updated_at;
}

-- An UPDATE that meets a row meets the one that a SELECT by its id finds, at the version asked for.
pub hit_row :
    (id : Text) (version : ℤ) (ls : List LedgerRow) (ws : List WalletRow)
    → Tied ls ws
    → count_where (wallet_at id version) ws ≢ 0
    → (r : WalletRow) × (find (λ x. text_eq x.id id) ws ≡ some r) × (r.version ≡ version)
hit_row id version ls [] t hit = absurd (hit refl)
hit_row id version ls (w ∷ ws) t hit = elim (Bool-cases (text_eq w.id id)) [
  | inl e ↦ (w, rw e refl, at (eqb_ℤ w.version version) refl e)
  | inr e ↦ let (r, found, v) = hit_row id version ls ws t.3 (rw e at hit) in (r, rw e found, v)
]
  where
    at : (b : Bool) → eqb_ℤ w.version version ≡ b → text_eq w.id id ≡ true → w.version ≡ version
    at true v e = eq_of_parts w.version version (ground arith)
    at false v e =
        let gone = subst (λ k. has_wallet k ws ≡ false) (text_eq→eq w.id id e) t.2 in
        absurd (hit (rw (e, v) (absent_count id version (λ r. r) ws gone)))

update_wallet-Ahead :
    (old new : Wallet) (n : ℕ) (db db' : Db)
    → new.id ≡ old.id
    → update_wallet new.balance.amount new.version new.updated_at new.id old.version db ≡ done n db'
    → n ≢ 0
    → Read old db.wallets db.ledger
    → AheadBy new.id (new.balance.amount -ℤ old.balance.amount) db'.wallets db'.ledger
update_wallet-Ahead old new n db db' i e hit (rec, read) =
    let (count, ws, ls, nonneg) = update_wallet_done _ _ _ new.id old.version db e in
    let (r, found, current) =
      hit_row new.id old.version db.ledger db.wallets rec.0 (λ z. hit (count ∙ z)) in
    let amount = read r (rw (sym i) found) current in
    rw (ws, ls, ← amount)
      (
        Ahead-of_update new.id old.version (written new) new.balance.amount r db.ledger db.wallets
            (λ w. refl) (λ w. refl) (nonneg hit) found (λ z. hit (count ∙ z)) rec.0,
        Known-update new.id old.version (written new) (λ w. refl) db.wallets db.ledger rec.1,
      )

-- What the insertion of an entry did, if it went through.
pub insert_ledger_done :
    (l : LedgerRow) (db : Db) {v : Unit {0}} {db' : Db}
    → insert_ledger l db ≡ done v db'
    → (ledger_row_ok l ≡ true)
      × (has_wallet l.wallet_id db.wallets ≡ true)
      × (db'.wallets ≡ db.wallets)
      × (db'.ledger ≡ l ∷ db.ledger)
unfolding insert_ledger
insert_ledger_done l db e =
    let (_, valid, _, linked, same) = checked_done _ _ _ _ _ e in
    (ground arith, ground arith, ap (λ d. d.wallets) same, ap (λ d. d.ledger) same)

insert_ledger-Reconciled :
    (l : LedgerRow) (db db' : Db) (v : Unit {0})
    → insert_ledger l db ≡ done v db'
    → AheadBy l.wallet_id (l.balance_after -ℤ l.balance_before) db.wallets db.ledger
    → Reconciled db'.wallets db'.ledger
insert_ledger-Reconciled l db db' v e (ahead, known) =
    let (valid, linked, ws, ls) = insert_ledger_done l db e in
    rw (ws, ls)
      (Tied-of_Ahead l db.ledger db.wallets (rw (signed_of_ok l valid) ahead), (linked, known))

pub save_ledger_entry-Safe :
    (e : LedgerEntry)
    → Safe Reconciled
        (AheadBy e.wallet_id (e.balance_after -ℤ e.balance_before))
        (save_ledger_entry e)
unfolding save_ledger_entry
save_ledger_entry-Safe e = bind-Safe time_now-Quiet λ now _. record {
  runs = λ env s k.
      statement_cases (insert_ledger (ledger_row e now)) env s (Good Reconciled) (λ _ _ _. tt)
        (λ v u eq. insert_ledger-Reconciled (ledger_row e now) s.db u.db v eq k);
}

-- The two writes of `move_balance`, in order.
module _ (old new : Wallet) (i : new.id ≡ old.id) where
  update_at :
      (n : ℕ) (u : Session) (b : Bool)
      → (n == 0) ≡ b
      → (n ≢ 0 → Holds (AheadBy new.id (new.balance.amount -ℤ old.balance.amount)) u)
      → Good
          (AheadBy new.id (new.balance.amount -ℤ old.balance.amount))
          (fail_if (n == 0) wallet_row_not_found, u)
  update_at n u true e k = rw e tt
  update_at n u false e k = rw e (k (ground arith))

  pub update-Safe :
      Safe
        (AheadBy new.id (new.balance.amount -ℤ old.balance.amount))
        (Read old)
        (update new old.version)
  unfolding update
  update-Safe = record {
    runs = λ env s k.
        statement_cases
          (update_wallet new.balance.amount new.version new.updated_at new.id old.version) env s
          (λ q.
            Good (AheadBy new.id (new.balance.amount -ℤ old.balance.amount))
              (◌>>=◌ (λ e u. q) (λ n. lift (fail_if (n == 0) wallet_row_not_found)) env s))
          (λ _ _ _. tt)
          (λ n u eq.
            update_at n u (n == 0) refl
              (λ hit. update_wallet-Ahead old new n s.db u.db i eq hit k));
  }
