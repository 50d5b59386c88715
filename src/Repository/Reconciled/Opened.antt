-- ===== src/Repository/Reconciled/Opened.antt =====
-- `WalletRepository.Save`: a new wallet is ahead of its ledger by its opening balance.
use jungle_gaming_challenge.Base.{
  ◌≡◌, refl, ◌∙◌, ap, Bool, true, false, List, [], ◌∷◌, arith, Bool-cases, inl, inr, if◌then◌else◌,
}
use jungle_gaming_challenge.Base.Text.{Text, text_eq, text_eq→eq, text_eq_self}
use jungle_gaming_challenge.Base.Int.{ℤ, pos, ◌+ℤ◌, ◌-ℤ◌, ◌≤ℤ◌, int_laws}
use jungle_gaming_challenge.Domain.Wallet.{Wallet}
use jungle_gaming_challenge.Store.{Db, WalletRow, LedgerRow, done}
use jungle_gaming_challenge.Store.Insert.{
  any, has_wallet, same_wallet_key, insert_wallet, checked_done,
}
use jungle_gaming_challenge.Store.Rules.{statement_cases}
use jungle_gaming_challenge.Store.Invariant.{Safe, Good}
use jungle_gaming_challenge.Repository.Wallet.{
  save, wallet_row, sum_where, credit_amount, debit_amount,
}
use jungle_gaming_challenge.Repository.Reconciled.{
  ledger_balance, Tied, Known, Reconciled, Ahead, Ahead-of_absent,
}
use jungle_gaming_challenge.Repository.Reconciled.Move.{AheadBy}

module _ (id : Text) (ws : List WalletRow) (gone : has_wallet id ws ≡ false) where
  other : (k : Text) → has_wallet k ws ≡ true → text_eq k id ≡ false
  other k h = elim (Bool-cases (text_eq k id)) [
    | inl e ↦ absurd (cc (h, gone, text_eq→eq k id e))
    | inr e ↦ e
  ]

  sum_of_absent :
      (f : LedgerRow → ℤ) (ls : List LedgerRow) → Known ws ls → sum_where id f ls ≡ pos 0
  sum_of_absent f [] h = refl
  sum_of_absent f (l ∷ ls) h = rw (other l.wallet_id h.0, sum_of_absent f ls h.1) (omega int_laws)

  -- A wallet that does not exist has nothing in the ledger.
  balance_of_absent : (ls : List LedgerRow) → Known ws ls → ledger_balance id ls ≡ pos 0
  balance_of_absent ls h =
      rw (sum_of_absent credit_amount ls h, sum_of_absent debit_amount ls h) (omega int_laws)

Known-weaken :
    (r : WalletRow) (ws : List WalletRow) (ls : List LedgerRow) → Known ws ls → Known (r ∷ ws) ls
Known-weaken r ws [] h = tt
Known-weaken r ws (l ∷ ls) h = (ground (arith, h.0), Known-weaken r ws ls h.1)

absent_of_key :
    (r : WalletRow) (ws : List WalletRow)
    → any (same_wallet_key r) ws ≡ false
    → has_wallet r.id ws ≡ false
absent_of_key r [] h = refl
absent_of_key r (w ∷ ws) h = ground (arith, absent_of_key r ws)

opening_sum : {a b : ℤ} → b ≡ pos 0 → a ≡ b +ℤ (a -ℤ pos 0)
opening_sum {a} {b} e = rw e (omega int_laws)

opened :
    (r : WalletRow) (ws : List WalletRow) (ls : List LedgerRow)
    → any (same_wallet_key r) ws ≡ false
    → pos 0 ≤ℤ r.amount
    → Reconciled ws ls
    → AheadBy r.id (r.amount -ℤ pos 0) (r ∷ ws) ls
opened r ws ls fresh nonneg (tied, known) =
    let gone = absent_of_key r ws fresh in
    (
      rw (text_eq_self r.id) (
        opening_sum (balance_of_absent r.id ws gone ls known),
        nonneg,
        gone,
        Ahead-of_absent r.id (r.amount -ℤ pos 0) ls ws gone tied,
      ),
      Known-weaken r ws ls known,
    )

-- What the insertion of a wallet did, if it went through.
insert_wallet_done :
    (r : WalletRow) (db : Db) {v : Unit {0}} {db' : Db}
    → insert_wallet r db ≡ done v db'
    → (any (same_wallet_key r) db.wallets ≡ false)
      × (pos 0 ≤ℤ r.amount)
      × (db'.wallets ≡ r ∷ db.wallets)
      × (db'.ledger ≡ db.ledger)
unfolding insert_wallet
insert_wallet_done r db e =
    let (_, valid, fresh, _, same) =
      checked_done _ _ _ false (record db { wallets = r ∷ db.wallets }) e in
    (fresh, ground arith, ap (λ d. d.wallets) same, ap (λ d. d.ledger) same)

pub save-Safe : (w : Wallet) → Safe (AheadBy w.id (w.balance.amount -ℤ pos 0)) Reconciled (save w)
unfolding save
save-Safe w = record {
  runs = λ env s k.
      statement_cases (insert_wallet (wallet_row w)) env s
        (Good (AheadBy w.id (w.balance.amount -ℤ pos 0))) (λ _ _ _. tt)
        (λ v u e.
          let (fresh, nonneg, ws, ls) = insert_wallet_done (wallet_row w) s.db e in
          rw (ls, ws) (opened (wallet_row w) s.db.wallets s.db.ledger fresh nonneg k));
}

Tied-of_level :
    (id : Text) (d : ℤ) (ls : List LedgerRow) (ws : List WalletRow)
    → d ≡ pos 0
    → Ahead id d ls ws
    → Tied ls ws
Tied-of_level id d ls [] e h = tt
Tied-of_level id d ls (w ∷ ws) e h =
    (level (text_eq id w.id) h.0, h.1, h.2, Tied-of_level id d ls ws e h.3)
  where
    level :
        (b : Bool)
        → w.amount ≡ ledger_balance w.id ls +ℤ (if b then d else pos 0)
        → w.amount ≡ ledger_balance w.id ls
    level true q = q ∙ (rw e (omega int_laws))
    level false q = q ∙ (omega int_laws)

-- A wallet that opens with nothing needs no entry.
pub Reconciled-of_level :
    (id : Text) (d : ℤ) (ws : List WalletRow) (ls : List LedgerRow)
    → d ≡ pos 0
    → AheadBy id d ws ls
    → Reconciled ws ls
Reconciled-of_level id d ws ls e (ahead, known) = (Tied-of_level id d ls ws e ahead, known)
