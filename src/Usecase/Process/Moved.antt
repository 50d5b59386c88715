-- ===== src/Usecase/Process/Moved.antt =====
-- How much money a request moves, of which wallet, and how often.
use jungle_gaming_challenge.Base.{
  ℕ, ◌≡◌, ◌≢◌, refl, sym, ap, subst, ◌∙◌, arith, Bool, true, false, List, ◌∷◌, some, ◌⊎◌, inr, ◌==◌,
}
use jungle_gaming_challenge.Base.Text.{Text, text_eq, text_eq→eq}
use jungle_gaming_challenge.Base.Int.{ℤ, pos, ◌+ℤ◌, ◌-ℤ◌, eqb_ℤ, +ℤ_parts, -ℤ_parts, eq_of_parts}
use jungle_gaming_challenge.Errors.{fail_if, wallet_row_not_found}
use jungle_gaming_challenge.Domain.Money.{Money}
use jungle_gaming_challenge.Domain.Wallet.{Wallet}
use jungle_gaming_challenge.Domain.Wager.{WagerTransaction}
use jungle_gaming_challenge.Store.{
  WalletRow, LedgerRow, Db, Direction, debit_entry, credit_entry, no_direction, Session, ◌>>=◌,
  lift, done,
}
use jungle_gaming_challenge.Store.Insert.{insert_ledger, ledger_row_ok}
use jungle_gaming_challenge.Store.Update.{find, update_where, count_where, wallet_at, update_wallet}
use jungle_gaming_challenge.Store.Found.{find-update_where, find_other-update_where}
use jungle_gaming_challenge.Store.Rules.{statement_cases, time_now-Quiet}
use jungle_gaming_challenge.Store.Invariant.{Money2, Safe, Good, bind-Safe, seq-Safe}
use jungle_gaming_challenge.Repository.Wallet.{update}
use jungle_gaming_challenge.Repository.Transaction.{ledger_row, save_ledger_entry}
use jungle_gaming_challenge.Repository.Reconciled.{Tied}
use jungle_gaming_challenge.Repository.Reconciled.Move.{
  hit_row, update_wallet_done, insert_ledger_done, written,
}
use jungle_gaming_challenge.Repository.Reconciled.Reading.{RowOf, find_sound}
use jungle_gaming_challenge.Usecase.Process.{ledger_entry, move_balance}
use jungle_gaming_challenge.Usecase.Process.Writes.{Moves}

-- what an entry of this direction adds to a balance
abbrev pub change : Direction → ℤ → ℤ
change credit_entry a = a
change debit_entry a = pos 0 -ℤ a
change no_direction a = pos 0

-- One new entry, and the wallet of the id with the balance that it makes; all other wallets are as they
-- were.
pub record MovedBy (d : Direction) (amount : ℤ) (id : Text) (ws : List WalletRow)
    (ls : List LedgerRow) (ws' : List WalletRow) (ls' : List LedgerRow) : Type 0 where
  pub entry : LedgerRow
  pub before : WalletRow
  pub after : WalletRow
  pub recorded : ls' ≡ entry ∷ ls
  pub of_wallet : entry.wallet_id ≡ id
  pub directed : entry.direction ≡ d
  pub of_amount : entry.amount ≡ amount
  pub was : find (λ x. text_eq x.id id) ws ≡ some before
  pub is : find (λ x. text_eq x.id id) ws' ≡ some after
  pub moved : after.amount ≡ before.amount +ℤ change d amount
  pub others :
      (k : Text)
      → text_eq id k ≡ false
      → find (λ x. text_eq x.id k) ws' ≡ find (λ x. text_eq x.id k) ws

-- An entry that the CHECKs let in is right about the balance behind it.
balance_after_ok :
    (l : LedgerRow)
    → ledger_row_ok l ≡ true
    → l.balance_after ≡ l.balance_before +ℤ change l.direction l.amount
unfolding ledger_row_ok
balance_after_ok l h = at l.direction refl
  where
    at :
        (d : Direction)
        → l.direction ≡ d
        → l.balance_after ≡ l.balance_before +ℤ change l.direction l.amount
    at credit_entry e = ground (
      arith,
      +ℤ_parts l.balance_before l.amount,
      eq_of_parts l.balance_after (l.balance_before +ℤ l.amount),
    )
    at debit_entry e = ground (
      arith,
      -ℤ_parts (pos 0) l.amount,
      -ℤ_parts l.balance_before l.amount,
      +ℤ_parts l.balance_before (pos 0 -ℤ l.amount),
      eq_of_parts l.balance_after (l.balance_before +ℤ (pos 0 -ℤ l.amount)),
    )
    at no_direction e = ground arith

-- a row that has the version asked for
same_version : (a b : ℤ) → a ≡ b → eqb_ℤ a b ≡ true
same_version a b e = ground (arith, eq_of_parts a b)

module _ (ws : List WalletRow) (ls : List LedgerRow) (tied : Tied ls ws) where
  abbrev pub Frozen : Money2
  Frozen ws' ls' = (ws' ≡ ws) × (ls' ≡ ls)

  module _ (w new : Wallet) (i : new.id ≡ w.id) where
    -- the wallet is written and its entry is still to come
    abbrev Between : Money2
    Between ws' ls' =
        (ws' ≡ update_where (wallet_at new.id w.version) (written new) ws)
        × (ls' ≡ ls)
        × (count_where (wallet_at new.id w.version) ws ≢ 0)
        × RowOf w ws

    between_at :
        (n : ℕ) (u : Session) (b : Bool)
        → (n == 0) ≡ b
        → (n ≢ 0 → Between u.db.wallets u.db.ledger)
        → Good Between (fail_if (n == 0) wallet_row_not_found, u)
    between_at n u true e k = rw e tt
    between_at n u false e k = rw e (k (ground arith))

    update-Between : Safe Between (λ ws' ls'. Frozen ws' ls' × RowOf w ws') (update new w.version)
    unfolding update
    update-Between = record {
      runs = λ env s k.
          statement_cases
            (update_wallet new.balance.amount new.version new.updated_at new.id w.version) env s
            (λ q.
              Good Between
                (◌>>=◌ (λ e u. q) (λ n. lift (fail_if (n == 0) wallet_row_not_found)) env s))
            (λ _ _ _. tt)
            (λ n u eq.
              let (count, wallets, ledger, _) = update_wallet_done _ _ _ new.id w.version s.db eq in
              between_at n u (n == 0) refl λ hit. (
                wallets ∙ ap (update_where (wallet_at new.id w.version) (written new)) k.0.0,
                ledger ∙ k.0.1,
                (λ z. hit (count ∙ (ap (count_where (wallet_at new.id w.version)) k.0.0 ∙ z))),
                subst (RowOf w) k.0.0 k.1,
              ));
    }

    entry_moved :
        (t : WagerTransaction) (d : Direction) (now : ℕ) (db db' : Db) {v : Unit {0}}
        → insert_ledger (ledger_row (ledger_entry t w new d) now) db ≡ done v db'
        → Between db.wallets db.ledger
        → MovedBy d t.money.amount w.id ws ls db'.wallets db'.ledger
    entry_moved t d now db db' e (wallets, ledger, hit, (r, found, amount)) =
        let entry = ledger_row (ledger_entry t w new d) now in
        let (valid, linked, kept, recorded) = insert_ledger_done entry db e in
        let (q, found', version) = hit_row new.id w.version ls ws tied hit in
        let at_new : find (λ x. text_eq x.id new.id) ws ≡ some r = rw i found in
        let same : q ≡ r = cc (sym found' ∙ at_new) in
        let here : text_eq r.id new.id ≡ true = find_sound (λ x. text_eq x.id new.id) ws at_new in
        let current : r.version ≡ w.version = rw (← same) version in
        let rewritten : wallet_at new.id w.version r ≡ true =
          rw (here, same_version r.version w.version current) refl in
        let after =
          find-update_where new.id (wallet_at new.id w.version) (written new) (λ x. refl) ws
            at_new in
        record {
          entry = entry;
          before = r;
          after = written new r;
          recorded = recorded ∙ ap (λ l. entry ∷ l) ledger;
          of_wallet = i;
          directed = refl;
          of_amount = refl;
          was = found;
          is = rw (kept, wallets, ← i) (after ∙ rw rewritten refl);
          moved = rw amount (balance_after_ok entry valid);
          others = λ k apart.
              rw (kept, wallets)
                (find_other-update_where k (wallet_at new.id w.version) (written new) (λ x. refl)
                  (λ x h. rw (text_eq→eq x.id new.id (ground arith), i) apart) ws);
        }

  -- Nothing is changed, or all of a movement is there.
  abbrev pub AtMostOnce : Direction → ℤ → Text → Money2
  AtMostOnce d amount id ws' ls' = Frozen ws' ls' ⊎ MovedBy d amount id ws ls ws' ls'

  save-AtMostOnce :
      (t : WagerTransaction) (w new : Wallet) (d : Direction) (i : new.id ≡ w.id)
      → Safe
          (AtMostOnce d t.money.amount w.id)
          (Between w new i)
          (save_ledger_entry (ledger_entry t w new d))
  unfolding save_ledger_entry
  save-AtMostOnce t w new d i = bind-Safe time_now-Quiet λ now _. record {
    runs = λ env s k.
        statement_cases (insert_ledger (ledger_row (ledger_entry t w new d) now)) env s
          (Good (AtMostOnce d t.money.amount w.id)) (λ _ _ _. tt)
          (λ v u eq. inr (entry_moved w new i t d now s.db u.db eq k));
  }

  pub exact-Moves :
      (d : Direction) (m : Money) (w : Wallet)
      → Moves (AtMostOnce d m.amount w.id) (λ ws' ls'. Frozen ws' ls' × RowOf w ws') d m w
  unfolding move_balance
  exact-Moves d m w t new same i =
      subst
        (λ x.
          Safe (AtMostOnce d x.amount w.id) (λ ws' ls'. Frozen ws' ls' × RowOf w ws')
            (move_balance t w new d))
        same (seq-Safe (update-Between w new i) (λ _. save-AtMostOnce t w new d i))
