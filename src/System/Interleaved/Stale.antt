-- ===== src/System/Interleaved/Stale.antt =====
-- A request whose wallet has been written by another in the meantime.
use jungle_gaming_challenge.Base.{
  ℕ, ◌≡◌, ◌≢◌, refl, sym, ◌∙◌, arith, Bool, true, false, List, Option, some, ◌==◌,
}
use jungle_gaming_challenge.Base.Text.{text_eq}
use jungle_gaming_challenge.Base.Int.{ltb_ℤ}
use jungle_gaming_challenge.Errors.{fail_if, wallet_row_not_found}
use jungle_gaming_challenge.Domain.Wager.{WagerTransaction}
use jungle_gaming_challenge.Domain.Money.{Money}
use jungle_gaming_challenge.Domain.Wallet.{Wallet}
use jungle_gaming_challenge.Store.{
  Direction, credit_entry, WalletRow, LedgerRow, Env, Session, Tx, ◌>>=◌, lift,
}
use jungle_gaming_challenge.Store.Update.{find, count_where, wallet_at, update_wallet}
use jungle_gaming_challenge.Store.Rules.{Any, SameMoney, statement_cases}
use jungle_gaming_challenge.Store.Invariant.{
  Money2, Safe, Good, bind-Safe, seq-Safe, execute_in_transaction-keeps,
}
use jungle_gaming_challenge.Repository.Wallet.{update}
use jungle_gaming_challenge.Repository.Transaction.{save_ledger_entry}
use jungle_gaming_challenge.Repository.Reconciled.{Reconciled, Tied}
use jungle_gaming_challenge.Repository.Reconciled.Move.{hit_row, update_wallet_done}
use jungle_gaming_challenge.Usecase.Wager.{InboxClaim, InputTransaction}
use jungle_gaming_challenge.Usecase.Process.{ledger_entry, move_balance}
use jungle_gaming_challenge.Usecase.Process.Writes.{Moves}
use jungle_gaming_challenge.Usecase.Process.OnWallet.{direction_of}
use jungle_gaming_challenge.Usecase.Process.Conserves.{process_locked-Safe}
use jungle_gaming_challenge.Usecase.Resolve.Sound.{credit_locked-Safe}
use jungle_gaming_challenge.System.Interleaved.{process_held, credit_held}
use jungle_gaming_challenge.System.Interleaved.Balance.{claim_inbox-Quiet}

-- the wallet's row has a later version than the one that was read
abbrev pub IsBehind : Wallet → List WalletRow → Type 0
IsBehind w ws =
    (r : WalletRow) × (find (λ x. text_eq x.id w.id) ws ≡ some r)
    × (ltb_ℤ w.version r.version ≡ true)

-- These wallets and this ledger, and no others.
abbrev Frozen : List WalletRow → List LedgerRow → Money2
Frozen ws ls ws' ls' = (ws' ≡ ws) × (ls' ≡ ls)

module _ (w : Wallet) (ws : List WalletRow) (ls : List LedgerRow) (tied : Tied ls ws)
    (behind : IsBehind w ws) where
  -- No row has the version that was read.
  no_hit :
      (new : Wallet)
      → new.id ≡ w.id
      → (n : ℕ) (now : List WalletRow) → now ≡ ws
      → n ≡ count_where (wallet_at new.id w.version) now
      → n ≢ 0
      → ⊥
  no_hit new i n now same count hit =
      let (r, found, later) = behind in
      let (row, here, current) =
        hit_row new.id w.version ls ws tied (λ z. hit (rw same at count ∙ z)) in
      let again : find (λ x. text_eq x.id w.id) ws ≡ some row = rw (sym i) here in
      let one : r ≡ row = cc (sym found ∙ again) in
      let equal : r.version ≡ w.version = rw one current in ground arith

  fails_at :
      (n : ℕ) (u : Session) (b : Bool)
      → (n == 0) ≡ b
      → (n ≢ 0 → ⊥)
      → Good (λ _ _. ⊥) (fail_if (n == 0) wallet_row_not_found, u)
  fails_at n u true e k = rw e tt
  fails_at n u false e k = rw e (k (ground arith))

  -- The update of the wallet fails, so that nothing follows it.
  update-Refused :
      (new : Wallet) → new.id ≡ w.id → Safe (λ _ _. ⊥) (Frozen ws ls) (update new w.version)
  unfolding update
  update-Refused new i = record {
    runs = λ env s k.
        statement_cases
          (update_wallet new.balance.amount new.version new.updated_at new.id w.version) env s
          (λ q.
            Good (λ _ _. ⊥)
              (◌>>=◌ (λ e u. q) (λ n. lift (fail_if (n == 0) wallet_row_not_found)) env s))
          (λ _ _ _. tt)
          (λ n u eq.
            fails_at n u (n == 0) refl
              (no_hit new i n s.db.wallets k.0 (update_wallet_done _ _ _ _ _ s.db eq).0));
  }

  never : {A : Type 0} {I : Money2} (m : Tx A) → Safe I (λ _ _. ⊥) m
  never m = record { runs = λ env s k. absurd k }

  stale-Moves : (d : Direction) (m : Money) → Moves (Frozen ws ls) (Frozen ws ls) d m w
  unfolding move_balance
  stale-Moves d m t new same i =
      seq-Safe (update-Refused new i) (λ _. never (save_ledger_entry (ledger_entry t w new d)))

-- Optimistic locking: when another request has written the wallet since it was read, neither the
-- transaction of a wager nor that of a pending transaction changes a wallet or the ledger, whatever the
-- kind of the wager and wherever it fails.
pub stale-SameMoney :
    (w : Wallet) (s : Session) (env : Env) (input : InputTransaction) (t p : WagerTransaction)
    (inbox : Option InboxClaim)
    → Reconciled s.db.wallets s.db.ledger
    → IsBehind w s.db.wallets
    → SameMoney s (process_held input t inbox w env s).1 × SameMoney s (credit_held p w env s).1
unfolding process_held credit_held
stale-SameMoney w s env input t p inbox balanced behind =
    let moves : (d : Direction) (m : Money)
        → Moves (Frozen s.db.wallets s.db.ledger) (Frozen s.db.wallets s.db.ledger) d m w =
      λ d m. stale-Moves w s.db.wallets s.db.ledger balanced.0 behind d m in
    let Same = Frozen s.db.wallets s.db.ledger in
    (
      execute_in_transaction-keeps Same Same _ env s
          (bind-Safe {R = Any} (claim_inbox-Quiet inbox) (λ _ _.
            process_locked-Safe w (λ ws ls k. k) input t (moves (direction_of t.kind) t.money)))
          (refl, refl) (refl, refl),
      execute_in_transaction-keeps Same Same _ env s
          (credit_locked-Safe p w (moves credit_entry p.money)) (refl, refl) (refl, refl),
    )
