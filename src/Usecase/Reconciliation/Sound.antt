-- ===== src/Usecase/Reconciliation/Sound.antt =====
-- What `ReconciliationUsecase.Execute` reports, against the exact sums of the ledger.
use jungle_gaming_challenge.Base.{
  ℕ, suc, ◌≡◌, refl, ap, ◌∙◌, ◌↔◌, true, false, [], some, arith, ◌-◌, ◌^◌,
}
use jungle_gaming_challenge.Base.Text.{Text}
use jungle_gaming_challenge.Base.Int.{
  ℤ, pos, negsuc, ◌-ℤ◌, ◌≤ℤ◌, eqb_ℤ, int_laws, sub64, wrap64, sub64_exact, IsInt64, max_int64,
  pos_part, neg_part,
}
use jungle_gaming_challenge.Errors.{ok}
use jungle_gaming_challenge.Domain.Money.{to_text, new_internal_money}
use jungle_gaming_challenge.Domain.Wallet.{Wallet}
use jungle_gaming_challenge.Store.{WalletRow, Db, Env, Session, Tx, ◌>>=◌, pure, lift, pool_query}
use jungle_gaming_challenge.Store.Update.{select_wallet}
use jungle_gaming_challenge.Repository.Wallet.{
  find_by_id, calculate_ledger_balance, total_credits, total_debits, count_entries, wallet_of_row,
  scan_wallet, scan_ledger_balance,
}
use jungle_gaming_challenge.Repository.Reconciled.{ledger_balance}
use jungle_gaming_challenge.Usecase.Reconciliation.{ReconciliationOutput, report, reconcile}

-- A difference that wraps to zero is zero, when it is less than 2 ^ 64 away from it.
wrap64_zero :
    (a : ℤ)
    → negsuc (2 ^ 64 - 2) ≤ℤ a
    → a ≤ℤ pos (2 ^ 64 - 1)
    → eqb_ℤ (wrap64 a) (pos 0) ≡ true
    → a ≡ pos 0
unfolding wrap64
wrap64_zero (pos n) h k e = ground arith
wrap64_zero (negsuc n) h k e = ground arith

equal_of_zero : (a b : ℤ) → a -ℤ b ≡ pos 0 → a ≡ b
equal_of_zero a b e = omega (int_laws, ap pos_part e, ap neg_part e)

sub64_zero : (a b : ℤ) → IsInt64 a → IsInt64 b → eqb_ℤ (sub64 a b) (pos 0) ≡ true → a ≡ b
unfolding sub64
sub64_zero a b h k e = equal_of_zero a b (wrap64_zero (a -ℤ b) (omega int_laws) (omega int_laws) e)

self_zero : (a : ℤ) → a -ℤ a ≡ pos 0
self_zero a = omega int_laws

sub64_self : (a : ℤ) → eqb_ℤ (sub64 a a) (pos 0) ≡ true
sub64_self a = rw (sub64_exact a a (rw (self_zero a) (ground arith)), self_zero a) refl

IsInt64-of_difference :
    (c d : ℤ) → pos 0 ≤ℤ c → c ≤ℤ max_int64 → pos 0 ≤ℤ d → d ≤ℤ max_int64 → IsInt64 (c -ℤ d)
IsInt64-of_difference c d c0 c1 d0 d1 = (omega int_laws, omega int_laws)

-- Both columns fit their variables.
scanned :
    (c d : ℤ) (n : ℕ)
    → pos 0 ≤ℤ c
    → c ≤ℤ max_int64
    → pos 0 ≤ℤ d
    → d ≤ℤ max_int64
    → scan_ledger_balance (c, d, n) ≡ ok (c -ℤ d, n)
scanned c d n c0 c1 d0 d1 =
    let exact = sub64_exact c d (IsInt64-of_difference c d c0 c1 d0 d1) in ground arith

bind_run :
    {A B : Type 0} (m : Tx A) (f : A → Tx B) (env : Env) (s u : Session) (a : A)
    → m env s ≡ (ok a, u)
    → ◌>>=◌ m f env s ≡ f a env u
bind_run m f env s u a e = ap (λ p. ◌>>=◌ (λ _ _. p) f env s) e

-- the session after a query
abbrev next : Session → Session
next s = record s { exchanges = suc s.exchanges }

pool_query_run :
    {A : Type 0} (f : Db → A) (env : Env) (s : Session)
    → env.fails s.exchanges ≡ false
    → pool_query f env s ≡ (ok (f s.db), record s { exchanges = suc s.exchanges })
unfolding pool_query
pool_query_run f env s e = rw e refl

find_by_id_run :
    (id : Text) (env : Env) (s : Session) (r : WalletRow) (w : Wallet)
    → env.fails s.exchanges ≡ false
    → select_wallet id s.db ≡ some r
    → wallet_of_row r ≡ ok w
    → find_by_id id env s ≡ (ok w, record s { exchanges = suc s.exchanges })
unfolding find_by_id
find_by_id_run id env s r w e found read =
    bind_run (pool_query (select_wallet id)) (λ row. lift (scan_wallet row)) env s (next s) _
      (pool_query_run (select_wallet id) env s e)
    ∙ (rw (found, read) refl)

abbrev columns : Text → Db → ℤ × ℤ × ℕ
columns id db = (total_credits id db.ledger, total_debits id db.ledger, count_entries id db.ledger)

calculate_run :
    (id : Text) (env : Env) (s : Session) (total : ℤ × ℕ)
    → env.fails s.exchanges ≡ false
    → scan_ledger_balance (columns id s.db) ≡ ok total
    → calculate_ledger_balance id env s ≡ (ok total, next s)
unfolding calculate_ledger_balance
calculate_run id env s total e sums =
    bind_run (pool_query (columns id)) (λ row. lift (scan_ledger_balance row)) env s (next s) _
      (pool_query_run (columns id) env s e)
    ∙ (rw sums refl)

reconcile_run :
    (id : Text) (env : Env) (s : Session) (w : Wallet) (total : ℤ × ℕ)
    → find_by_id id env s ≡ (ok w, next s)
    → calculate_ledger_balance id env (next s) ≡ (ok total, next (next s))
    → reconcile id env s ≡ (ok (report id w total), next (next s))
unfolding reconcile
reconcile_run id env s w total e e' =
    bind_run (find_by_id id) (λ v. calculate_ledger_balance id >>= (λ l. pure (report id v l))) env
      s (next s) w e
    ∙ bind_run (calculate_ledger_balance id) (λ l. pure (report id w l)) env (next s)
        (next (next s)) total e'

-- What a report has to say of a wallet, given the balance of its ledger and the number of its entries.
abbrev pub IsReport : Text → Wallet → ℤ → ℕ → ReconciliationOutput → Type 0
IsReport wallet_id w balance entries found =
    (found.wallet_id ≡ wallet_id)
    × (found.currency ≡ w.balance.currency)
    × (found.stored_balance ≡ to_text (record { amount = w.balance.amount; currency = [] }))
    × (found.calculated_balance ≡ to_text (record { amount = balance; currency = [] }))
    × (found.difference
        ≡ to_text (record { amount = wrap64 (w.balance.amount -ℤ balance); currency = [] }))
    × (found.checked_entries ≡ entries)
    × (found.consistent ≡ true ↔ w.balance.amount ≡ balance)

-- Reconciling a wallet whose row reads back as a wallet, with no failing query, the stored amount in
-- `int64` and the sums of credits and of debits between zero and the largest `int64`, gives a report: it
-- prints the stored balance, the exact balance of the ledger, and their difference in 64 bits; it has the
-- number of entries; and it says that they are consistent exactly when the two balances are equal.
pub reconcile-exact :
    (wallet_id : Text) (env : Env) (s : Session) (r : WalletRow) (w : Wallet)
    → env.fails s.exchanges ≡ false
    → env.fails (suc s.exchanges) ≡ false
    → select_wallet wallet_id s.db ≡ some r
    → wallet_of_row r ≡ ok w
    → IsInt64 w.balance.amount
    → pos 0 ≤ℤ total_credits wallet_id s.db.ledger
    → total_credits wallet_id s.db.ledger ≤ℤ max_int64
    → pos 0 ≤ℤ total_debits wallet_id s.db.ledger
    → total_debits wallet_id s.db.ledger ≤ℤ max_int64
    → (found : ReconciliationOutput) × ((reconcile wallet_id env s).0 ≡ ok found)
      × IsReport wallet_id w
          (ledger_balance wallet_id s.db.ledger)
          (count_entries wallet_id s.db.ledger)
          found
unfolding to_text sub64 new_internal_money
reconcile-exact wallet_id env s r w f0 f1 found read fits c0 c1 d0 d1 = (
  report wallet_id w (ledger_balance wallet_id s.db.ledger, count_entries wallet_id s.db.ledger),
  ap (λ p. p.0)
      (reconcile_run wallet_id env s w _ (find_by_id_run wallet_id env s r w f0 found read)
        (calculate_run wallet_id env (next s) _ f1 (scanned _ _ _ c0 c1 d0 d1))),
  (
    refl,
    refl,
    refl,
    refl,
    refl,
    refl,
    (
      sub64_zero w.balance.amount _ fits (IsInt64-of_difference _ _ c0 c1 d0 d1),
      λ e. rw e (sub64_self _),
    ),
  ),
)
