-- ===== src/Repository/Reconciled.antt =====
-- The invariant that ties the wallets to the ledger: every stored balance is what the wallet's ledger
-- entries add up to. `Move` is about the write of a
-- wallet with its entry, `Opened` about a new wallet, `Reading` about the SELECT before a write.
pub mod Move
pub mod Opened
pub mod Reading
use jungle_gaming_challenge.Base.{
  ℕ, zero, suc, ◌≡◌, ◌≢◌, refl, sym, ap, subst, ◌∙◌, Bool, true, false, ◌&&◌, ◌||◌, List, [], ◌∷◌,
  Option, none, some, arith, All, Bool-cases, inl, inr, if◌then◌else◌,
}
use jungle_gaming_challenge.Base.Text.{Text, text_eq, text_eq→eq, text_eq_self, text_eq_comm}
use jungle_gaming_challenge.Base.Int.{
  ℤ, pos, ◌+ℤ◌, ◌-ℤ◌, ◌≤ℤ◌, eqb_ℤ, int_laws, +ℤ_parts, -ℤ_parts, eq_of_parts,
}
use jungle_gaming_challenge.Store.{
  WalletRow, LedgerRow, Direction, debit_entry, credit_entry, no_direction,
}
use jungle_gaming_challenge.Store.Insert.{any, has_wallet, ledger_row_ok}
use jungle_gaming_challenge.Store.Update.{find, update_where, count_where, wallet_at}
use jungle_gaming_challenge.Repository.Wallet.{
  total_credits, total_debits, sum_where, credit_amount, debit_amount,
}

-- credits less debits
abbrev pub ledger_balance : Text → List LedgerRow → ℤ
ledger_balance id ls = total_credits id ls -ℤ total_debits id ls

-- Every wallet has its ledger balance, which is not negative, and no id is used twice.
abbrev pub Tied : List LedgerRow → List WalletRow → Type 0
Tied ls [] = Unit
Tied ls (w ∷ ws) =
    (w.amount ≡ ledger_balance w.id ls)
    × (pos 0 ≤ℤ w.amount)
    × (has_wallet w.id ws ≡ false)
    × Tied ls ws

-- Every ledger entry belongs to a wallet.
abbrev pub Known : List WalletRow → List LedgerRow → Type 0
Known ws = All (λ l. has_wallet l.wallet_id ws ≡ true)

abbrev pub Reconciled : List WalletRow → List LedgerRow → Type 0
Reconciled ws ls = Tied ls ws × Known ws ls

-- As `Tied`, but the wallet `id` is ahead of its ledger by `d`.
abbrev pub Ahead : Text → ℤ → List LedgerRow → List WalletRow → Type 0
Ahead id d ls [] = Unit
Ahead id d ls (w ∷ ws) =
    (w.amount ≡ ledger_balance w.id ls +ℤ (if text_eq id w.id then d else pos 0))
    × (pos 0 ≤ℤ w.amount)
    × (has_wallet w.id ws ≡ false)
    × Ahead id d ls ws

-- what an entry adds to the balance of its wallet
abbrev pub signed : LedgerRow → ℤ
signed l = credit_amount l -ℤ debit_amount l

-- a row that the CHECKs of the ledger let in
pub signed_of_ok :
    (l : LedgerRow) → ledger_row_ok l ≡ true → signed l ≡ l.balance_after -ℤ l.balance_before
unfolding ledger_row_ok
signed_of_ok l h = at l.direction refl
  where
    at : (d : Direction) → l.direction ≡ d → signed l ≡ l.balance_after -ℤ l.balance_before
    at credit_entry e = ground (
      arith,
      -ℤ_parts (credit_amount l) (debit_amount l),
      -ℤ_parts l.balance_after l.balance_before,
      +ℤ_parts l.balance_before l.amount,
      eq_of_parts (signed l) (l.balance_after -ℤ l.balance_before),
    )
    at debit_entry e = ground (
      arith,
      -ℤ_parts (credit_amount l) (debit_amount l),
      -ℤ_parts l.balance_after l.balance_before,
      -ℤ_parts l.balance_before l.amount,
      eq_of_parts (signed l) (l.balance_after -ℤ l.balance_before),
    )
    at no_direction e = ground arith

pub ledger_balance-cons :
    (id : Text) (l : LedgerRow) (ls : List LedgerRow)
    → ledger_balance id (l ∷ ls)
      ≡ ledger_balance id ls +ℤ (if text_eq l.wallet_id id then signed l else pos 0)
ledger_balance-cons id l ls = elim (Bool-cases (text_eq l.wallet_id id)) [
  | inl e ↦ rw e (omega int_laws)
  | inr e ↦ rw e (omega int_laws)
]

-- Inserting the entry that a wallet is ahead by ties it again.
pub Tied-of_Ahead :
    (l : LedgerRow) (ls : List LedgerRow) (ws : List WalletRow)
    → Ahead l.wallet_id (signed l) ls ws
    → Tied (l ∷ ls) ws
Tied-of_Ahead l ls [] h = tt
Tied-of_Ahead l ls (w ∷ ws) h =
    (h.0 ∙ sym (ledger_balance-cons w.id l ls), h.1, h.2, Tied-of_Ahead l ls ws h.3)

module _ (id : Text) (version : ℤ) (f : WalletRow → WalletRow) where
  absent_update :
      (ws : List WalletRow)
      → has_wallet id ws ≡ false
      → update_where (wallet_at id version) f ws ≡ ws
  absent_update [] h = refl
  absent_update (w ∷ ws) h = ground (arith, absent_update ws)

  pub absent_count :
      (ws : List WalletRow) → has_wallet id ws ≡ false → count_where (wallet_at id version) ws ≡ 0
  absent_count [] h = refl
  absent_count (w ∷ ws) h = ground (arith, absent_count ws)

  module _ (same : (w : WalletRow) → (f w).id ≡ w.id) where
    has_wallet-update :
        (k : Text) (ws : List WalletRow)
        → has_wallet k (update_where (wallet_at id version) f ws) ≡ has_wallet k ws
    has_wallet-update k [] = refl
    has_wallet-update k (w ∷ ws) = elim (Bool-cases (wallet_at id version w)) [
      | inl e ↦ rw (e, same w, has_wallet-update k ws)
      | inr e ↦ rw (e, has_wallet-update k ws)
    ]

    pub Known-update :
        (ws : List WalletRow) (ls : List LedgerRow)
        → Known ws ls
        → Known (update_where (wallet_at id version) f ws) ls
    Known-update ws [] h = tt
    Known-update ws (l ∷ ls) h = (has_wallet-update l.wallet_id ws ∙ h.0, Known-update ws ls h.1)

plus_zero : {a b : ℤ} → a ≡ b → a ≡ b +ℤ pos 0
plus_zero {a} {b} e = e ∙ (omega int_laws)

plus_difference : (a b : ℤ) → a ≡ b +ℤ (a -ℤ b)
plus_difference a b = omega int_laws

-- Without a wallet of the id nobody is ahead.
pub Ahead-of_absent :
    (id : Text) (d : ℤ) (ls : List LedgerRow) (ws : List WalletRow)
    → has_wallet id ws ≡ false
    → Tied ls ws
    → Ahead id d ls ws
Ahead-of_absent id d ls [] h t = tt
Ahead-of_absent id d ls (w ∷ ws) h t = elim (Bool-cases (text_eq w.id id)) [
  | inl e ↦ cc (e)
  | inr e ↦
      rw (text_eq_comm id w.id, e)
        (plus_zero t.0, t.1, t.2, Ahead-of_absent id d ls ws (rw e at h) t.3)
]

module _ (id : Text) (version : ℤ) (f : WalletRow → WalletRow) (amount : ℤ) where
  -- Writing an amount to the wallet that was read makes it ahead of its ledger by the change.
  pub Ahead-of_update :
      (r : WalletRow) (ls : List LedgerRow) (ws : List WalletRow)
      → ((w : WalletRow) → (f w).id ≡ w.id)
      → ((w : WalletRow) → (f w).amount ≡ amount)
      → pos 0 ≤ℤ amount
      → find (λ w. text_eq w.id id) ws ≡ some r
      → count_where (wallet_at id version) ws ≢ 0
      → Tied ls ws
      → Ahead id (amount -ℤ r.amount) ls (update_where (wallet_at id version) f ws)
  Ahead-of_update r ls [] same set nonneg found hit t = cc
  Ahead-of_update r ls (w ∷ ws) same set nonneg found hit t =
      split (text_eq w.id id) (eqb_ℤ w.version version) refl refl
        (λ fd ht. Ahead-of_update r ls ws same set nonneg fd ht t.3)
    where
      written :
          (i : w.id ≡ id)
          → r ≡ w
          → (f w).amount
            ≡ ledger_balance (f w).id ls
              +ℤ (if text_eq id (f w).id then amount -ℤ r.amount else pos 0)
      written i e = rw (set w, same w, e, t.0, i, text_eq_self id) (plus_difference amount _)

      split :
          (b c : Bool)
          → text_eq w.id id ≡ b
          → eqb_ℤ w.version version ≡ c
          → (find (λ x. text_eq x.id id) ws ≡ some r
              → count_where (wallet_at id version) ws ≢ 0
              → Ahead id (amount -ℤ r.amount) ls (update_where (wallet_at id version) f ws))
          → Ahead id (amount -ℤ r.amount) ls (update_where (wallet_at id version) f (w ∷ ws))
      split true true eb ec rest =
          let i = text_eq→eq w.id id eb in
          let gone = subst (λ k. has_wallet k ws ≡ false) i t.2 in
          let read : r ≡ w = cc (rw eb at found) in
          rw (eb, ec, absent_update id version f ws gone)
            (
              written i read,
              rw (set w) nonneg,
              rw (same w) t.2,
              Ahead-of_absent id (amount -ℤ r.amount) ls ws gone t.3,
            )
      split true false eb ec rest =
          let i = text_eq→eq w.id id eb in
          let gone = subst (λ k. has_wallet k ws ≡ false) i t.2 in
          absurd (hit (rw (eb, ec) (absent_count id version f ws gone)))
      split false c eb ec rest =
          rw (eb, text_eq_comm id w.id, eb)
            (
              plus_zero t.0,
              t.1,
              has_wallet-update id version f same w.id ws ∙ t.2,
              rest (rw eb at found) (rw eb at hit),
            )
