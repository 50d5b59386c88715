-- ===== src/Repository/Reconciled/Reading.antt =====
-- Reading a wallet with its lock, and what the rest of the transaction knows of the row.
use jungle_gaming_challenge.Base.{
  ◌≡◌, refl, sym, subst, ◌∙◌, Bool, true, List, [], ◌∷◌, Option, none, some, arith, Bool-cases, inl,
  inr,
}
use jungle_gaming_challenge.Base.Text.{Text, text_eq, text_eq→eq}
use jungle_gaming_challenge.Errors.{Result, ok, err}
use jungle_gaming_challenge.Domain.Money.{new_internal_money}
use jungle_gaming_challenge.Domain.Wallet.{Wallet, rehydrate_wallet}
use jungle_gaming_challenge.Store.{WalletRow, Env, Session, Tx, ◌>>=◌, done, lift}
use jungle_gaming_challenge.Store.Update.{find, select_wallet}
use jungle_gaming_challenge.Store.Rules.{statement_cases}
use jungle_gaming_challenge.Store.Invariant.{Safe, Good, Holds, Money2}
use jungle_gaming_challenge.Repository.Wallet.{find_by_id_with_lock, scan_wallet, wallet_of_row}
use jungle_gaming_challenge.Repository.Reconciled.{Reconciled}
use jungle_gaming_challenge.Repository.Reconciled.Move.{WasRead, Read}

pub find_sound :
    (p : WalletRow → Bool) (ws : List WalletRow) {r : WalletRow} → find p ws ≡ some r → p r ≡ true
find_sound p [] h = cc
find_sound p (w ∷ ws) h = elim (Bool-cases (p w)) [
  | inl e ↦ let same = rw e at h in let q : w ≡ _ = cc same in subst (λ x. p x ≡ true) q e
  | inr e ↦ find_sound p ws (rw e at h)
]

pub wallet_of_row-ok :
    (r : WalletRow) (w : Wallet)
    → wallet_of_row r ≡ ok w
    → (w.id ≡ r.id) × (r.amount ≡ w.balance.amount) × (r.version ≡ w.version)
unfolding rehydrate_wallet new_internal_money
wallet_of_row-ok r w e = ground arith

-- The wallet is what a row of the table says.
abbrev pub RowOf : Wallet → List WalletRow → Type 0
RowOf w ws =
    (r : WalletRow) × (find (λ x. text_eq x.id w.id) ws ≡ some r) × (r.amount ≡ w.balance.amount)

RowOf-of_row :
    (id : Text) (ws : List WalletRow) (r : WalletRow) (w : Wallet)
    → find (λ x. text_eq x.id id) ws ≡ some r
    → wallet_of_row r ≡ ok w
    → RowOf w ws × (w.id ≡ id)
RowOf-of_row id ws r w found e =
    let (same_id, same_amount, same_version) = wallet_of_row-ok r w e in
    let i = same_id ∙ text_eq→eq r.id id (find_sound (λ x. text_eq x.id id) ws found) in
    ((r, subst (λ k. find (λ x. text_eq x.id k) ws ≡ some r) (sym i) found, same_amount), i)

WasRead-of_RowOf : (w : Wallet) (ws : List WalletRow) → RowOf w ws → WasRead w ws
WasRead-of_RowOf w ws (r, found, amount) q h v =
    let same : q ≡ r = cc (sym h ∙ found) in rw same amount

module _ {B : Type 0} {I P : Money2} (id : Text) (f : Wallet → Tx B)
    (next : (w : Wallet) → w.id ≡ id → Safe I (λ ws ls. P ws ls × RowOf w ws) (f w))
    (env : Env) where
  scanned :
      (u : Session) (r : WalletRow) (res : Result Wallet)
      → wallet_of_row r ≡ res
      → find (λ x. text_eq x.id id) u.db.wallets ≡ some r
      → Holds P u
      → Good I (◌>>=◌ (lift res) f env u)
  scanned u r (err e) h found k = tt
  scanned u r (ok w) h found k =
      let (row, i) = RowOf-of_row id u.db.wallets r w found h in (next w i).runs env u (k, row)

  selected :
      (u : Session) (o : Option WalletRow)
      → find (λ x. text_eq x.id id) u.db.wallets ≡ o
      → Holds P u
      → Good I (◌>>=◌ (lift (scan_wallet o)) f env u)
  selected u none e k = tt
  selected u (some r) e k = scanned u r (wallet_of_row r) refl e k

-- What follows the reading of a wallet may use the row that was read.
pub find_row-Safe :
    {B : Type 0} {I P : Money2} (id : Text) {f : Wallet → Tx B}
    → ((w : Wallet) → w.id ≡ id → Safe I (λ ws ls. P ws ls × RowOf w ws) (f w))
    → Safe I P (find_by_id_with_lock id >>= f)
unfolding find_by_id_with_lock select_wallet
find_row-Safe {I = I} {P} id {f} next = record {
  runs = λ env s k.
      statement_cases (λ db. done (select_wallet id db) db) env s
        (λ q.
          Good I (◌>>=◌ (λ e u. ◌>>=◌ (λ e' u'. q) (λ row. lift (scan_wallet row)) env s) f env s))
        (λ _ _ _. tt)
        (λ o u e.
          let same : u.db ≡ s.db = cc e in
          let row : select_wallet id s.db ≡ o = cc e in
          let kept : Holds P u = subst (λ d. P d.wallets d.ledger) (sym same) k in
          selected {P = P} id f next env u o (rw same row) kept);
}

-- In particular it may use what a reader knows of its wallet.
pub find-Safe :
    {B : Type 0} {I : Money2} (id : Text) {f : Wallet → Tx B}
    → ((w : Wallet) → w.id ≡ id → Safe I (Read w) (f w))
    → Safe I Reconciled (find_by_id_with_lock id >>= f)
find-Safe {I = I} id {f} next = find_row-Safe {P = Reconciled} id λ w i. record {
  runs = λ env s k. (next w i).runs env s (k.0, WasRead-of_RowOf w s.db.wallets k.1);
}
