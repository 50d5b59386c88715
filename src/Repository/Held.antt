-- ===== src/Repository/Held.antt =====
-- What a request that has read a wallet still knows of its row when others have written in between.
use jungle_gaming_challenge.Base.{
  ℕ, ◌≡◌, refl, sym, ap, subst, ◌∙◌, arith, Bool, true, false, List, ◌∷◌, Option, none, some, ◌⊎◌,
  inl, inr, leb, Bool-cases, if◌then◌else◌,
}
use jungle_gaming_challenge.Base.Text.{Text, text_eq, text_eq→eq, text_eq_self}
use jungle_gaming_challenge.Base.Int.{
  ℤ, pos, negsuc, ◌+ℤ◌, wrap64, ltb_ℤ, IsInt64, add64, eq_of_parts, wrap64-IsInt64,
}
use jungle_gaming_challenge.Errors.{Result, ok, err}
use jungle_gaming_challenge.Domain.Wallet.{Wallet}
use jungle_gaming_challenge.Store.{timestamptz, Db, WalletRow, Env, Session, ◌>>=◌, lift, done}
use jungle_gaming_challenge.Store.Insert.{any, insert_wallet, checked_done, same_wallet_key}
use jungle_gaming_challenge.Store.Update.{
  find, update_where, count_where, wallet_at, update_wallet, update_status, select_wallet,
}
use jungle_gaming_challenge.Store.Rules.{statement_cases}
use jungle_gaming_challenge.Store.Found.{find-update_where, find_of_none, find_is_counted}
use jungle_gaming_challenge.Repository.Wallet.{find_by_id_with_lock, scan_wallet, wallet_of_row}
use jungle_gaming_challenge.Repository.Reconciled.Move.{WasRead, update_wallet_done}
use jungle_gaming_challenge.Repository.Reconciled.Reading.{find_sound, wallet_of_row-ok}
use jungle_gaming_challenge.Store.Writes.{Stable, Write}
use jungle_gaming_challenge.Store.Effects.{transaction_in, ledger_in, inbox_in, outbox_in}

-- The row is still there, as it was read or under a later version.
pub record HeldIn (w : Wallet) (ws : List WalletRow) : Type 0 where
  pub row : WalletRow
  pub found : find (λ x. text_eq x.id w.id) ws ≡ some row
  pub bounded : IsInt64 row.version
  pub current :
      (ltb_ℤ w.version row.version ≡ true)
      ⊎ ((row.version ≡ w.version) × (row.amount ≡ w.balance.amount))

-- The next version of a row is a later one, unless it wraps around.
add64_one_grows :
    (a : ℤ) → IsInt64 a → ltb_ℤ (pos 0) (add64 a (pos 1)) ≡ true → ltb_ℤ a (add64 a (pos 1)) ≡ true
unfolding add64 wrap64 ◌+ℤ◌
add64_one_grows (pos n) bounded positive = ground arith
add64_one_grows (negsuc n) bounded positive = ground arith

add64-IsInt64 : (a b : ℤ) → IsInt64 (add64 a b)
unfolding add64
add64-IsInt64 a b = wrap64-IsInt64 (a +ℤ b)

later_still :
    {S : Type 0} (a b c : ℤ)
    → (ltb_ℤ a b ≡ true) ⊎ ((b ≡ a) × S)
    → ltb_ℤ b c ≡ true
    → ltb_ℤ a c ≡ true
later_still a b c (inl before) after = ground arith
later_still a b c (inr (same, s)) after = rw (sym same) after

-- A new wallet has an id of its own.
unlike :
    (w : Wallet) (r row : WalletRow)
    → text_eq row.id w.id ≡ true
    → same_wallet_key r row ≡ false
    → text_eq r.id w.id ≡ false
unlike w r row at other = elim (Bool-cases (text_eq r.id w.id)) [
  | inl e ↦
      let twin : row.id ≡ r.id = text_eq→eq row.id w.id at ∙ sym (text_eq→eq r.id w.id e) in
      let again : text_eq row.id r.id ≡ true = rw twin (text_eq_self r.id) in absurd (ground arith)
  | inr e ↦ e
]

HeldIn-insert :
    (w : Wallet) (r : WalletRow) (db db' : Db) (v : Unit {0})
    → insert_wallet r db ≡ done v db'
    → HeldIn w db.wallets
    → HeldIn w db'.wallets
unfolding insert_wallet
HeldIn-insert w r db db' v h held =
    let (_, _, alone, _, e) = checked_done _ _ (any (same_wallet_key r) db.wallets) false _ h in
    let same : db'.wallets ≡ r ∷ db.wallets = ap (λ d. d.wallets) e in
    let here = find_sound (λ x. text_eq x.id w.id) db.wallets held.found in
    let other =
      find_of_none (λ x. text_eq x.id w.id) (same_wallet_key r) db.wallets alone held.found in
    record {
      row = held.row;
      found = rw (same, unlike w r held.row here other) held.found;
      bounded = held.bounded;
      current = held.current;
    }

-- An update that meets a row writes a positive version.
update_positive :
    (amount version : ℤ) (now : ℕ) (id : Text) (expected : ℤ) (n : ℕ) (db db' : Db)
    → update_wallet amount version now id expected db ≡ done n db'
    → leb 1 (count_where (wallet_at id expected) db.wallets) ≡ true
    → ltb_ℤ (pos 0) version ≡ true
unfolding update_wallet
update_positive amount version now id expected n db db' h met = ground arith

module _ (w : Wallet) (amount version : ℤ) (now : ℕ) (id : Text) (expected : ℤ) where
  abbrev rewrite : WalletRow → WalletRow
  rewrite r = record r { amount = amount; version = version; updated_at = timestamptz now }

  -- An update of the row takes it to the next version, and one of another row leaves it.
  HeldIn-update :
      (n : ℕ) (db db' : Db)
      → version ≡ add64 expected (pos 1)
      → update_wallet amount version now id expected db ≡ done n db'
      → HeldIn w db.wallets
      → HeldIn w db'.wallets
  HeldIn-update n db db' next h held = at (wallet_at id expected held.row) refl
    where
      ws : db'.wallets ≡ update_where (wallet_at id expected) rewrite db.wallets
      ws = (update_wallet_done amount version now id expected db h).1

      found :
          find (λ x. text_eq x.id w.id) db'.wallets
          ≡ some (if wallet_at id expected held.row then rewrite held.row else held.row)
      found =
          rw ws (
            find-update_where w.id (wallet_at id expected) rewrite (λ r. refl) db.wallets
              held.found)

      at : (b : Bool) → wallet_at id expected held.row ≡ b → HeldIn w db'.wallets
      at true hit =
          let met =
            find_is_counted (λ x. text_eq x.id w.id) (wallet_at id expected) db.wallets held.found
              hit in
          let positive = update_positive amount version now id expected n db db' h met in
          let read : expected ≡ held.row.version = eq_of_parts _ _ (ground arith) in
          let next_of : version ≡ add64 held.row.version (pos 1) =
            next ∙ ap (λ v. add64 v (pos 1)) read in
          let later : ltb_ℤ held.row.version version ≡ true =
            subst (λ v. ltb_ℤ held.row.version v ≡ true) (sym next_of)
              (add64_one_grows held.row.version held.bounded
                (subst (λ v. ltb_ℤ (pos 0) v ≡ true) next_of positive)) in
          record {
            row = rewrite held.row;
            found = found ∙ rw hit refl;
            bounded = subst IsInt64 (sym next) (add64-IsInt64 expected (pos 1));
            current = inl (later_still w.version held.row.version version held.current later);
          }
      at false miss = record {
        row = held.row;
        found = found ∙ rw miss refl;
        bounded = held.bounded;
        current = held.current;
      }

-- Whatever the other requests write, a wallet that was read stays held.
pub held-Stable : (w : Wallet) → Stable (λ db o. HeldIn w db.wallets)
unfolding update_status
held-Stable w = record { keeps = λ step h. at step h }
  where
    untouched : {ws ws' : List WalletRow} → ws' ≡ ws → HeldIn w ws → HeldIn w ws'
    untouched same held = subst (HeldIn w) (sym same) held

    at : {db db' : Db} → Write db db' → HeldIn w db.wallets → HeldIn w db'.wallets
    at (Write.wallet_inserted r v h) held = HeldIn-insert w r _ _ v h held
    at (Write.transaction_inserted r v h) held =
        untouched (ap (λ d. d.wallets) (transaction_in r h)) held
    at (Write.ledger_inserted r v h) held = untouched (ap (λ d. d.wallets) (ledger_in r h)) held
    at (Write.inbox_inserted r v h) held = untouched (ap (λ d. d.wallets) (inbox_in r h)) held
    at (Write.outbox_inserted r v fresh h) held =
        untouched (ap (λ d. d.wallets) (outbox_in r h).1) held
    at (Write.wallet_updated a b c d e n next h) held = HeldIn-update w a b c d e n _ _ next h held
    at (Write.status_updated a b c d e v h) held = untouched (cc h) held

-- The wallet that a SELECT answers with is held.
abbrev pub Holding : Result Wallet × Session → Type 0
Holding (ok w, u) = IsInt64 w.version → HeldIn w u.db.wallets
Holding (err e, u) = Unit

row-Holding :
    (id : Text) (u : Session) (o : Option WalletRow)
    → find (λ x. text_eq x.id id) u.db.wallets ≡ o
    → Holding (scan_wallet o, u)
row-Holding id u none found = tt
row-Holding id u (some r) found = at (wallet_of_row r) refl
  where
    at : (res : Result Wallet) → wallet_of_row r ≡ res → Holding (res, u)
    at (err e) h = tt
    at (ok w) h =
        let (same_id, same_amount, same_version) = wallet_of_row-ok r w h in
        let is_at = text_eq→eq r.id id (find_sound (λ x. text_eq x.id id) u.db.wallets found) in
        λ bounded. record {
          row = r;
          found =
              subst (λ k. find (λ x. text_eq x.id k) u.db.wallets ≡ some r) (sym (same_id ∙ is_at))
                found;
          bounded = subst IsInt64 (sym same_version) bounded;
          current = inr (same_version, same_amount);
        }

pub find_by_id_with_lock-Holding :
    (id : Text) (env : Env) (s : Session) → Holding (find_by_id_with_lock id env s)
unfolding find_by_id_with_lock select_wallet
find_by_id_with_lock-Holding id env s =
    statement_cases (λ db. done (select_wallet id db) db) env s
      (λ q. Holding (◌>>=◌ (λ e u. q) (λ row. lift (scan_wallet row)) env s)) (λ _ _ _. tt)
      (λ o u e.
        let same : u.db ≡ s.db = cc e in
        let row : select_wallet id s.db ≡ o = cc e in row-Holding id u o (rw same row))

-- A held wallet is known well enough to be written.
pub WasRead-of_held : (w : Wallet) (ws : List WalletRow) → HeldIn w ws → WasRead w ws
WasRead-of_held w ws held r found same =
    let here : held.row ≡ r = cc (sym held.found ∙ found) in at held.current here
  where
    at :
        (ltb_ℤ w.version held.row.version ≡ true)
          ⊎ ((held.row.version ≡ w.version) × (held.row.amount ≡ w.balance.amount))
        → held.row ≡ r
        → r.amount ≡ w.balance.amount
    at (inl later) here =
        let equal : held.row.version ≡ w.version = rw here same in absurd (ground arith)
    at (inr (v, amount)) here = rw (sym here) amount
