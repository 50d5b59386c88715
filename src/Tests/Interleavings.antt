-- ===== src/Tests/Interleavings.antt =====
-- Two requests on one wallet: both read it, the first one commits, and the second one goes on with what it
-- has read.
use jungle_gaming_challenge.Base.{◌≡◌, refl, [], ◌∷◌, none, some, arith, All}
use jungle_gaming_challenge.Base.Text.{codes, text_eq}
use jungle_gaming_challenge.Base.Int.{pos, IsInt64, ◌+ℤ◌, ◌-ℤ◌}
use jungle_gaming_challenge.Errors.{ok}
use jungle_gaming_challenge.Domain.Wager.{WagerTransaction}
use jungle_gaming_challenge.Domain.Wallet.{Wallet}
use jungle_gaming_challenge.Store.{Session}
use jungle_gaming_challenge.Store.Rules.{SameMoney}
use jungle_gaming_challenge.Store.Keys.{UniqueKeys}
use jungle_gaming_challenge.Repository.Wallet.{find_by_id_with_lock}
use jungle_gaming_challenge.Repository.Transaction.{transaction_row}
use jungle_gaming_challenge.Repository.Reconciled.{Reconciled}
use jungle_gaming_challenge.Repository.Held.{HeldIn}
use jungle_gaming_challenge.Usecase.Wager.{InputTransaction}
use jungle_gaming_challenge.System.Interleaved.{
  process_held, credit_held, first, later, Interleaves, begin, and_then, read, processed,
}
use jungle_gaming_challenge.System.Interleaved.Balance.{interleaved-Reconciled}
use jungle_gaming_challenge.System.Interleaved.Keys.{interleaved-UniqueKeys}
use jungle_gaming_challenge.System.Interleaved.Stale.{IsBehind, stale-SameMoney}
use jungle_gaming_challenge.Tests.World.{steady, session, config, request, claim}
use jungle_gaming_challenge.Tests.Runs.{ana, ana_row, bet_made, stored}
use jungle_gaming_challenge.Store.{statement}
use jungle_gaming_challenge.Store.Update.{select_wallet}
use jungle_gaming_challenge.Domain.Wallet.{rehydrate_wallet}
use jungle_gaming_challenge.Domain.Money.{normalize}
use jungle_gaming_challenge.Domain.Money.{new_internal_money}
use jungle_gaming_challenge.Domain.Money.{is_negative}

-- the wallet of Ana with the bet that she has made
abbrev noon : Session
noon = session (stored (transaction_row (bet_made [] 7) none))

abbrev next_request : InputTransaction
next_request = request (codes "2") (codes "BET") (codes "30.50") []

abbrev next_bet : WagerTransaction
next_bet = record (bet_made (codes "h2") 8) {
  id = codes "tx_p_2";
  external_transaction_id = codes "2";
  idempotency_key = codes "k2";
}

abbrev both_read : Session
both_read = record noon { exchanges = 2 }

abbrev one_committed : Session
one_committed = (process_held next_request next_bet none ana steady both_read).1

abbrev late_bet : WagerTransaction
late_bet = record (bet_made (codes "h3") 9) {
  id = codes "tx_p_3";
  external_transaction_id = codes "3";
  idempotency_key = codes "k3";
}

abbrev both_done : Session
both_done = (process_held next_request late_bet (some claim) ana steady one_committed).1

version-IsInt64 : IsInt64 (pos 2)
version-IsInt64 = (omega arith, omega arith)

first_read :
    find_by_id_with_lock (codes "wal_ana_brl") steady noon ≡ (ok ana, record noon { exchanges = 1 })
unfolding find_by_id_with_lock statement select_wallet text_eq rehydrate_wallet is_negative
    new_internal_money normalize
first_read = refl

second_read :
    find_by_id_with_lock (codes "wal_ana_brl") steady (record noon { exchanges = 1 })
    ≡ (ok ana, both_read)
unfolding find_by_id_with_lock statement select_wallet text_eq rehydrate_wallet is_negative
    new_internal_money normalize
second_read = refl

interleaving : Interleaves config noon both_done (ana ∷ ana ∷ [])
interleaving =
    and_then
      (and_then
        (and_then
          (and_then begin (read (codes "wal_ana_brl") steady ana first_read version-IsInt64))
          (read (codes "wal_ana_brl") steady ana second_read version-IsInt64))
        (processed ana next_request next_bet none steady first refl))
      (processed ana next_request late_bet (some claim) steady (later first) refl)

noon-Reconciled : Reconciled noon.db.wallets noon.db.ledger
unfolding ◌-ℤ◌ ◌+ℤ◌ text_eq
noon-Reconciled = ((refl, omega arith, refl, tt), (refl, (refl, tt)))

interleaved-Reconciled_example :
    Reconciled both_done.db.wallets both_done.db.ledger
    × All (λ w. HeldIn w both_done.db.wallets) (ana ∷ ana ∷ [])
interleaved-Reconciled_example =
    interleaved-Reconciled config noon both_done (ana ∷ ana ∷ []) interleaving noon-Reconciled

interleaved-UniqueKeys_example : UniqueKeys both_done.db.transactions
interleaved-UniqueKeys_example =
    interleaved-UniqueKeys config noon both_done (ana ∷ ana ∷ []) interleaving (tt, tt)

-- Ana's wallet as somebody has read it who was slower than the bet
abbrev old_ana : Wallet
old_ana = record ana { version = pos 1 }

old-IsBehind : IsBehind old_ana noon.db.wallets
unfolding text_eq
old-IsBehind = (ana_row, refl, refl)

stale-SameMoney_example :
    SameMoney noon (process_held next_request next_bet (some claim) old_ana steady noon).1
    × SameMoney noon (credit_held next_bet old_ana steady noon).1
stale-SameMoney_example =
    stale-SameMoney old_ana noon steady next_request next_bet next_bet (some claim) noon-Reconciled
      old-IsBehind
