-- ===== src/System/Interleaved/Balance.antt =====
-- Wallets and ledger under interleaved requests.
use jungle_gaming_challenge.Base.{sym, subst, List, Option, none, some, All, All-map}
use jungle_gaming_challenge.Base.Text.{Text}
use jungle_gaming_challenge.Config.{Config}
use jungle_gaming_challenge.Domain.Wager.{WagerTransaction}
use jungle_gaming_challenge.Domain.Wallet.{Wallet}
use jungle_gaming_challenge.Store.{credit_entry, Db, Outside, Env, Session}
use jungle_gaming_challenge.Store.Always.{World, Always, bind-Always, pure-Always, execute-Always}
use jungle_gaming_challenge.Store.Rules.{Quiet, Any, SameMoney, pure-Quiet}
use jungle_gaming_challenge.Store.Invariant.{bind-Safe, execute_in_transaction-keeps}
use jungle_gaming_challenge.Store.Writes.{Stable, Beside-Stable}
use jungle_gaming_challenge.Repository.Spares.{save_inbox-Quiet, find_by_id_with_lock-Quiet}
use jungle_gaming_challenge.Repository.Stable.{save_inbox-Always, find_by_id_with_lock-Always}
use jungle_gaming_challenge.Repository.Reconciled.{Reconciled}
use jungle_gaming_challenge.Repository.Reconciled.Move.{Read}
use jungle_gaming_challenge.Repository.Held.{
  HeldIn, held-Stable, Holding, find_by_id_with_lock-Holding, WasRead-of_held,
}
use jungle_gaming_challenge.Usecase.Wager.{InboxClaim, InputTransaction}
use jungle_gaming_challenge.Usecase.Process.Writes.{read-Moves}
use jungle_gaming_challenge.Usecase.Process.OnWallet.{direction_of}
use jungle_gaming_challenge.Usecase.Process.Conserves.{process_locked-Safe}
use jungle_gaming_challenge.Usecase.Process.Stable.{process_locked-Always}
use jungle_gaming_challenge.Usecase.Resolve.Sound.{credit_locked-Safe}
use jungle_gaming_challenge.Usecase.Resolve.Stable.{credit_locked-Always}
use jungle_gaming_challenge.Transport.Kept.{Stable-Kept}
use jungle_gaming_challenge.Transport.Outbox.Keeps.{EventStable, publishing-Always}
use jungle_gaming_challenge.Transport.Sqs.{delete}
use jungle_gaming_challenge.System.{
  step_keeps, events_apart, InBalance, InBalance-Kept, InBalance-EventStable,
}
use jungle_gaming_challenge.System.Interleaved.{
  claim_inbox, process_held, credit_held, Among, first, later, Turn, whole, read, processed,
  credited, Interleaves, begin, and_then,
}

pub claim_inbox-Quiet : (inbox : Option InboxClaim) → Quiet Any (claim_inbox inbox)
unfolding claim_inbox
claim_inbox-Quiet none = pure-Quiet tt tt
claim_inbox-Quiet (some c) = save_inbox-Quiet c.consumer_name c.message_id c.payload_hash

claim_inbox-Always :
    {P : World} (stable : Stable P) (inbox : Option InboxClaim) → Always P (claim_inbox inbox)
unfolding claim_inbox
claim_inbox-Always stable none = pure-Always tt
claim_inbox-Always stable (some c) =
    save_inbox-Always stable c.consumer_name c.message_id c.payload_hash

process_held-Always :
    {P : World} (stable : Stable P) (input : InputTransaction) (t : WagerTransaction)
    (inbox : Option InboxClaim) (w : Wallet)
    → Always P (process_held input t inbox w)
unfolding process_held
process_held-Always stable input t inbox w = execute-Always _ λ before.
    let beside = Beside-Stable before stable in
    bind-Always (claim_inbox-Always beside inbox) (λ _. process_locked-Always beside input t w)

credit_held-Always :
    {P : World} (stable : Stable P) (p : WagerTransaction) (w : Wallet) → Always P (credit_held p w)
unfolding credit_held
credit_held-Always stable p w =
    execute-Always _ (λ before. credit_locked-Always (Beside-Stable before stable) p w)

process_held-Reconciled :
    (input : InputTransaction) (t : WagerTransaction) (inbox : Option InboxClaim) (w : Wallet)
    (env : Env) (s : Session)
    → Reconciled s.db.wallets s.db.ledger
    → HeldIn w s.db.wallets
    → let u = (process_held input t inbox w env s).1 in Reconciled u.db.wallets u.db.ledger
unfolding process_held
process_held-Reconciled input t inbox w env s balanced held =
    execute_in_transaction-keeps Reconciled (Read w) _ env s
      (bind-Safe {R = Any} (claim_inbox-Quiet inbox) (λ _ _.
        process_locked-Safe w (λ ws ls k. k.0) input t
          (read-Moves (direction_of t.kind) t.money w)))
      balanced (balanced, WasRead-of_held w s.db.wallets held)

credit_held-Reconciled :
    (p : WagerTransaction) (w : Wallet) (env : Env) (s : Session)
    → Reconciled s.db.wallets s.db.ledger
    → HeldIn w s.db.wallets
    → let u = (credit_held p w env s).1 in Reconciled u.db.wallets u.db.ledger
unfolding credit_held
credit_held-Reconciled p w env s balanced held =
    execute_in_transaction-keeps Reconciled (Read w) _ env s
      (credit_locked-Safe p w (read-Moves credit_entry p.money w)) balanced
      (balanced, WasRead-of_held w s.db.wallets held)

-- the invariant: the tables agree, and every wallet that was read is held
abbrev Consistent : Session → List Wallet → Type 0
Consistent s held = Reconciled s.db.wallets s.db.ledger × All (λ w. HeldIn w s.db.wallets) held

All-among : (P : Wallet → Type 0) {w : Wallet} {ws : List Wallet} → Among w ws → All P ws → P w
All-among P first h = h.0
All-among P (later among) h = All-among P among h.1

-- What every turn keeps, for what no write and no event takes away.
module _ {P : World} (cfg : Config) (stable : Stable P) (events : EventStable P)
    (deleting : (db : Db) (o : Outside) (handle : Text) → P db o → P db (delete handle o)) where
  turn_keeps :
      (s u : Session) (held held' : List Wallet)
      → Turn cfg s held u held'
      → P s.db s.outside
      → P u.db u.outside
  turn_keeps s u held held' (whole step) h =
      step_keeps (Stable-Kept stable events.counting deleting) (publishing-Always events cfg) step h
  turn_keeps s u held held' (read id env w e bounded) h =
      subst (λ q. P q.1.db q.1.outside) e ((find_by_id_with_lock-Always {P = P} id).runs env s h)
  turn_keeps s u held held' (processed w input t inbox env among e) h =
      subst (λ v. P v.db v.outside) (sym e)
        ((process_held-Always stable input t inbox w).runs env s h)
  turn_keeps s u held held' (credited w p env among e) h =
      subst (λ v. P v.db v.outside) (sym e) ((credit_held-Always stable p w).runs env s h)

  pub interleaves_keep :
      (s u : Session) (held : List Wallet)
      → Interleaves cfg s u held
      → P s.db s.outside
      → P u.db u.outside
  interleaves_keep s u held begin h = h
  interleaves_keep s v held' (and_then {u} {held = held} path turn) h =
      turn_keeps u v held held' turn (interleaves_keep s u held path h)

held-EventStable : (w : Wallet) → EventStable (λ db o. HeldIn w db.wallets)
held-EventStable w =
    events_apart (λ db o. HeldIn w db.wallets)
      (λ db db' o o' same l i x h. subst (HeldIn w) (sym same) h)

module _ (cfg : Config) (s : Session) (held : List Wallet) where
  -- What was read before a turn is held behind it.
  still_held :
      (u : Session) (held' : List Wallet)
      → Turn cfg s held u held'
      → All (λ w. HeldIn w s.db.wallets) held
      → All (λ w. HeldIn w u.db.wallets) held
  still_held u held' turn =
      All-map
        (λ w.
          turn_keeps cfg (held-Stable w) (held-EventStable w) (λ db o handle h. h) s u held held'
            turn)
        held

  turn-Consistent :
      (u : Session) (held' : List Wallet)
      → Turn cfg s held u held'
      → Consistent s held
      → Consistent u held'
  unfolding InBalance
  turn-Consistent u held' (whole step) (balanced, known) = (
    step_keeps InBalance-Kept (publishing-Always InBalance-EventStable cfg) step balanced,
    still_held u held' (whole step) known,
  )
  turn-Consistent u held' (read id env w e bounded) (balanced, known) =
      let same : SameMoney s u =
        subst (λ q. SameMoney s q.1) e ((find_by_id_with_lock-Quiet id).runs env s).0 in
      (
        rw (same.0, same.1) balanced,
        (
          subst Holding e (find_by_id_with_lock-Holding id env s) bounded,
          still_held u held' (read id env w e bounded) known,
        ),
      )
  turn-Consistent u held' (processed w input t inbox env among e) (balanced, known) =
      let mine = All-among (λ w. HeldIn w s.db.wallets) among known in
      (
        rw e (process_held-Reconciled input t inbox w env s balanced mine),
        still_held u held' (processed w input t inbox env among e) known,
      )
  turn-Consistent u held' (credited w p env among e) (balanced, known) =
      let mine = All-among (λ w. HeldIn w s.db.wallets) among known in
      (
        rw e (credit_held-Reconciled p w env s balanced mine),
        still_held u held' (credited w p env among e) known,
      )

-- No update is lost between requests: while others commit between a request's reading of its wallet and
-- its writes, in any order and with any failures, every wallet's balance is the sum of its entries, and a
-- wallet that was read is in the table as it was read or under a later version.
pub interleaved-Reconciled :
    (cfg : Config) (s u : Session) (held : List Wallet)
    → Interleaves cfg s u held
    → Reconciled s.db.wallets s.db.ledger
    → Reconciled u.db.wallets u.db.ledger × All (λ w. HeldIn w u.db.wallets) held
interleaved-Reconciled cfg s u held begin balanced = (balanced, tt)
interleaved-Reconciled cfg s v held' (and_then {u} {held = held} path turn) balanced =
    turn-Consistent cfg u held v held' turn (interleaved-Reconciled cfg s u held path balanced)
