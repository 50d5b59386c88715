-- ===== src/Usecase/Process/Writes.antt =====
-- The parts of `ProcessTransactionWithInbox` that write, and the tables that they touch.
use jungle_gaming_challenge.Base.{◌≡◌, refl, true, false, List, Option, none, some, ◌+◌, ◌*◌}
use jungle_gaming_challenge.Base.Text.{Text, codes}
use jungle_gaming_challenge.Base.Int.{ℤ}
use jungle_gaming_challenge.Errors.{Result, ok, err, Error, duplicate_transaction}
use jungle_gaming_challenge.Domain.Money.{Money}
use jungle_gaming_challenge.Domain.Wallet.{Wallet}
use jungle_gaming_challenge.Domain.Wager.{
  WagerTransaction, mark_as_idempotent_replay, transition_to_processed, transition_to_rejected,
  transition_to_pending_reference,
}
use jungle_gaming_challenge.Store.{WalletRow, LedgerRow, Tx, ◌>>◌, lift, pure, Direction, JsonValue}
use jungle_gaming_challenge.Store.Rules.{
  Quiet, Any, Yields, bind-Quiet, lift-Quiet, pure-Quiet, raise-Quiet, attempt-Quiet,
  time_now-Quiet,
}
use jungle_gaming_challenge.Store.Invariant.{
  Safe, Money2, Quiet-Safe, bind-Safe, then-Safe, seq-Safe,
}
use jungle_gaming_challenge.Repository.Spares.{
  Yields-Any, find_by_external_id_tx-Quiet, find_by_idempotency_key-Quiet,
  find_by_id_with_lock-Quiet, save-Quiet, save_with_retry_at-Quiet, save_outbox-Quiet,
}
use jungle_gaming_challenge.Repository.Reconciled.{Reconciled}
use jungle_gaming_challenge.Repository.Reconciled.Move.{Read, update-Safe, save_ledger_entry-Safe}
use jungle_gaming_challenge.Repository.Messaging.{outbox_row}
use jungle_gaming_challenge.Usecase.Events.{
  event_id, marshal, balance_changed, wager_json, save_outbox_event, save_balance_changed,
}
use jungle_gaming_challenge.Usecase.Wager.{
  InputTransaction, Outcome, outcome, same_payload, found_by_key, found_by_external,
  lookup_existing, replay, replay_or_conflict, handle_save_conflict, after_save, saved_or_replayed,
}
use jungle_gaming_challenge.Usecase.Process.{
  reject_bet, await_reference, ledger_entry, move_balance, record_move, settle, second,
}

pub save_outbox_event-Quiet :
    (aggregate name payload : Text) → Quiet Any (save_outbox_event aggregate name payload)
unfolding save_outbox_event
save_outbox_event-Quiet aggregate name payload =
    bind-Quiet {R = Any} time_now-Quiet
      (λ now _. save_outbox-Quiet (outbox_row (event_id aggregate now) aggregate name payload now))

pub marshal-Quiet : (m : List (Text × JsonValue)) → Quiet Any (marshal m)
marshal-Quiet m = record { runs = λ env s. ((refl, refl), tt) }

pub save_balance_changed-Quiet :
    (t : WagerTransaction) (before : ℤ) (w : Wallet) (d : Direction)
    → Quiet Any (save_balance_changed t before w d)
unfolding save_balance_changed
save_balance_changed-Quiet t before w d =
    bind-Quiet {R = Any} (marshal-Quiet (balance_changed t before w d))
      (λ payload _. save_outbox_event-Quiet w.id (codes "WalletBalanceChanged") payload)

same_payload-Quiet : (h : Text) (t : WagerTransaction) → Quiet Any (lift (same_payload h t))
same_payload-Quiet h t = lift-Quiet (same_payload h t) (Yields-Any (same_payload h t))

found_by_key-Quiet : (h : Text) (o : Option WagerTransaction) → Quiet Any (found_by_key h o)
found_by_key-Quiet h none = pure-Quiet none tt
found_by_key-Quiet h (some t) = same_payload-Quiet h t

found_by_external-Quiet :
    (input : InputTransaction) (h : Text) (o : Option WagerTransaction)
    → Quiet Any (found_by_external input h o)
found_by_external-Quiet input h none =
    bind-Quiet {R = Any} (find_by_idempotency_key-Quiet input.idempotency_key)
      (λ k _. found_by_key-Quiet h k)
found_by_external-Quiet input h (some t) = same_payload-Quiet h t

pub lookup_existing-Quiet :
    (input : InputTransaction) (h : Text) → Quiet Any (lookup_existing input h)
unfolding lookup_existing
lookup_existing-Quiet input h =
    bind-Quiet {R = Any}
      (find_by_external_id_tx-Quiet input.provider_id input.external_transaction_id)
      (λ o _. found_by_external-Quiet input h o)

pub replay-Quiet : (t : WagerTransaction) → Quiet Any (replay t)
unfolding replay
replay-Quiet t =
    bind-Quiet {R = Any} (find_by_id_with_lock-Quiet t.wallet_id)
      (λ w _. pure-Quiet (outcome (mark_as_idempotent_replay t) w true) tt)

replay_or_conflict-Quiet : (o : Option WagerTransaction) → Quiet Any (replay_or_conflict o)
replay_or_conflict-Quiet none = raise-Quiet _
replay_or_conflict-Quiet (some t) = replay-Quiet t

handle_save_conflict-Quiet :
    (input : InputTransaction) (t : WagerTransaction) (e : Error)
    → Quiet Any (handle_save_conflict input t e)
unfolding handle_save_conflict
handle_save_conflict-Quiet input t duplicate_transaction =
    bind-Quiet {R = Any} (lookup_existing-Quiet input t.payload_hash)
      (λ o _. replay_or_conflict-Quiet o)
handle_save_conflict-Quiet input t e = raise-Quiet e

module _ {I P : Money2} (input : InputTransaction) (t : WagerTransaction)
    (P→I : (ws : List WalletRow) (ls : List LedgerRow) → P ws ls → I ws ls) where
  saved_or_replayed-Safe :
      {save_tx : Tx (Unit {0})} {rest : Tx Outcome}
      → Quiet Any save_tx
      → Safe I P rest
      → Safe I P (saved_or_replayed input t save_tx rest)
  unfolding saved_or_replayed
  saved_or_replayed-Safe {rest = rest} q safe =
      bind-Safe {R = Yields Any} (attempt-Quiet q) (λ r _. after r)
    where
      after : (r : Result (Unit {0})) → Safe I P (after_save input t rest r)
      after (ok saved) = safe
      after (err e) = Quiet-Safe (handle_save_conflict-Quiet input t e) P→I

-- an event about the transaction, and the answer
abbrev announced : WagerTransaction → Text → Wallet → Tx Outcome
announced t event w = do save_outbox_event t.id event (wager_json t); pure (outcome t w false)

announced-Quiet :
    (t : WagerTransaction) (event : Text) (w : Wallet) → Quiet Any (announced t event w)
announced-Quiet t event w =
    bind-Quiet {R = Any} (save_outbox_event-Quiet t.id event (wager_json t))
      (λ _ _. pure-Quiet (outcome t w false) tt)

module _ {I P : Money2} (input : InputTransaction) (t : WagerTransaction) (w : Wallet)
    (P→I : (ws : List WalletRow) (ls : List LedgerRow) → P ws ls → I ws ls) where
  pub reject_bet-Safe : Safe I P (reject_bet input t w)
  unfolding reject_bet
  reject_bet-Safe = bind-Safe {R = Any} time_now-Quiet λ now _.
      bind-Safe {R = Any}
        (lift-Quiet (transition_to_rejected t (codes "INSUFFICIENT_BALANCE") now) (Yields-Any _))
        λ t' _.
          saved_or_replayed-Safe input t' P→I (save-Quiet t')
            (Quiet-Safe (announced-Quiet t' (codes "WagerTransactionRejected") w) P→I)

  pub await_reference-Safe : Safe I P (await_reference input t w)
  unfolding await_reference
  await_reference-Safe = bind-Safe {R = Any} time_now-Quiet λ now _.
      bind-Safe {R = Any} (lift-Quiet (transition_to_pending_reference t now) (Yields-Any _))
        λ t' _. bind-Safe {R = Any} time_now-Quiet λ retry_base _.
          saved_or_replayed-Safe input t' P→I
            (save_with_retry_at-Quiet t' (some (retry_base + 5 * second)))
            (Quiet-Safe (announced-Quiet t' (codes "WagerTransactionPendingReference") w) P→I)

  pub settle-Safe : (moves : Tx (Unit {0})) → Safe I P moves → Safe I P (settle input t w moves)
  unfolding settle
  settle-Safe moves safe = bind-Safe {R = Any} time_now-Quiet λ now _.
      bind-Safe {R = Any} (lift-Quiet (transition_to_processed t now) (Yields-Any _)) λ t' _.
        saved_or_replayed-Safe input t' P→I (save-Quiet t')
          (then-Safe safe (λ _. announced-Quiet t' (codes "WagerTransactionProcessed") w))

pub move_balance-Safe :
    (t : WagerTransaction) (old new : Wallet) (d : Direction)
    → new.id ≡ old.id
    → Safe Reconciled (Read old) (move_balance t old new d)
unfolding move_balance
move_balance-Safe t old new d i =
    seq-Safe (update-Safe old new i) (λ _. save_ledger_entry-Safe (ledger_entry t old new d))

pub record_move-Safe :
    {I P : Money2} (t : WagerTransaction) (old new : Wallet) (d : Direction)
    → Safe I P (move_balance t old new d)
    → Safe I P (record_move t old new d)
unfolding record_move
record_move-Safe t old new d moves =
    then-Safe moves (λ _. save_balance_changed-Quiet t old.balance.amount new d)

-- What a program may rely on when it writes the new balance of a wallet: that the two writes that belong
-- to it go from `P` to `I`, for a transaction of this money and an entry of this direction.
abbrev pub Moves : Money2 → Money2 → Direction → Money → Wallet → Type 0
Moves I P d m w =
    (t : WagerTransaction) (new : Wallet)
    → t.money ≡ m
    → new.id ≡ w.id
    → Safe I P (move_balance t w new d)

pub read-Moves : (d : Direction) (m : Money) (w : Wallet) → Moves Reconciled (Read w) d m w
read-Moves d m w t new same i = move_balance-Safe t w new d i
