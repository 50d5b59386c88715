-- ===== src/Usecase/Process/Replay.antt =====
-- The answer of `ProcessTransaction` to a request whose transaction is already stored.
use jungle_gaming_challenge.Base.{ℕ, suc, ◌≡◌, refl, ap, ◌∙◌, true, false, some}
use jungle_gaming_challenge.Base.Text.{text_eq}
use jungle_gaming_challenge.Errors.{Result, ok, err, transaction_conflict}
use jungle_gaming_challenge.Config.{Config}
use jungle_gaming_challenge.Domain.Wallet.{Wallet}
use jungle_gaming_challenge.Domain.Wager.{
  WagerTransaction, mark_as_idempotent_replay, rehydrate_wager_transaction, status_text,
}
use jungle_gaming_challenge.Domain.Money.{to_text}
use jungle_gaming_challenge.Store.{
  Db, TransactionRow, WalletRow, Env, Session, Tx, ◌>>=◌, lift, pure, statement, done, finish,
  execute_in_transaction, finish,
}
use jungle_gaming_challenge.Store.Update.{select_by_external_id, select_wallet}
use jungle_gaming_challenge.Store.Reads.{begun}
use jungle_gaming_challenge.Repository.Wallet.{find_by_id_with_lock, scan_wallet, wallet_of_row}
use jungle_gaming_challenge.Repository.Transaction.{wager_of_row, query_one, find_by_external_id_tx}
use jungle_gaming_challenge.Usecase.Wager.{
  InputTransaction, OutputTransaction, Outcome, outcome, found_by_external, lookup_existing, replay,
}
use jungle_gaming_challenge.Usecase.Process.{
  replay_or_process, process_once, process_body, new_wager, output, process_transaction_with_inbox,
  process_transaction,
}

-- the transaction of `process_transaction`, and the answer
abbrev answered : InputTransaction → WagerTransaction → Tx OutputTransaction
answered input t = execute_in_transaction (process_once input t) >>= λ o. pure (output o)

-- the session after a query
abbrev next : Session → Session
next s = record s { exchanges = suc s.exchanges }

module _ (env : Env) (up : (n : ℕ) → env.fails n ≡ false) where
  query_run :
      {A : Type 0} (g : Db → A) (s : Session)
      → s.is_aborted ≡ false
      → statement (λ db. done (g db) db) env s ≡ (ok (g s.db), next s)
  unfolding statement
  query_run g s live = rw (live, up s.exchanges) refl

  replay_run :
      (e : WagerTransaction) (s : Session) (row : WalletRow) (w : Wallet)
      → s.is_aborted ≡ false
      → select_wallet e.wallet_id s.db ≡ some row
      → wallet_of_row row ≡ ok w
      → replay e env s ≡ (ok (outcome (mark_as_idempotent_replay e) w true), next s)
  unfolding replay find_by_id_with_lock
  replay_run e s row w live found read =
      ap
        (λ p.
          ◌>>=◌ (◌>>=◌ (λ _ _. p) (λ o. lift (scan_wallet o)))
            (λ v. pure (outcome (mark_as_idempotent_replay e) v true)) env s)
        (query_run (select_wallet e.wallet_id) s live)
      ∙ ap
          (λ x.
            ◌>>=◌ (λ _ _. (x, next s)) (λ v. pure (outcome (mark_as_idempotent_replay e) v true))
              env s)
          (ap scan_wallet found ∙ read)

  committed_run :
      {A : Type 0} (fn : Tx A) (s : Session) (q : Result A × Session)
      → fn env (begun s) ≡ q
      → q.1.is_aborted ≡ false
      → (execute_in_transaction fn env s).0 ≡ q.0
  unfolding execute_in_transaction
  committed_run {A} fn s q run live = rw (up s.exchanges, run) (ended q live)
    where
      ended : (p : Result A × Session) → p.1.is_aborted ≡ false → (finish s.db env p).0 ≡ p.0
      ended (ok a, u) e = rw (e, up u.exchanges) refl
      ended (err x, u) e = refl

  module _ (input : InputTransaction) (t : WagerTransaction) (r : TransactionRow) (s : Session)
      (live : s.is_aborted ≡ false)
      (stored : select_by_external_id input.provider_id input.external_transaction_id s.db
        ≡ some r) where
    looked_up :
        process_once input t env s
        ≡ ◌>>=◌
            (found_by_external input t.payload_hash (some (wager_of_row r)))
            (replay_or_process input t)
            env
            (next s)
    unfolding process_once lookup_existing find_by_external_id_tx query_one
    looked_up =
        ap
          (λ p.
            ◌>>=◌ (◌>>=◌ (λ _ _. p) (found_by_external input t.payload_hash))
              (replay_or_process input t) env s)
          (query_run _ s live)
        ∙ (rw stored refl)

    replayed :
        (row : WalletRow) (w : Wallet)
        → text_eq (wager_of_row r).payload_hash t.payload_hash ≡ true
        → select_wallet (wager_of_row r).wallet_id s.db ≡ some row
        → wallet_of_row row ≡ ok w
        → process_once input t env s
          ≡ (ok (outcome (mark_as_idempotent_replay (wager_of_row r)) w true), next (next s))
    replayed row w same found read =
        looked_up ∙ (rw same (replay_run (wager_of_row r) (next s) row w live found read))

    conflicting :
        text_eq (wager_of_row r).payload_hash t.payload_hash ≡ false
        → process_once input t env s ≡ (err transaction_conflict, next s)
    conflicting other = looked_up ∙ (rw other refl)

answer_of :
    (p : Result Outcome × Session) (q : Result Outcome)
    → p.0 ≡ q
    → (env : Env) (s : Session)
    → (◌>>=◌ (λ _ _. p) (λ o. pure (output o)) env s).0
      ≡ (elim q [ ok o ↦ ok (output o) | err e ↦ err e ])
answer_of (ok a, u) q h env s = rw (← h) refl
answer_of (err e, u) q h env s = rw (← h) refl

module _ (cfg : Config) (input : InputTransaction) (env : Env) (s u : Session)
    (t : WagerTransaction) (r : TransactionRow) (up : (n : ℕ) → env.fails n ≡ false)
    (prepared : new_wager cfg input env s ≡ (ok t, u))
    (stored : select_by_external_id input.provider_id input.external_transaction_id u.db
      ≡ some r) where
  -- A request for a transaction that is already stored with the same payload is answered, where no
  -- exchange with the server fails and the wallet reads back, with the id and the status of the stored row
  -- and the balance of the wallet as it is now, and it says that it is a replay.
  pub repeated-replayed :
      (row : WalletRow) (w : Wallet)
      → text_eq (wager_of_row r).payload_hash t.payload_hash ≡ true
      → select_wallet (wager_of_row r).wallet_id u.db ≡ some row
      → wallet_of_row row ≡ ok w
      → (process_transaction cfg input env s).0
        ≡ ok (record {
          transaction_id = r.id;
          status = status_text r.status;
          balance_amount = to_text w.balance;
          balance_currency = w.balance.currency;
          idempotent_replay = true;
        })
  unfolding process_transaction process_transaction_with_inbox process_body wager_of_row
      rehydrate_wager_transaction mark_as_idempotent_replay
  repeated-replayed row w same found read =
      ap (λ p. (◌>>=◌ (λ _ _. p) (answered input) env s).0) prepared
      ∙ answer_of (execute_in_transaction (process_once input t) env u) _
          (committed_run env up (process_once input t) u _
            (replayed env up input t r (begun u) refl stored row w same found read) refl)
          env u

  -- A request for a transaction that is already stored with another payload is answered with a
  -- conflict, where no exchange with the server fails.
  pub repeated-conflict :
      text_eq (wager_of_row r).payload_hash t.payload_hash ≡ false
      → (process_transaction cfg input env s).0 ≡ err transaction_conflict
  unfolding process_transaction process_transaction_with_inbox process_body
  repeated-conflict other =
      ap (λ p. (◌>>=◌ (λ _ _. p) (answered input) env s).0) prepared
      ∙ answer_of (execute_in_transaction (process_once input t) env u) _
          (committed_run env up (process_once input t) u _
            (conflicting env up input t r (begun u) refl stored other) refl)
          env u
