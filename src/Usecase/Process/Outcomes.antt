-- ===== src/Usecase/Process/Outcomes.antt =====
-- The database under `ProcessTransaction` for a request whose transaction is already stored.
use jungle_gaming_challenge.Base.{◌≡◌, refl, sym, subst, ◌∙◌, Bool, true, false, none, some}
use jungle_gaming_challenge.Base.Text.{Text, text_eq}
use jungle_gaming_challenge.Errors.{Result, ok, err}
use jungle_gaming_challenge.Config.{Config}
use jungle_gaming_challenge.Domain.Wager.{WagerTransaction, mark_as_idempotent_replay}
use jungle_gaming_challenge.Store.{
  Db, TransactionRow, Env, Session, ◌>>=◌, pure, statement, done, execute_in_transaction,
}
use jungle_gaming_challenge.Store.Update.{select_by_external_id, select_wallet}
use jungle_gaming_challenge.Store.Rules.{statement_cases}
use jungle_gaming_challenge.Store.Reads.{Reads, bind-Reads, lift-Reads, begun, transaction_same}
use jungle_gaming_challenge.Repository.Wallet.{find_by_id_with_lock, scan_wallet}
use jungle_gaming_challenge.Repository.Transaction.{
  wager_of_row, query_one, find_by_external_id_tx, scan_one,
}
use jungle_gaming_challenge.Usecase.Wager.{
  InputTransaction, outcome, found_by_external, lookup_existing, replay,
}
use jungle_gaming_challenge.Usecase.Process.{
  replay_or_process, process_once, process_body, new_wager, output, process_transaction_with_inbox,
  process_transaction,
}
use jungle_gaming_challenge.Usecase.Process.Redelivery.{new_wager-Reads}

query-Reads : {A : Type 0} (g : Db → A) → Reads (statement (λ db. done (g db) db))
query-Reads g = record {
  runs = λ env s.
      statement_cases (λ db. done (g db) db) env s (λ q. q.1.db ≡ s.db) (λ e u same. same)
        (λ v u e. cc e);
}

find_by_id_with_lock-Reads : (id : Text) → Reads (find_by_id_with_lock id)
unfolding find_by_id_with_lock
find_by_id_with_lock-Reads id =
    bind-Reads _ _ (query-Reads (select_wallet id)) (λ row. lift-Reads (scan_wallet row))

replay-Reads : (t : WagerTransaction) → Reads (replay t)
unfolding replay
replay-Reads t =
    bind-Reads _ (λ w. pure (outcome (mark_as_idempotent_replay t) w true))
      (find_by_id_with_lock-Reads t.wallet_id) (λ w. record { runs = λ env s. refl })

module _ (input : InputTransaction) (t : WagerTransaction) (env : Env) where
  found_unchanged :
      (r : WagerTransaction) (u : Session)
      → (◌>>=◌
          (found_by_external input t.payload_hash (some r))
          (replay_or_process input t)
          env
          u).1.db
        ≡ u.db
  found_unchanged r u = at (text_eq r.payload_hash t.payload_hash) refl
    where
      at :
          (b : Bool)
          → text_eq r.payload_hash t.payload_hash ≡ b
          → (◌>>=◌
              (found_by_external input t.payload_hash (some r))
              (replay_or_process input t)
              env
              u).1.db
            ≡ u.db
      at true e = rw e ((replay-Reads r).runs env u)
      at false e = rw e refl

  process_once-unchanged :
      (s : Session) (r : TransactionRow)
      → select_by_external_id input.provider_id input.external_transaction_id s.db ≡ some r
      → (process_once input t env s).1.db ≡ s.db
  unfolding process_once lookup_existing find_by_external_id_tx query_one
  process_once-unchanged s r stored =
      statement_cases
        (λ db.
          done (scan_one (select_by_external_id input.provider_id input.external_transaction_id db))
            db)
        env s
        (λ q.
          (◌>>=◌ (◌>>=◌ (λ _ _. q) (found_by_external input t.payload_hash))
            (replay_or_process input t) env s).1.db
          ≡ s.db)
        (λ e u same. same)
        (λ v u e.
          let same : u.db ≡ s.db = cc e in
          let row : v ≡ some (wager_of_row r) = cc (rw stored at e) in
          rw row (found_unchanged (wager_of_row r) u ∙ same))

map_unchanged :
    {A B : Type 0} (g : A → B) (env : Env) (s : Session) (p : Result A × Session)
    → (◌>>=◌ (λ _ _. p) (λ a. pure (g a)) env s).1.db ≡ p.1.db
map_unchanged g env s (ok a, u) = refl
map_unchanged g env s (err e, u) = refl

-- A request whose external transaction the provider has already had stored writes nothing: for every
-- configuration, with or without failures, the database is as it was, whether the answer is the stored
-- result, a conflict or another error.
pub repeated-unchanged :
    (cfg : Config) (input : InputTransaction) (env : Env) (s : Session) (r : TransactionRow)
    → select_by_external_id input.provider_id input.external_transaction_id s.db ≡ some r
    → (process_transaction cfg input env s).1.db ≡ s.db
unfolding process_transaction process_transaction_with_inbox process_body
repeated-unchanged cfg input env s r stored =
    prepared (new_wager cfg input env s) ((new_wager-Reads cfg input).runs env s)
  where
    prepared :
        (p : Result WagerTransaction × Session)
        → p.1.db ≡ s.db
        → (◌>>=◌
            (λ _ _. p)
            (λ t. execute_in_transaction (process_body input t none) >>= λ o. pure (output o))
            env
            s).1.db
          ≡ s.db
    prepared (err e, u) k = k
    prepared (ok t, u) k =
        let row =
          subst
            (λ db.
              select_by_external_id input.provider_id input.external_transaction_id db ≡ some r)
            (sym k) stored in
        map_unchanged output env u (execute_in_transaction (process_once input t) env u)
        ∙ transaction_same (process_once input t) env u
            (process_once-unchanged input t env (begun u) r row)
        ∙ k
