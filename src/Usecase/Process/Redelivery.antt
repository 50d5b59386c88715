-- ===== src/Usecase/Process/Redelivery.antt =====
-- `ProcessTransactionWithInbox` on a message that was claimed before, and where it fails.
use jungle_gaming_challenge.Base.{
  ℕ, suc, ◌≡◌, refl, sym, ◌∙◌, ◌∷◌, subst, Bool, true, false, ◌&&◌, not, List, some,
}
use jungle_gaming_challenge.Base.Text.{text_eq}
use jungle_gaming_challenge.Errors.{
  Result, ok, err, Error, DbError, fault, begin_failed, fail_if, incompatible_currency,
  duplicate_message, database, aborted,
}
use jungle_gaming_challenge.Config.{Config}
use jungle_gaming_challenge.Domain.Money.{new_money_from_string, is_currency_supported}
use jungle_gaming_challenge.Domain.Wager.{WagerTransaction, new_wager_transaction, transaction_kind}
use jungle_gaming_challenge.Store.{
  Answer, refused, map_error, Db, InboxRow, Env, Session, Tx, ◌>>=◌, attempt, pure, time_now,
  statement, execute_in_transaction, finish,
}
use jungle_gaming_challenge.Store.Insert.{any, insert_inbox, checked_duplicate}
use jungle_gaming_challenge.Store.Reads.{Reads, bind-Reads, lift-Reads, time_now-Reads, begun}
use jungle_gaming_challenge.Repository.Transaction.{find_by_external_id_tx, query_one}
use jungle_gaming_challenge.Repository.Messaging.{save_inbox, inbox_row, inbox_error}
use jungle_gaming_challenge.Usecase.Wager.{InboxClaim, InputTransaction}
use jungle_gaming_challenge.Usecase.Process.{
  after_claim, replay_claimed, process_body, new_wager, hashed, output, internal_tx_id,
  process_transaction_with_inbox,
}

hashed-Reads : (t : WagerTransaction) → Reads (hashed t)
hashed-Reads t = record { runs = λ env s. refl }

pub new_wager-Reads : (cfg : Config) (input : InputTransaction) → Reads (new_wager cfg input)
unfolding new_wager
new_wager-Reads cfg input =
    bind-Reads _ _ (lift-Reads (new_money_from_string input.amount input.currency)) λ money.
      bind-Reads _ _
        (lift-Reads (
          fail_if (not (is_currency_supported money cfg.supported_currencies))
            incompatible_currency))
        λ _. bind-Reads _ _ time_now-Reads λ now.
          bind-Reads _ _
            (lift-Reads (
              new_wager_transaction (internal_tx_id input.provider_id input.external_transaction_id)
                input.provider_id input.external_transaction_id input.idempotency_key
                input.wallet_id input.player_id input.round_id input.game_id
                (transaction_kind input.kind) money input.reference_external_id now))
            hashed-Reads

-- an error, in a transaction that takes no more statements
abbrev Aborted : {A : Type 0} → Result A × Session → Type 0
Aborted p = (e : Error) × (p.0 ≡ err e) × (p.1.is_aborted ≡ true)

-- The inbox holds the message for the consumer.
abbrev pub was_claimed : InboxClaim → List InboxRow → Bool
was_claimed c =
    any (λ m. text_eq m.consumer_name c.consumer_name && text_eq m.message_id c.message_id)

abbrev pub Fails : {A : Type 0} → Result A × Session → Type 0
Fails p = (e : Error) × (p.0 ≡ err e)

refused_claim :
    (c : InboxClaim) (now : ℕ) (db : Db)
    → was_claimed c db.inbox ≡ true
    → (e : DbError) × (insert_inbox (inbox_row c.consumer_name c.message_id c.payload_hash now) db
        ≡ refused e)
unfolding insert_inbox
refused_claim c now db h = rw h (
    checked_duplicate _ false false
      (record db { inbox = inbox_row c.consumer_name c.message_id c.payload_hash now ∷ db.inbox }))

statement-Aborted :
    {A : Type 0} (f : Db → Answer A) (env : Env) (s : Session) (e : DbError)
    → f s.db ≡ refused e
    → Aborted (statement f env s)
unfolding statement
statement-Aborted f env s e h = at s.is_aborted (env.fails s.exchanges) refl refl
  where
    at : (b c : Bool) → s.is_aborted ≡ b → env.fails s.exchanges ≡ c → Aborted (statement f env s)
    at true c hb hc = (database aborted, rw hb refl, rw hb refl)
    at false true hb hc = (database fault, rw (hb, hc) refl, rw (hb, hc) refl)
    at false false hb hc = (database e, rw (hb, hc, h) refl, rw (hb, hc, h) refl)

map_error-Aborted :
    {A : Type 0} (g : Error → Error) (m : Tx A) (env : Env) (s : Session)
    → Aborted (m env s)
    → Aborted (map_error g m env s)
map_error-Aborted g m env s (e, failed, stuck) = (g e, rw failed refl, stuck)

save_inbox-Aborted :
    (c : InboxClaim) (env : Env) (s : Session)
    → was_claimed c s.db.inbox ≡ true
    → Aborted (save_inbox c.consumer_name c.message_id c.payload_hash env s)
unfolding save_inbox time_now
save_inbox-Aborted c env s h =
    let now = env.clock s.readings in
    let (e, refusal) = refused_claim c now s.db h in
    let insertion = insert_inbox (inbox_row c.consumer_name c.message_id c.payload_hash now) in
    let read = record s { readings = suc s.readings } in
    map_error-Aborted inbox_error (statement insertion) env read
      (statement-Aborted insertion env read e refusal)

-- In an aborted transaction the lookup of the stored transaction fails.
replay_claimed-Fails :
    (input : InputTransaction) (t : WagerTransaction) (env : Env) (u : Session)
    → u.is_aborted ≡ true
    → Fails (replay_claimed input t env u)
unfolding replay_claimed find_by_external_id_tx query_one statement
replay_claimed-Fails input t env u h = (database aborted, rw h refl)

pub after_claim-Fails :
    (input : InputTransaction) (t : WagerTransaction) (e : Error) (env : Env) (u : Session)
    → u.is_aborted ≡ true
    → Fails (after_claim input t (err e) env u)
after_claim-Fails input t duplicate_message env u h = replay_claimed-Fails input t env u h
after_claim-Fails input t e env u h = (e, refl)

process_body-Fails :
    (input : InputTransaction) (t : WagerTransaction) (c : InboxClaim) (env : Env) (s : Session)
    → was_claimed c s.db.inbox ≡ true
    → Fails (process_body input t (some c) env s)
unfolding process_body
process_body-Fails input t c env s h = after _ (save_inbox-Aborted c env s h)
  where
    after :
        (p : Result (Unit {0}) × Session)
        → Aborted p
        → Fails (◌>>=◌ (attempt (λ _ _. p)) (after_claim input t) env s)
    after (ok a, u) k = absurd (cc k.1)
    after (err e, u) k = after_claim-Fails input t e env u k.2

-- an error, and the database of the session
abbrev Refuses : {A : Type 0} → Session → Result A × Session → Type 0
Refuses s p = Fails p × (p.1.db ≡ s.db)

finish-Refuses :
    {A : Type 0} (s : Session) (env : Env) (p : Result A × Session)
    → Fails p
    → Refuses s (finish s.db env p)
finish-Refuses s env (ok a, u) k = absurd (cc k.1)
finish-Refuses s env (err e, u) k = ((e, refl), refl)

-- A body that fails is rolled back.
transaction-Refuses :
    {A : Type 0} (fn : Tx A) (env : Env) (s : Session)
    → Fails (fn env (begun s))
    → Refuses s (execute_in_transaction fn env s)
unfolding execute_in_transaction
transaction-Refuses fn env s k = at (env.fails s.exchanges) refl
  where
    at : (b : Bool) → env.fails s.exchanges ≡ b → Refuses s (execute_in_transaction fn env s)
    at true e = rw e ((begin_failed, refl), refl)
    at false e = rw e (finish-Refuses s env (fn env (begun s)) k)

bind-Refuses :
    {A B : Type 0} (f : A → Tx B) (env : Env) (s : Session) (p : Result A × Session)
    → Refuses s p
    → Refuses s (◌>>=◌ (λ _ _. p) f env s)
bind-Refuses f env s (ok a, u) k = absurd (cc k.0.1)
bind-Refuses f env s (err e, u) k = ((e, refl), k.1)

-- A message that the inbox already holds for its consumer is not applied again, and not replayed either:
-- for every request, configuration and database with such a row, with or without failures, the call is
-- answered with an error and the database is as it was.
pub redelivery-Fails :
    (cfg : Config) (input : InputTransaction) (c : InboxClaim) (env : Env) (s : Session)
    → was_claimed c s.db.inbox ≡ true
    → let p = process_transaction_with_inbox cfg input (some c) env s in
      ((e : Error) × (p.0 ≡ err e)) × (p.1.db ≡ s.db)
unfolding process_transaction_with_inbox
redelivery-Fails cfg input c env s h =
    prepared (new_wager cfg input env s) ((new_wager-Reads cfg input).runs env s)
  where
    prepared :
        (p : Result WagerTransaction × Session)
        → p.1.db ≡ s.db
        → Refuses s (
            ◌>>=◌
              (λ _ _. p)
              (λ t. execute_in_transaction (process_body input t (some c)) >>= λ o. pure (output o))
              env
              s)
    prepared (err e, u) k = ((e, refl), k)
    prepared (ok t, u) k =
        let (failed, same) =
          bind-Refuses (λ o. pure (output o)) env u
            (execute_in_transaction (process_body input t (some c)) env u)
            (transaction-Refuses (process_body input t (some c)) env u (
              process_body-Fails input t c env (begun u)
                (subst (λ db. was_claimed c db.inbox ≡ true) (sym k) h))) in
        (failed, same ∙ k)
