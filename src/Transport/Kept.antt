-- ===== src/Transport/Kept.antt =====
-- What the use cases keep, the handlers and the workers keep.
use jungle_gaming_challenge.Base.{List, [], ◌∷◌, Option, none, some}
use jungle_gaming_challenge.Base.Text.{Text}
use jungle_gaming_challenge.Errors.{Result, ok, err}
use jungle_gaming_challenge.Config.{Config}
use jungle_gaming_challenge.Domain.Wager.{WagerTransaction}
use jungle_gaming_challenge.Store.{Db, Outside, Counters, add_wager_processed, add_sqs_error}
use jungle_gaming_challenge.Store.Always.{
  World, Always, bind-Always, attempt-Always, pure-Always, if-Always, lift-Always, tally-Always,
  time_now-Always, pool_query-Always,
}
use jungle_gaming_challenge.Store.Writes.{Stable}
use jungle_gaming_challenge.Repository.Wallet.{find_by_id, scan_wallet, calculate_ledger_balance}
use jungle_gaming_challenge.Repository.Transaction.{find_pending_references}
use jungle_gaming_challenge.Usecase.Wager.{InputTransaction, InboxClaim, OutputTransaction}
use jungle_gaming_challenge.Usecase.Process.{process_transaction, process_transaction_with_inbox}
use jungle_gaming_challenge.Usecase.Process.Stable.{process-Always}
use jungle_gaming_challenge.Usecase.OpenWallet.{OpenWalletInput, open_wallet}
use jungle_gaming_challenge.Usecase.OpenWallet.Stable.{open_wallet-Always}
use jungle_gaming_challenge.Usecase.Resolve.{resolve_pending_reference}
use jungle_gaming_challenge.Usecase.Resolve.Stable.{resolve-Always}
use jungle_gaming_challenge.Usecase.Reconciliation.{reconcile, report}
use jungle_gaming_challenge.Transport.Sqs.{
  Decoder, Message, delete, process_sqs_envelope, process_all, poll,
}
use jungle_gaming_challenge.Transport.Sqs.Keeps.{process_sqs_envelope-Always}
use jungle_gaming_challenge.Transport.Pending.{resolve_all, resolve_items, process_batch}
use jungle_gaming_challenge.Transport.Http.{
  is_blank, ping_answer, opened_response, wallet_response, reconciliation_response,
  handle_create_wallet, handle_get_wallet, handle_reconciliation, handle_readiness, handle_metrics,
}
use jungle_gaming_challenge.Transport.Http.Wagering.{
  WagerBody, input_of, processed_response, process_error, check_provider, check_body, process_for,
  handle_process_transaction,
}
use jungle_gaming_challenge.Transport.Auth.{
  Surroundings, Decision, passed, authenticated, unauthorized,
}
use jungle_gaming_challenge.Transport.Auth.Keys.{Cache}
use jungle_gaming_challenge.Transport.Server.{
  Request, Route, create_wallet, process_wager, live, ready, metrics_page, get_wallet,
  reconcile_wallet, no_route, handle, respond_to, serve_http,
}

-- The use cases that read keep everything.
module _ {P : World} where
  pub find_by_id-Always : (id : Text) → Always P (find_by_id id)
  unfolding find_by_id
  find_by_id-Always id = bind-Always (pool_query-Always _) (λ row. lift-Always (scan_wallet row))

  pub reconcile-Always : (id : Text) → Always P (reconcile id)
  unfolding reconcile calculate_ledger_balance
  reconcile-Always id = bind-Always (find_by_id-Always id) λ w.
      bind-Always (bind-Always (pool_query-Always _) (λ row. lift-Always _))
        (λ ledger. pure-Always (report id w ledger))

-- Every use case keeps `P`, and the counters and the deleted messages have no part in it.
pub record Kept (P : World) : Type 0 where
  pub processing :
      (cfg : Config) (input : InputTransaction) (inbox : Option InboxClaim)
      → Always P (process_transaction_with_inbox cfg input inbox)
  pub opening : (cfg : Config) (input : OpenWalletInput) → Always P (open_wallet cfg input)
  pub resolving : (id : Text) → Always P (resolve_pending_reference id)
  pub counting : (db : Db) (o : Outside) (c : Counters) → P db o → P db (record o { counters = c })
  pub deleting : (db : Db) (o : Outside) (handle : Text) → P db o → P db (delete handle o)

module _ {P : World} (kept : Kept P) where
  sqs-Always :
      (decoder : Decoder) (cfg : Config) (m : Message)
      → Always P (process_sqs_envelope decoder cfg m)
  sqs-Always decoder cfg m =
      process_sqs_envelope-Always P kept.counting decoder cfg m
        (λ db o h. kept.deleting db o m.receipt_handle h)
        (λ input c. kept.processing cfg input (some c))

  process_all-Always :
      (decoder : Decoder) (cfg : Config) (messages : List Message)
      → Always P (process_all decoder cfg messages)
  unfolding process_all
  process_all-Always decoder cfg [] = pure-Always tt
  process_all-Always decoder cfg (m ∷ messages) =
      bind-Always (sqs-Always decoder cfg m) (λ _. process_all-Always decoder cfg messages)

  pub poll-Always :
      (decoder : Decoder) (cfg : Config) (answer : Option (List Message))
      → Always P (poll decoder cfg answer)
  unfolding poll
  poll-Always decoder cfg none = tally-Always add_sqs_error (λ db o h. kept.counting db o _ h)
  poll-Always decoder cfg (some messages) = process_all-Always decoder cfg messages

  resolve_all-Always : (items : List WagerTransaction) → Always P (resolve_all items)
  unfolding resolve_all
  resolve_all-Always [] = pure-Always tt
  resolve_all-Always (t ∷ items) =
      bind-Always (attempt-Always (kept.resolving t.id)) (λ logged. resolve_all-Always items)

  resolve_items-Always : (r : Result (List WagerTransaction)) → Always P (resolve_items r)
  unfolding resolve_items
  resolve_items-Always (err e) = pure-Always tt
  resolve_items-Always (ok items) = resolve_all-Always items

  pub process_batch-Always : Always P process_batch
  unfolding process_batch find_pending_references
  process_batch-Always =
      bind-Always (attempt-Always (bind-Always time_now-Always (λ now. pool_query-Always _)))
        resolve_items-Always

  processed-Always : (r : Result OutputTransaction) → Always P (processed_response r)
  processed-Always (err e) = pure-Always (process_error e)
  processed-Always (ok o) =
      bind-Always (tally-Always add_wager_processed (λ db u h. kept.counting db u _ h))
        (λ _. pure-Always _)

  process_for-Always :
      (cfg : Config) (key : Text) (b : WagerBody) → Always P (process_for cfg key b)
  unfolding process_transaction
  process_for-Always cfg key b =
      bind-Always (attempt-Always (kept.processing cfg (input_of key b) none)) processed-Always

  check_provider-Always :
      (cfg : Config) (key : Text) (b : WagerBody) (o : Option Text)
      → Always P (check_provider cfg key b o)
  check_provider-Always cfg key b none = pure-Always _
  check_provider-Always cfg key b (some p) =
      if-Always _ (pure-Always _) (process_for-Always cfg key b)

  check_body-Always :
      (cfg : Config) (key : Text) (provider : Option Text) (b : Option WagerBody)
      → Always P (check_body cfg key provider b)
  check_body-Always cfg key provider none = pure-Always _
  check_body-Always cfg key provider (some b) = check_provider-Always cfg key b provider

  create-Always :
      (cfg : Config) (input : Option OpenWalletInput) → Always P (handle_create_wallet cfg input)
  unfolding handle_create_wallet
  create-Always cfg none = pure-Always _
  create-Always cfg (some input) =
      bind-Always (attempt-Always (kept.opening cfg input)) (λ r. pure-Always (opened_response r))

  handle-Always :
      (cfg : Config) (r : Request) (provider : Option Text) (route : Route)
      → Always P (handle cfg r provider route)
  unfolding handle handle_process_transaction handle_readiness handle_metrics handle_get_wallet
      handle_reconciliation
  handle-Always cfg r provider create_wallet = create-Always cfg r.wallet_body
  handle-Always cfg r provider process_wager =
      if-Always (is_blank r.idempotency_key) (pure-Always _)
        (check_body-Always cfg r.idempotency_key provider r.wager_body)
  handle-Always cfg r provider live = pure-Always _
  handle-Always cfg r provider ready =
      bind-Always (attempt-Always (pool_query-Always (λ db. tt))) (λ a. pure-Always (ping_answer a))
  handle-Always cfg r provider metrics_page = record { runs = λ env s h. h }
  handle-Always cfg r provider (get_wallet id) =
      if-Always (is_blank id) (pure-Always _)
        (bind-Always (attempt-Always (find_by_id-Always id)) (λ a. pure-Always (wallet_response a)))
  handle-Always cfg r provider (reconcile_wallet id) = if-Always (is_blank id) (pure-Always _) (
      bind-Always (attempt-Always (reconcile-Always id))
        (λ a. pure-Always (reconciliation_response a)))
  handle-Always cfg r provider no_route = pure-Always _

  respond_to-Always : (cfg : Config) (r : Request) (d : Decision) → Always P (respond_to cfg r d)
  respond_to-Always cfg r passed = handle-Always cfg r none _
  respond_to-Always cfg r (authenticated provider) = handle-Always cfg r (some provider) _
  respond_to-Always cfg r (unauthorized text) = pure-Always _

  pub serve_http-Always :
      (cfg : Config) (world : Surroundings) (r : Request) (cache : Cache)
      → Always P (serve_http cfg world r cache)
  unfolding serve_http
  serve_http-Always cfg world r cache = respond_to-Always cfg r _

-- what no write takes away
pub Stable-Kept :
    {P : World} (stable : Stable P)
    → ((db : Db) (o : Outside) (c : Counters) → P db o → P db (record o { counters = c }))
    → ((db : Db) (o : Outside) (handle : Text) → P db o → P db (delete handle o))
    → Kept P
Stable-Kept stable counting deleting = record {
  processing = process-Always stable;
  opening = open_wallet-Always stable;
  resolving = resolve-Always stable;
  counting = counting;
  deleting = deleting;
}
