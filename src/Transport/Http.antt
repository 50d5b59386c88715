-- ===== src/Transport/Http.antt =====
-- internal/infrastructure/transport/http_handler.go and metrics.go: one function per handler. The body of
-- a request comes decoded, or not at all; that of an answer is the value that the code encodes.
use jungle_gaming_challenge.Base.{
  Bool, true, false, ◌++◌, List, [], ◌∷◌, Option, none, some, not, if◌then◌else◌,
}
use jungle_gaming_challenge.Base.Text.{Text, codes, is_empty, trim_space, text_eq}
use jungle_gaming_challenge.Base.Int.{ℤ}
use jungle_gaming_challenge.Errors.{
  Result, ok, err, Error, transaction_conflict, incompatible_currency, invalid_money_format,
  wallet_row_not_found, wallet_not_found,
}
use jungle_gaming_challenge.Config.{Config}
use jungle_gaming_challenge.Domain.Money.{to_text}
use jungle_gaming_challenge.Domain.Wallet.{Wallet}
use jungle_gaming_challenge.Store.{
  Counters, Tx, ◌>>=◌, ◌>>◌, pure, attempt, pool_query, tally, add_wager_processed,
}
use jungle_gaming_challenge.Repository.Wallet.{find_by_id}
use jungle_gaming_challenge.Usecase.Wager.{InputTransaction, OutputTransaction}
use jungle_gaming_challenge.Usecase.Process.{process_transaction}
use jungle_gaming_challenge.Usecase.OpenWallet.{OpenWalletInput, OpenWalletOutput, open_wallet}
use jungle_gaming_challenge.Usecase.Reconciliation.{ReconciliationOutput, reconcile}
pub mod Wagering
pub mod Answers

-- the status codes that the handlers write
pub data Status : Type 0 where
  status_ok created bad_request unauthorized forbidden not_found conflict : Status
  internal_server_error service_unavailable : Status

-- what `handleGetWallet` encodes
pub record WalletView : Type 0 where
  pub id : Text
  pub player_id : Text
  pub balance_amount : Text
  pub balance_currency : Text
  pub version : ℤ

pub data Body : Type 0 where
  message : Text → Body
  failure : Error → Body
  state : Text → Body
  wallet_opened : OpenWalletOutput → Body
  wallet_view : WalletView → Body
  wager_output : OutputTransaction → Body
  reconciliation : ReconciliationOutput → Body
  metrics : Counters → Body

-- With the header `X-Cache-Lookup`, or without.
pub record Response : Type 0 where
  pub status : Status
  pub cache_hit : Bool
  pub body : Body

abbrev pub respond : Status → Body → Response
respond status body = record { status = status; cache_hit = false; body = body }

-- `respondWithError`, of a fixed text and of `err.Error()`
abbrev pub respond_with_message : Status → Text → Response
respond_with_message status text = respond status (message text)

abbrev pub respond_with_error : Status → Error → Response
respond_with_error status e = respond status (failure e)

abbrev pub is_blank : Text → Bool
is_blank s = is_empty (trim_space s)

abbrev pub handle_liveness : Response
handle_liveness = respond status_ok (state (codes "UP"))

abbrev pub ping_answer : Result (Unit {0}) → Response
ping_answer (err e) = respond_with_message service_unavailable (codes "database not ready")
ping_answer (ok alive) = respond status_ok (state (codes "READY"))

-- `pool.Ping`, an exchange that reads nothing
unfoldable pub handle_readiness : Tx Response
handle_readiness = do
  answer ← attempt (pool_query {A = Unit {0}} (λ db. tt))
  pure (ping_answer answer)

-- `handleMetrics` writes the four counters.
unfoldable pub handle_metrics : Tx Response
handle_metrics env s = (ok (respond status_ok (metrics s.outside.counters)), s)

abbrev pub opened_response : Result OpenWalletOutput → Response
opened_response (err e) = respond_with_error internal_server_error e
opened_response (ok output) = respond created (wallet_opened output)

-- `none` for a body that cannot be read or decoded; the text of the library's error is left out
unfoldable pub handle_create_wallet : Config → Option OpenWalletInput → Tx Response
handle_create_wallet cfg none = pure (respond_with_message bad_request (codes "decode body"))
handle_create_wallet cfg (some input) = do
  answer ← attempt (open_wallet cfg input)
  pure (opened_response answer)

-- an error of a lookup by wallet id
abbrev pub lookup_error : Error → Response
lookup_error wallet_row_not_found = respond_with_message not_found (codes "Wallet not found")
lookup_error wallet_not_found = respond_with_message not_found (codes "Wallet not found")
lookup_error e = respond_with_error internal_server_error e

abbrev view_of : Wallet → WalletView
view_of w = record {
  id = w.id;
  player_id = w.player_id;
  balance_amount = to_text w.balance;
  balance_currency = w.balance.currency;
  version = w.version;
}

abbrev pub wallet_response : Result Wallet → Response
wallet_response (err e) = lookup_error e
wallet_response (ok w) = respond status_ok (wallet_view (view_of w))

unfoldable pub handle_get_wallet : Text → Tx Response
handle_get_wallet wallet_id =
    if is_blank wallet_id
    then pure (respond_with_message bad_request (codes "Wallet ID is required"))
    else do answer ← attempt (find_by_id wallet_id); pure (wallet_response answer)

abbrev pub reconciliation_response : Result ReconciliationOutput → Response
reconciliation_response (err e) = lookup_error e
reconciliation_response (ok output) = respond status_ok (reconciliation output)

unfoldable pub handle_reconciliation : Text → Tx Response
handle_reconciliation wallet_id =
    if is_blank wallet_id
    then pure (respond_with_message bad_request (codes "Wallet ID is required"))
    else do answer ← attempt (reconcile wallet_id); pure (reconciliation_response answer)
