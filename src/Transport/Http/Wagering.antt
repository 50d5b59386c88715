-- ===== src/Transport/Http/Wagering.antt =====
-- `handleProcessTransaction` of internal/infrastructure/transport/http_handler.go.
use jungle_gaming_challenge.Base.{not, Option, none, some, if◌then◌else◌}
use jungle_gaming_challenge.Base.Text.{Text, codes, text_eq}
use jungle_gaming_challenge.Errors.{
  Result, ok, err, Error, transaction_conflict, incompatible_currency, invalid_money_format,
}
use jungle_gaming_challenge.Config.{Config}
use jungle_gaming_challenge.Store.{Tx, ◌>>=◌, ◌>>◌, pure, attempt, tally, add_wager_processed}
use jungle_gaming_challenge.Usecase.Wager.{InputTransaction, OutputTransaction}
use jungle_gaming_challenge.Usecase.Process.{process_transaction}
use jungle_gaming_challenge.Transport.Http.{
  Response, status_ok, bad_request, forbidden, conflict, internal_server_error, wager_output,
  respond_with_message, respond_with_error, is_blank,
}

-- the body of the request, with the fields of its money
pub record WagerBody : Type 0 where
  pub provider_id : Text
  pub external_transaction_id : Text
  pub player_id : Text
  pub wallet_id : Text
  pub round_id : Text
  pub game_id : Text
  pub kind : Text
  pub amount : Text
  pub currency : Text
  pub reference_external_id : Text

abbrev pub input_of : Text → WagerBody → InputTransaction
input_of idempotency_key b = record {
  provider_id = b.provider_id;
  external_transaction_id = b.external_transaction_id;
  idempotency_key = idempotency_key;
  player_id = b.player_id;
  wallet_id = b.wallet_id;
  round_id = b.round_id;
  game_id = b.game_id;
  kind = b.kind;
  amount = b.amount;
  currency = b.currency;
  reference_external_id = b.reference_external_id;
}

-- the answer to an error of the use case
abbrev pub process_error : Error → Response
process_error transaction_conflict =
    respond_with_message conflict (codes "Transaction already processed")
process_error incompatible_currency = respond_with_error bad_request incompatible_currency
process_error invalid_money_format = respond_with_error bad_request invalid_money_format
process_error e = respond_with_error internal_server_error e

abbrev pub processed_response : Result OutputTransaction → Tx Response
processed_response (err e) = pure (process_error e)
processed_response (ok output) = do
  tally add_wager_processed
  pure (record {
    status = status_ok;
    cache_hit = output.idempotent_replay;
    body = wager_output output;
  })

abbrev pub process_for : Config → Text → WagerBody → Tx Response
process_for cfg idempotency_key b = do
  answer ← attempt (process_transaction cfg (input_of idempotency_key b))
  processed_response answer

-- the provider of the context, which the authentication has put there
abbrev pub check_provider : Config → Text → WagerBody → Option Text → Tx Response
check_provider cfg idempotency_key b none =
    pure (respond_with_message internal_server_error (codes "Provider ID not found in context"))
check_provider cfg idempotency_key b (some provider) =
    if not (text_eq b.provider_id provider)
    then pure (respond_with_message forbidden (codes "Access denied: Provider ID mismatch"))
    else process_for cfg idempotency_key b

abbrev pub check_body : Config → Text → Option Text → Option WagerBody → Tx Response
check_body cfg idempotency_key provider none =
    pure (respond_with_message bad_request (codes "Invalid request body"))
check_body cfg idempotency_key provider (some b) = check_provider cfg idempotency_key b provider

-- The header `Idempotency-Key`, the provider of the context, and the body, unless it cannot be decoded.
unfoldable pub handle_process_transaction :
    Config → Text → Option Text → Option WagerBody → Tx Response
handle_process_transaction cfg idempotency_key provider body =
    if is_blank idempotency_key
    then pure (respond_with_message bad_request (codes "Idempotency-Key is required"))
    else check_body cfg idempotency_key provider body
