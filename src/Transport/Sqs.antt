-- ===== src/Transport/Sqs.antt =====
-- internal/infrastructure/transport/sqs_worker.go: what the worker does with one message.
use jungle_gaming_challenge.Base.{
  Bool, true, false, List, [], ◌∷◌, Option, none, some, if◌then◌else◌,
}
use jungle_gaming_challenge.Base.Text.{Text, codes, is_empty}
use jungle_gaming_challenge.Errors.{Result, ok, err, duplicate_message}
use jungle_gaming_challenge.Config.{Config}
use jungle_gaming_challenge.Store.{
  Outside, Tx, ◌>>=◌, ◌>>◌, pure, attempt, queue_call, tally, add_wager_processed, add_sqs_error,
}
use jungle_gaming_challenge.Usecase.Wager.{InputTransaction, InboxClaim, OutputTransaction}
use jungle_gaming_challenge.Usecase.Process.{process_transaction_with_inbox}
pub mod Keeps
pub mod Safety

-- `EnvelopeSQS`, the fields of its `Data` and of their `Money` beside its own
pub record Envelope : Type 0 where
  pub message_id : Text
  pub kind_of_message : Text
  pub occurred_at : Text
  pub provider_id : Text
  pub external_transaction_id : Text
  pub idempotency_key : Text
  pub player_id : Text
  pub wallet_id : Text
  pub round_id : Text
  pub game_id : Text
  pub kind : Text
  pub amount : Text
  pub currency : Text
  pub reference_external_id : Text

-- `types.Message`, with the id that SQS gives, if any
pub record Message : Type 0 where
  pub id : Option Text
  pub body : Text
  pub receipt_handle : Text

-- `json.Unmarshal` of an envelope, and `fmt.Sprintf("%x", sha256.Sum256(...))`
pub record Decoder : Type 0 where
  pub unmarshal : Text → Option Envelope
  pub sha256_hex : Text → Text

abbrev pub input_of : Envelope → InputTransaction
input_of e = record {
  provider_id = e.provider_id;
  external_transaction_id = e.external_transaction_id;
  idempotency_key = e.idempotency_key;
  player_id = e.player_id;
  wallet_id = e.wallet_id;
  round_id = e.round_id;
  game_id = e.game_id;
  kind = e.kind;
  amount = e.amount;
  currency = e.currency;
  reference_external_id = e.reference_external_id;
}

-- the id that SQS gives goes before the one in the envelope
abbrev pub message_id_of : Envelope → Option Text → Text
message_id_of e none = e.message_id
message_id_of e (some id) = if is_empty id then e.message_id else id

abbrev pub claim_of : Decoder → Message → Envelope → InboxClaim
claim_of decoder m e = record {
  consumer_name = codes "sqs_wager_consumer";
  message_id = message_id_of e m.id;
  payload_hash = decoder.sha256_hex m.body;
}

abbrev pub delete : Text → Outside → Outside
delete handle o = record o { deleted = handle ∷ o.deleted }

abbrev pub after_delete : Result (Unit {0}) → Tx (Unit {0})
after_delete (err e) = tally add_sqs_error
after_delete (ok gone) = pure tt

-- `SQSWorker.deleteMessage`
unfoldable pub delete_message : Message → Tx (Unit {0})
delete_message m = do answer ← attempt (queue_call (delete m.receipt_handle)); after_delete answer

abbrev pub after_processing : Message → Result OutputTransaction → Tx (Unit {0})
after_processing m (ok output) = do tally add_wager_processed; delete_message m
after_processing m (err duplicate_message) = delete_message m
after_processing m (err e) = tally add_sqs_error

abbrev pub process_decoded : Decoder → Config → Message → Option Envelope → Tx (Unit {0})
process_decoded decoder cfg m none = tally add_sqs_error
process_decoded decoder cfg m (some e) = do
  answer ← attempt (process_transaction_with_inbox cfg (input_of e) (some (claim_of decoder m e)))
  after_processing m answer

-- `SQSWorker.processSQSEnvelope`
unfoldable pub process_sqs_envelope : Decoder → Config → Message → Tx (Unit {0})
unfolding delete_message
process_sqs_envelope decoder cfg m = process_decoded decoder cfg m (decoder.unmarshal m.body)

unfoldable pub process_all : Decoder → Config → List Message → Tx (Unit {0})
unfolding process_sqs_envelope
process_all decoder cfg [] = pure tt
process_all decoder cfg (m ∷ messages) =
    process_sqs_envelope decoder cfg m >> process_all decoder cfg messages

-- One turn of the loop of `Start`, with what `ReceiveMessage` answers, or none for an error.
unfoldable pub poll : Decoder → Config → Option (List Message) → Tx (Unit {0})
unfolding process_all
poll decoder cfg none = tally add_sqs_error
poll decoder cfg (some messages) = process_all decoder cfg messages
