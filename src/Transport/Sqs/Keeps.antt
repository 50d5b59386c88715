-- ===== src/Transport/Sqs/Keeps.antt =====
-- What a message leaves alone.
use jungle_gaming_challenge.Base.{◌≡◌, refl, ◌∙◌, true, Option, none, some}
use jungle_gaming_challenge.Errors.{Result, ok, err, duplicate_message}
use jungle_gaming_challenge.Config.{Config}
use jungle_gaming_challenge.Store.{Db, Env, Session, Outside, add_sqs_error, add_wager_processed}
use jungle_gaming_challenge.Store.Always.{
  World, Always, bind-Always, attempt-Always, pure-Always, tally-Always, queue_call-Always,
}
use jungle_gaming_challenge.Usecase.Wager.{InboxClaim, InputTransaction, OutputTransaction}
use jungle_gaming_challenge.Usecase.Process.{process_transaction_with_inbox}
use jungle_gaming_challenge.Usecase.Process.Redelivery.{was_claimed, redelivery-Fails}
use jungle_gaming_challenge.Transport.Sqs.{
  Decoder, Envelope, Message, input_of, claim_of, delete, delete_message, after_delete,
  after_processing, process_decoded, process_sqs_envelope,
}

-- What the tail of the worker touches: the queue and the counters.
module _ (P : World)
    (counted : (db : Db) (o : Outside) (c : _) → P db o → P db (record o { counters = c })) where
  pub after_delete-Always : (r : Result (Unit {0})) → Always P (after_delete r)
  after_delete-Always (err e) = tally-Always add_sqs_error (λ db o h. counted db o _ h)
  after_delete-Always (ok gone) = pure-Always tt

  delete_message-Always :
      (m : Message)
      → ((db : Db) (o : Outside) → P db o → P db (delete m.receipt_handle o))
      → Always P (delete_message m)
  unfolding delete_message
  delete_message-Always m kept =
      bind-Always (attempt-Always (queue_call-Always (delete m.receipt_handle) kept))
        after_delete-Always

  after_processing-Always :
      (m : Message) (r : Result OutputTransaction)
      → ((db : Db) (o : Outside) → P db o → P db (delete m.receipt_handle o))
      → Always P (after_processing m r)
  after_processing-Always m (ok output) kept =
      bind-Always (tally-Always add_wager_processed (λ db o h. counted db o _ h))
        (λ _. delete_message-Always m kept)
  after_processing-Always m (err duplicate_message) kept = delete_message-Always m kept
  after_processing-Always m (err e) kept = tally-Always add_sqs_error (λ db o h. counted db o _ h)

  -- The worker keeps what the use case keeps.
  pub process_sqs_envelope-Always :
      (decoder : Decoder) (cfg : Config) (m : Message)
      → ((db : Db) (o : Outside) → P db o → P db (delete m.receipt_handle o))
      → ((input : InputTransaction) (c : InboxClaim)
          → Always P (process_transaction_with_inbox cfg input (some c)))
      → Always P (process_sqs_envelope decoder cfg m)
  unfolding process_sqs_envelope
  process_sqs_envelope-Always decoder cfg m kept processing = by_body (decoder.unmarshal m.body)
    where
      by_body : (o : Option Envelope) → Always P (process_decoded decoder cfg m o)
      by_body none = tally-Always add_sqs_error (λ db o h. counted db o _ h)
      by_body (some e) =
          bind-Always (attempt-Always (processing (input_of e) (claim_of decoder m e)))
            (λ answer. after_processing-Always m answer kept)

-- The tables stay as they are in `before`.
abbrev Same : Db → World
Same before db o = db ≡ before

pub after_processing_same :
    (m : Message) (r : Result OutputTransaction) (env : Env) (s : Session)
    → (after_processing m r env s).1.db ≡ s.db
after_processing_same m r env s =
    (after_processing-Always (Same s.db) (λ db o c h. h) m r (λ db o h. h)).runs env s refl

-- A message whose claim the inbox holds changes no table however often it is delivered: whatever it
-- carries, and whatever fails.
pub process_sqs_envelope-idempotent :
    (decoder : Decoder) (cfg : Config) (m : Message) (e : Envelope) (env : Env) (s : Session)
    → decoder.unmarshal m.body ≡ some e
    → was_claimed (claim_of decoder m e) s.db.inbox ≡ true
    → (process_sqs_envelope decoder cfg m env s).1.db ≡ s.db
unfolding process_sqs_envelope
process_sqs_envelope-idempotent decoder cfg m e env s decoded claimed =
    let p = process_transaction_with_inbox cfg (input_of e) (some (claim_of decoder m e)) env s in
    let same = (redelivery-Fails cfg (input_of e) (claim_of decoder m e) env s claimed).1 in
    rw decoded (after_processing_same m p.0 env p.1 ∙ same)
