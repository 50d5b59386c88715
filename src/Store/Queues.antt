-- ===== src/Store/Queues.antt =====
-- What lies outside the database: the queues of SQS as the workers use them, and the counters of
-- internal/infrastructure/transport/metrics.go. A rollback does not touch it.
use jungle_gaming_challenge.Base.{List, Option}
use jungle_gaming_challenge.Base.Text.{Text}
use jungle_gaming_challenge.Base.Int.{ℤ, pos, add64}

-- `sqs.SendMessageInput`
pub record SentMessage : Type 0 where
  pub queue_url : Text
  pub body : Text
  pub group_id : Option Text
  pub deduplication_id : Option Text

-- the four `expvar.Int`
pub record Counters : Type 0 where
  pub wagers_processed : ℤ
  pub sqs_errors : ℤ
  pub outbox_published : ℤ
  pub outbox_errors : ℤ

-- The messages that SQS has taken, the newest first; the handles of the messages that it was told to
-- delete; and the counters.
pub record Outside : Type 0 where
  pub sent : List SentMessage
  pub deleted : List Text
  pub counters : Counters

-- `Add(1)` of each counter
unfoldable pub add_wager_processed : Counters → Counters
add_wager_processed c = record c { wagers_processed = add64 c.wagers_processed (pos 1) }

unfoldable pub add_sqs_error : Counters → Counters
add_sqs_error c = record c { sqs_errors = add64 c.sqs_errors (pos 1) }

unfoldable pub add_outbox_published : Counters → Counters
add_outbox_published c = record c { outbox_published = add64 c.outbox_published (pos 1) }

unfoldable pub add_outbox_error : Counters → Counters
add_outbox_error c = record c { outbox_errors = add64 c.outbox_errors (pos 1) }
