-- ===== src/Transport/Outbox.antt =====
-- internal/infrastructure/transport/outbox_worker.go: one tick of the publisher of events.
use jungle_gaming_challenge.Base.{
  ℕ, ◌+◌, ◌*◌, ◌^◌, Bool, true, false, List, [], ◌∷◌, Option, none, some, leb, if◌then◌else◌,
}
use jungle_gaming_challenge.Base.Text.{Text, codes, has_suffix}
use jungle_gaming_challenge.Errors.{Result, ok, err}
use jungle_gaming_challenge.Config.{Config}
use jungle_gaming_challenge.Store.{
  OutboxRow, SentMessage, Outside, Tx, ◌>>=◌, ◌>>◌, pure, attempt, time_now, queue_call, tally,
  add_outbox_published, add_outbox_error, execute_in_transaction,
}
use jungle_gaming_challenge.Repository.Messaging.{
  find_pending_outbox_events, mark_outbox_as_published, update_outbox_retry,
}
use jungle_gaming_challenge.Usecase.Process.{second}
pub mod Delivered
pub mod Publishes
pub mod Keeps

-- The message for an event: only a queue whose URL ends in .fifo takes a group and a deduplication id.
unfoldable pub message_of : Config → OutboxRow → SentMessage
message_of cfg event =
    let fifo = has_suffix (codes ".fifo") cfg.events_queue_url in
    record {
      queue_url = cfg.events_queue_url;
      body = event.payload;
      group_id = if fifo then some event.aggregate_id else none;
      deduplication_id = if fifo then some event.id else none;
    }

abbrev min : ℕ → ℕ → ℕ
min m n = if leb m n then m else n

-- time.Duration(1<<min(event.Attempts, 6)) * time.Second, in nanoseconds; the column counts from 0
unfoldable pub backoff : ℕ → ℕ
backoff attempts = 2 ^ min attempts 6 * second

abbrev pub send : SentMessage → Outside → Outside
send m o = record o { sent = m ∷ o.sent }

abbrev pub after_send : Config → OutboxRow → Result (Unit {0}) → Tx (Unit {0})
after_send cfg event (err e) = do
  tally add_outbox_error
  now ← time_now
  update_outbox_retry event.id (now + backoff event.attempts) cfg.outbox_max_attempts
after_send cfg event (ok taken) = do mark_outbox_as_published event.id; tally add_outbox_published

-- the body of the loop
unfoldable pub publish : Config → OutboxRow → Tx (Unit {0})
unfolding message_of backoff
publish cfg event = do
  answer ← attempt (queue_call (send (message_of cfg event)))
  after_send cfg event answer

unfoldable pub publish_all : Config → List OutboxRow → Tx (Unit {0})
publish_all cfg [] = pure tt
publish_all cfg (event ∷ events) = publish cfg event >> publish_all cfg events

-- the closure that `ExecuteInTransaction` runs
unfoldable pub publish_pending : Config → Tx (Unit {0})
unfolding publish publish_all
publish_pending cfg = do events ← find_pending_outbox_events 10; publish_all cfg events

abbrev pub after_round : Result (Unit {0}) → Tx (Unit {0})
after_round (err e) = tally add_outbox_error
after_round (ok answered) = pure tt

-- `OutboxWorker.processPendingEvents`
unfoldable pub process_pending_events : Config → Tx (Unit {0})
unfolding publish_pending
process_pending_events cfg = do
  answer ← attempt (execute_in_transaction (publish_pending cfg))
  after_round answer
