-- ===== src/Repository/Messaging.antt =====
-- internal/infrastructure/repository/messaging_repository.go.
use jungle_gaming_challenge.Base.{ℕ, List, none}
use jungle_gaming_challenge.Base.Text.{Text}
use jungle_gaming_challenge.Base.Int.{ℤ}
use jungle_gaming_challenge.Errors.{Error, database, unique_violation, duplicate_message}
use jungle_gaming_challenge.Store.{
  timestamptz, OutboxRow, InboxRow, pending_event, Tx, ◌>>=◌, map_error, statement, done, time_now,
}
use jungle_gaming_challenge.Store.Insert.{insert_outbox, insert_inbox}
use jungle_gaming_challenge.Store.Due.{select_pending_events}
use jungle_gaming_challenge.Store.Update.{mark_published, mark_retry}

-- The columns of `OutboxEventDTO` that INSERT writes; the others take their defaults, zero attempts
-- and no time of publication. Every caller gives the status 'PENDING'.
abbrev pub outbox_row : Text → Text → Text → Text → ℕ → OutboxRow
outbox_row id aggregate_id event_type payload now = record {
  id = id;
  aggregate_id = aggregate_id;
  event_type = event_type;
  payload = payload;
  attempts = 0;
  status = pending_event;
  next_send_at = timestamptz now;
  created_at = timestamptz now;
  published_at = none;
}

unfoldable pub save_outbox : OutboxRow → Tx (Unit {0})
save_outbox event = statement (insert_outbox event)

abbrev pub inbox_error : Error → Error
inbox_error (database unique_violation) = duplicate_message
inbox_error e = e

abbrev pub inbox_row : Text → Text → Text → ℕ → InboxRow
inbox_row consumer_name message_id payload_hash now = record {
  message_id = message_id;
  consumer_name = consumer_name;
  payload_hash = payload_hash;
  received_at = timestamptz now;
  processed_at = timestamptz now;
}

-- `now()` is the server's clock, taken here from the same readings.
unfoldable pub save_inbox : Text → Text → Text → Tx (Unit {0})
save_inbox consumer_name message_id payload_hash = do
  now ← time_now
  map_error inbox_error
      (statement (insert_inbox (inbox_row consumer_name message_id payload_hash now)))

unfoldable pub find_pending_outbox_events : ℕ → Tx (List OutboxRow)
find_pending_outbox_events limit = do
  now ← time_now
  statement (λ db. done (select_pending_events now limit db) db)

unfoldable pub mark_outbox_as_published : Text → Tx (Unit {0})
mark_outbox_as_published id = do now ← time_now; statement (mark_published now id)

unfoldable pub update_outbox_retry : Text → ℕ → ℤ → Tx (Unit {0})
update_outbox_retry id next_send_at max_attempts =
    statement (mark_retry next_send_at max_attempts id)
