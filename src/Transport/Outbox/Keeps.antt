-- ===== src/Transport/Outbox/Keeps.antt =====
-- A tick of the publisher keeps what no update of an event, no message sent and no counter takes away.
use jungle_gaming_challenge.Base.{◌+◌, List, [], ◌∷◌}
use jungle_gaming_challenge.Errors.{Result, ok, err}
use jungle_gaming_challenge.Config.{Config}
use jungle_gaming_challenge.Store.{
  Db, Outside, OutboxRow, SentMessage, Counters, add_outbox_published, add_outbox_error,
}
use jungle_gaming_challenge.Store.Update.{mark_published, mark_retry}
use jungle_gaming_challenge.Store.Always.{
  World, Always, bind-Always, attempt-Always, pure-Always, tally-Always, time_now-Always,
  statement-Always, query-Always, queue_call-Always, execute-Always,
}
use jungle_gaming_challenge.Store.Writes.{EventWrite, event_published, event_retried}
use jungle_gaming_challenge.Repository.Messaging.{
  find_pending_outbox_events, mark_outbox_as_published, update_outbox_retry,
}
use jungle_gaming_challenge.Transport.Outbox.{
  message_of, backoff, send, after_send, publish, publish_all, publish_pending, after_round,
  process_pending_events,
}

pub record EventStable (P : World) : Type 0 where
  pub updating : (db db' : Db) (o : Outside) → EventWrite db db' → P db o → P db' o
  pub sending : (db : Db) (o : Outside) (m : SentMessage) → P db o → P db (send m o)
  pub counting : (db : Db) (o : Outside) (c : Counters) → P db o → P db (record o { counters = c })

Beside-EventStable :
    {P : World} (before : Db) → EventStable P → EventStable (λ db o. P db o × P before o)
Beside-EventStable before stable = record {
  updating = λ db db' o w h. (stable.updating db db' o w h.0, h.1);
  sending = λ db o m h. (stable.sending db o m h.0, stable.sending before o m h.1);
  counting = λ db o c h. (stable.counting db o c h.0, stable.counting before o c h.1);
}

module _ {P : World} (stable : EventStable P) (cfg : Config) where
  after_send-Always : (e : OutboxRow) (r : Result (Unit {0})) → Always P (after_send cfg e r)
  unfolding mark_outbox_as_published update_outbox_retry
  after_send-Always e (ok taken) =
      bind-Always
        (bind-Always time_now-Always λ now.
          statement-Always (mark_published now e.id)
            (λ db db' o v h. stable.updating db db' o (event_published now e.id v h)))
        (λ _. tally-Always add_outbox_published (λ db o h. stable.counting db o _ h))
  after_send-Always e (err fault) =
      bind-Always (tally-Always add_outbox_error (λ db o h. stable.counting db o _ h)) λ _.
        bind-Always time_now-Always λ now.
          statement-Always (mark_retry (now + backoff e.attempts) cfg.outbox_max_attempts e.id)
            (λ db db' o v h. stable.updating db db' o (event_retried _ _ _ v h))

  publish_all-Always : (events : List OutboxRow) → Always P (publish_all cfg events)
  unfolding publish_all publish
  publish_all-Always [] = pure-Always tt
  publish_all-Always (e ∷ events) =
      bind-Always
        (bind-Always
          (attempt-Always
            (queue_call-Always (send (message_of cfg e)) (λ db o h. stable.sending db o _ h)))
          (after_send-Always e))
        (λ _. publish_all-Always events)

  publish_pending-Always : Always P (publish_pending cfg)
  unfolding publish_pending find_pending_outbox_events
  publish_pending-Always =
      bind-Always (bind-Always time_now-Always (λ now. query-Always _)) publish_all-Always

  after_round-Always : (r : Result (Unit {0})) → Always P (after_round r)
  after_round-Always (err e) = tally-Always add_outbox_error (λ db o h. stable.counting db o _ h)
  after_round-Always (ok answered) = pure-Always tt

pub publishing-Always :
    {P : World} → EventStable P → (cfg : Config) → Always P (process_pending_events cfg)
unfolding process_pending_events
publishing-Always stable cfg =
    bind-Always
      (attempt-Always (
        execute-Always (publish_pending cfg)
          (λ before. publish_pending-Always (Beside-EventStable before stable) cfg)))
      (after_round-Always stable cfg)
