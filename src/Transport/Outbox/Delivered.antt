-- ===== src/Transport/Outbox/Delivered.antt =====
-- A published event and the queue: at-least-once delivery, whatever fails.
use mathlib.Core.List.{Mem, mem-cons_self, mem-cons_of_mem}
use jungle_gaming_challenge.Base.{
  ℕ, ◌≡◌, refl, ◌+◌, some, sym, subst, ◌∙◌, arith, Bool, true, false, List, [], ◌∷◌, inl, inr, All,
  All-map, All-map2, All-pick, if◌then◌else◌,
}
use jungle_gaming_challenge.Base.Sort.{All-take, All-filter, sort_by-All}
use jungle_gaming_challenge.Base.Text.{Text, text_eq, text_eq_comm}
use jungle_gaming_challenge.Base.Int.{ℤ, pos, leb_ℤ}
use jungle_gaming_challenge.Errors.{Result, ok, err}
use jungle_gaming_challenge.Config.{Config}
use jungle_gaming_challenge.Store.{
  timestamptz, Db, Env, Session, Outside, OutboxRow, OutboxStatus, Answer, SentMessage,
  published_event, failed_event, done, add_outbox_error, add_outbox_published,
}
use jungle_gaming_challenge.Store.Update.{update_where, mark_published, mark_retry, retried_row}
use jungle_gaming_challenge.Store.Rows.{
  mark_retry_done, UniqueIds, any-false, All-update_where, UniqueIds-update_where,
}
use jungle_gaming_challenge.Store.Due.{select_pending_events, event_is_due}
use jungle_gaming_challenge.Store.Always.{
  World, Always, bind-Always, attempt-Always, pure-Always, tally-Always, time_now-Always,
  statement-Always, execute-Always,
}
use jungle_gaming_challenge.Store.Then.{query_then-Always, time_now_then-Always, queue_then-Always}
use jungle_gaming_challenge.Store.Writes.{Stable}
use jungle_gaming_challenge.Store.Effects.{Write-outbox, Grows, NewEvent}
use jungle_gaming_challenge.Repository.Messaging.{
  find_pending_outbox_events, mark_outbox_as_published, update_outbox_retry,
}
use jungle_gaming_challenge.Transport.Outbox.{
  message_of, backoff, send, after_send, publish, publish_all, publish_pending, after_round,
  process_pending_events,
}

module _ (cfg : Config) where
  -- the queue has taken the message of a published event
  abbrev pub IsSent : List SentMessage → OutboxRow → Type 0
  IsSent sent e = e.status ≡ published_event → Mem (message_of cfg e) sent

  abbrev pub Delivered : World
  Delivered db o = UniqueIds db.outbox × All (IsSent o.sent) db.outbox

  -- the rows with the event's id give its message
  abbrev Alike : List OutboxRow → OutboxRow → Type 0
  Alike rows e = All (λ r. text_eq r.id e.id ≡ true → message_of cfg r ≡ message_of cfg e) rows

  UniqueIds-Alike : (rows : List OutboxRow) → UniqueIds rows → All (Alike rows) rows
  UniqueIds-Alike [] h = tt
  UniqueIds-Alike (e ∷ es) (alone, rest) =
      let apart = any-false (λ r. text_eq r.id e.id) es alone in
      (
        ((λ same. refl), All-map (λ r differs same. absurd (ground arith)) es apart),
        All-map2 (λ r differs alike. ((λ same. absurd (cc (differ r.id e.id differs same))), alike))
            es apart (UniqueIds-Alike es rest),
      )
    where
      differ : (s t : Text) → text_eq s t ≡ false → text_eq t s ≡ true → true ≡ false
      differ s t h k = sym k ∙ (text_eq_comm t s ∙ h)

  select_pending_events-Alike :
      (now limit : ℕ) (db : Db)
      → UniqueIds db.outbox
      → All (Alike db.outbox) (select_pending_events now limit db)
  unfolding select_pending_events
  select_pending_events-Alike now limit db h = All-take (Alike db.outbox) limit _ (
      sort_by-All (λ e. e.next_send_at) (Alike db.outbox) _
        (All-filter (Alike db.outbox) (event_is_due now) db.outbox (UniqueIds-Alike db.outbox h)))

  -- An update of rows that keeps their ids and their messages.
  Alike-update_where :
      (p : OutboxRow → Bool) (f : OutboxRow → OutboxRow)
      → ((e : OutboxRow) → (f e).id ≡ e.id)
      → ((e : OutboxRow) → message_of cfg (f e) ≡ message_of cfg e)
      → (rows : List OutboxRow) (e : OutboxRow) → Alike rows e
      → Alike (update_where p f rows) e
  Alike-update_where p f same_id same_message rows e =
      All-update_where p f (λ r at h same. same_message r ∙ h (rw (← same_id r) same))
        (λ r other h. h) rows

  -- The table of a round, beside the table before it, and the events that the round has found.
  module _ (before : Db) (events : List OutboxRow) where
    abbrev InRound : World
    InRound db o = (Delivered db o × Delivered before o) × All (Alike db.outbox) events

    Delivered-send :
        (m : SentMessage) (db : Db) (o : Outside) → Delivered db o → Delivered db (send m o)
    Delivered-send m db o (unique, sent) =
        (unique, All-map (λ e taken published. mem-cons_of_mem m (taken published)) db.outbox sent)

    -- what one event's part of the round knows
    abbrev Known : OutboxRow → Type 1
    Known e = (P : OutboxRow → Type 0) → All P events → P e

    published :
        (now : ℕ) (e : OutboxRow) (known : Known e) (db db' : Db) (o : Outside) (v : Unit {0})
        → mark_published now e.id db ≡ done v db'
        → InRound db o × Mem (message_of cfg e) o.sent
        → InRound db' o × Mem (message_of cfg e) o.sent
    unfolding message_of mark_published
    published now e known db db' o v h ((((unique, sent), past), alike), taken) =
        let p : OutboxRow → Bool = λ r. text_eq r.id e.id in
        let f : OutboxRow → OutboxRow =
          λ r. record r { status = published_event; published_at = some (timestamptz now) } in
        subst (λ d. InRound d o × Mem (message_of cfg e) o.sent) (same h)
          (
            (
              (
                (
                  UniqueIds-update_where p f db.outbox (λ r. refl) unique,
                  All-update_where
                      {P = λ r.
                        (text_eq r.id e.id ≡ true → message_of cfg r ≡ message_of cfg e)
                        × IsSent o.sent r}
                      p f (λ r at k done. subst (λ m. Mem m o.sent) (sym (k.0 at)) taken)
                      (λ r other k. k.1) db.outbox
                      (All-map2 (λ r a b. (a, b)) db.outbox (known _ alike) sent),
                ),
                past,
              ),
              All-map (Alike-update_where p f (λ r. refl) (λ r. refl) db.outbox) events alike,
            ),
            taken,
          )
      where
        same :
            {v w : Unit {0}} {d d' : Db}
            → ◌≡◌ {A = Answer (Unit {0})} (done v d) (done w d')
            → d ≡ d'
        same e = cc e

    retried :
        (next : ℕ) (max : ℤ) (id : Text) (db db' : Db) (o : Outside) (v : Unit {0})
        → mark_retry next max id db ≡ done v db'
        → InRound db o
        → InRound db' o
    unfolding message_of
    retried next max id db db' o v h (((unique, sent), past), alike) =
        let p : OutboxRow → Bool = λ r. text_eq r.id id in
        let f : OutboxRow → OutboxRow = retried_row next max in
        subst (λ d. InRound d o) (sym (mark_retry_done next max id db h))
          (
            (
              (
                UniqueIds-update_where p f db.outbox (λ r. refl) unique,
                All-update_where p f
                    (λ r at k done. k (unfailed (leb_ℤ max (pos (r.attempts + 1))) r.status done))
                    (λ r other k. k) db.outbox sent,
              ),
              past,
            ),
            All-map (Alike-update_where p f (λ r. refl) (λ r. refl) db.outbox) events alike,
          )
      where
        unfailed :
            (b : Bool) (status : OutboxStatus)
            → (if b then failed_event else status) ≡ published_event
            → status ≡ published_event
        unfailed true status e = absurd (cc e)
        unfailed false status e = e

    publish-Always : (e : OutboxRow) → Known e → Always InRound (publish cfg e)
    unfolding publish mark_outbox_as_published update_outbox_retry
    publish-Always e known =
        queue_then-Always (λ db o. InRound db o × Mem (message_of cfg e) o.sent)
          (send (message_of cfg e)) (after_send cfg e)
          (λ db o h. (
            (
              (
                Delivered-send (message_of cfg e) db o h.0.0,
                Delivered-send (message_of cfg e) before o h.0.1,
              ),
              h.1,
            ),
            mem-cons_self,
          ))
          (bind-Always
            (bind-Always time_now-Always λ now.
              statement-Always (mark_published now e.id)
                (λ db db' o v step h. published now e known db db' o v step h))
            (λ _. tally-Always add_outbox_published (λ db o h. h)))
          (λ db o h. h.0)
          (bind-Always (tally-Always add_outbox_error (λ db o h. h)) λ _.
            bind-Always time_now-Always λ now.
              statement-Always (mark_retry (now + backoff e.attempts) cfg.outbox_max_attempts e.id)
                (λ db db' o v step h. retried _ _ _ db db' o v step h))

    publish_all-Always : (es : List OutboxRow) → All Known es → Always InRound (publish_all cfg es)
    unfolding publish_all
    publish_all-Always [] known = pure-Always tt
    publish_all-Always (e ∷ es) known =
        bind-Always (publish-Always e known.0) (λ _. publish_all-Always es known.1)

  publish_pending-Always :
      (before : Db) → Always (λ db o. Delivered db o × Delivered before o) (publish_pending cfg)
  unfolding publish_pending find_pending_outbox_events
  publish_pending-Always before = time_now_then-Always _ (publish_all cfg) λ now.
      query_then-Always (λ events. InRound before events) (select_pending_events now 10)
        (publish_all cfg) (λ db o h. (h, select_pending_events-Alike now 10 db h.0.0))
        (λ events. publish_all-Always before events events (All-pick events)) (λ events db o h. h.0)

  after_round-Always : (answer : Result (Unit {0})) → Always (Delivered) (after_round answer)
  after_round-Always (err e) = tally-Always add_outbox_error (λ db o h. h)
  after_round-Always (ok answered) = pure-Always tt

  round-Always : Always (Delivered) (process_pending_events cfg)
  unfolding process_pending_events
  round-Always =
      bind-Always (attempt-Always (execute-Always (publish_pending cfg) publish_pending-Always))
        after_round-Always

-- At-least-once delivery. When every published event of the table is a message that the queue has
-- taken, and no two events have one id, then this is so behind a tick of the publisher too, whatever of
-- it fails: SQS, a statement, BEGIN or COMMIT.
pub process_pending_events-Delivered :
    (cfg : Config) (env : Env) (s : Session)
    → Delivered cfg s.db s.outside
    → let u = (process_pending_events cfg env s).1 in Delivered cfg u.db u.outside
process_pending_events-Delivered cfg env s h = (round-Always cfg).runs env s h

-- No write of the use cases takes this away: they leave the outbox as it is or add a pending event.
pub Delivered-Stable : (cfg : Config) → Stable (Delivered cfg)
Delivered-Stable cfg = record { keeps = λ w h. kept _ _ _ (Write-outbox w) h }
  where
    kept :
        (rows rows' : List OutboxRow) (sent : List SentMessage)
        → Grows (NewEvent rows) rows rows'
        → UniqueIds rows × All (IsSent cfg sent) rows
        → UniqueIds rows' × All (IsSent cfg sent) rows'
    kept rows rows' sent (inl same) h =
        subst (λ xs. UniqueIds xs × All (IsSent cfg sent) xs) (sym same) h
    kept rows rows' sent (inr (e, (fresh, alone), added)) (unique, taken) =
        subst (λ xs. UniqueIds xs × All (IsSent cfg sent) xs) (sym added)
          ((alone, unique), ((λ published. absurd (cc (sym fresh ∙ published))), taken))
