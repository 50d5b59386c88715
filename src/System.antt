-- ===== src/System.antt =====
-- The whole program: the server and the three workers take turns on one database.
pub mod Interleaved
use jungle_gaming_challenge.Base.{
  ◌≡◌, refl, sym, ap, subst, ◌∙◌, true, List, [], ◌∷◌, ◌++◌, Option, some, inl, inr,
}
use jungle_gaming_challenge.Config.{Config}
use jungle_gaming_challenge.Store.{Db, LedgerRow, Outside, Env, Session}
use jungle_gaming_challenge.Store.Always.{World, Always}
use jungle_gaming_challenge.Store.Writes.{Stable, EventWrite, event_published, event_retried}
use jungle_gaming_challenge.Store.Update.{mark_published}
use jungle_gaming_challenge.Store.Rows.{mark_retry_done}
use jungle_gaming_challenge.Store.Effects.{Write-ledger, Grows}
use jungle_gaming_challenge.Repository.Reconciled.{Reconciled}
use jungle_gaming_challenge.Usecase.Process.Claims.{was_claimed-Stable}
use jungle_gaming_challenge.Usecase.Process.Redelivery.{was_claimed}
use jungle_gaming_challenge.Usecase.Process.Conserves.{process-Reconciled}
use jungle_gaming_challenge.Usecase.OpenWallet.Ledger.{open_wallet-Reconciled}
use jungle_gaming_challenge.Usecase.Resolve.Sound.{resolve-Reconciled}
use jungle_gaming_challenge.Transport.Outbox.{process_pending_events}
use jungle_gaming_challenge.Transport.Outbox.Delivered.{
  Delivered, Delivered-Stable, process_pending_events-Delivered,
}
use jungle_gaming_challenge.Transport.Pending.{process_batch}
use jungle_gaming_challenge.Transport.Outbox.Keeps.{EventStable, publishing-Always}
use jungle_gaming_challenge.Transport.Sqs.{
  Decoder, Message, Envelope, claim_of, process_sqs_envelope, poll,
}
use jungle_gaming_challenge.Transport.Sqs.Keeps.{process_sqs_envelope-idempotent}
use jungle_gaming_challenge.Transport.Auth.{Surroundings}
use jungle_gaming_challenge.Transport.Auth.Keys.{Cache}
use jungle_gaming_challenge.Transport.Server.{Request, serve_http}
use jungle_gaming_challenge.Transport.Kept.{
  Kept, Stable-Kept, poll-Always, process_batch-Always, serve_http-Always,
}

-- One turn, in an environment of its own.
pub data Step (cfg : Config) (s u : Session) : Type 0 where
  served :
      (world : Surroundings) (r : Request) (cache : Cache) (env : Env)
      → u ≡ (serve_http cfg world r cache env s).1
      → Step cfg s u
  received :
      (decoder : Decoder) (answer : Option (List Message)) (env : Env)
      → u ≡ (poll decoder cfg answer env s).1
      → Step cfg s u
  published : (env : Env) → u ≡ (process_pending_events cfg env s).1 → Step cfg s u
  resolved : (env : Env) → u ≡ (process_batch env s).1 → Step cfg s u

-- The sessions that a row of turns leads to.
pub data Reaches (cfg : Config) (s : Session) : Session → Type 0 where
  start : Reaches cfg s s
  turn : {u v : Session} → Reaches cfg s u → Step cfg u v → Reaches cfg s v

module _ {cfg : Config} {P : World} (kept : Kept P)
    (publishing : Always P (process_pending_events cfg)) where
  pub step_keeps : {s u : Session} → Step cfg s u → P s.db s.outside → P u.db u.outside
  step_keeps {s} (served world r cache env h) k =
      subst (λ v. P v.db v.outside) (sym h)
        ((serve_http-Always kept cfg world r cache).runs env s k)
  step_keeps {s} (received decoder answer env h) k =
      subst (λ v. P v.db v.outside) (sym h) ((poll-Always kept decoder cfg answer).runs env s k)
  step_keeps {s} (published env h) k =
      subst (λ v. P v.db v.outside) (sym h) (publishing.runs env s k)
  step_keeps {s} (resolved env h) k =
      subst (λ v. P v.db v.outside) (sym h) ((process_batch-Always kept).runs env s k)

  pub reaches_keeps : {s u : Session} → Reaches cfg s u → P s.db s.outside → P u.db u.outside
  reaches_keeps start k = k
  reaches_keeps (turn path step) k = step_keeps step (reaches_keeps path k)

-- What does not depend on the outbox or on what lies outside.
pub events_apart :
    (P : World)
    → ((db db' : Db) (o o' : Outside)
        → db'.wallets ≡ db.wallets
        → db'.ledger ≡ db.ledger
        → db'.inbox ≡ db.inbox
        → db'.transactions ≡ db.transactions
        → P db o
        → P db' o')
    → EventStable P
unfolding mark_published
events_apart P same = record {
  updating = λ db db' o w h. updated db db' o w h;
  sending = λ db o m h. same db db o _ refl refl refl refl h;
  counting = λ db o c h. same db db o _ refl refl refl refl h;
}
  where
    updated : (db db' : Db) (o : Outside) → EventWrite db db' → P db o → P db' o
    updated db db' o (event_published now id v e) h = same db db' o o (cc e) (cc e) (cc e) (cc e) h
    updated db db' o (event_retried next max id v e) h =
        let row = mark_retry_done next max id db e in
        same db db' o o (ap (λ d. d.wallets) row) (ap (λ d. d.ledger) row) (ap (λ d. d.inbox) row)
          (ap (λ d. d.transactions) row) h

unfoldable pub InBalance : World
InBalance db o = Reconciled db.wallets db.ledger

pub InBalance-Kept : Kept InBalance
unfolding InBalance
InBalance-Kept = record {
  processing =
      λ cfg input inbox. record { runs = λ env s h. process-Reconciled cfg input inbox env s h };
  opening = λ cfg input. record { runs = λ env s h. open_wallet-Reconciled cfg input env s h };
  resolving = λ id. record { runs = λ env s h. resolve-Reconciled id env s h };
  counting = λ db o c h. h;
  deleting = λ db o handle h. h;
}

pub InBalance-EventStable : EventStable InBalance
unfolding InBalance
InBalance-EventStable = events_apart InBalance untouched
  where
    untouched :
        (db db' : Db) (o o' : Outside)
        → db'.wallets ≡ db.wallets
        → db'.ledger ≡ db.ledger
        → db'.inbox ≡ db.inbox
        → db'.transactions ≡ db.transactions
        → InBalance db o
        → InBalance db' o'
    untouched db db' o o' w l i x h =
        subst (λ ls. Reconciled db'.wallets ls) (sym l)
          (subst (λ ws. Reconciled ws db.ledger) (sym w) h)

-- the ledger ends with the entries of an earlier one
abbrev pub EndsWith : List LedgerRow → List LedgerRow → Type 0
EndsWith old new = (front : List LedgerRow) × (new ≡ front ++ old)

Extends : List LedgerRow → World
Extends old db o = EndsWith old db.ledger

Extends-Stable : (old : List LedgerRow) → Stable (Extends old)
unfolding Extends
Extends-Stable old = record { keeps = λ w h. grown _ _ (Write-ledger w) h }
  where
    grown :
        (rows rows' : List LedgerRow)
        → Grows (λ r. Unit) rows rows'
        → EndsWith old rows
        → EndsWith old rows'
    grown rows rows' (inl same) (front, h) = (front, same ∙ h)
    grown rows rows' (inr (r, new, added)) (front, h) = (r ∷ front, added ∙ ap (λ xs. r ∷ xs) h)

-- Whatever the server and the workers do in turn, and whatever of it fails: from a database in which
-- every wallet's balance is the sum of its entries and every published event has been taken by the
-- queue, only such databases are reached.
pub Reaches-Reconciled :
    (cfg : Config) (s u : Session)
    → Reaches cfg s u
    → Reconciled s.db.wallets s.db.ledger
    → Delivered cfg s.db s.outside
    → Reconciled u.db.wallets u.db.ledger × Delivered cfg u.db u.outside
unfolding InBalance
Reaches-Reconciled cfg s u path balanced delivered = (
  reaches_keeps InBalance-Kept (publishing-Always InBalance-EventStable cfg) path balanced,
  reaches_keeps (Stable-Kept (Delivered-Stable cfg) (λ db o c h. h) (λ db o handle h. h))
      (record { runs = λ env s h. process_pending_events-Delivered cfg env s h }) path delivered,
)

-- The ledger is append-only: whatever turns the program takes, the entries that were there stay as they
-- were and in their order, with new ones before them.
pub Reaches-EndsWith :
    (cfg : Config) (s u : Session) → Reaches cfg s u → EndsWith s.db.ledger u.db.ledger
unfolding Extends
Reaches-EndsWith cfg s u path =
    reaches_keeps (Stable-Kept (Extends-Stable s.db.ledger) (λ db o c h. h) (λ db o handle h. h))
      (publishing-Always
        (events_apart (Extends s.db.ledger) (λ db db' o o' w l i x h. (h.0, l ∙ h.1))) cfg)
      path ([], refl)

-- A message is applied once: when the inbox holds its claim, then after any turns of the program its
-- delivery leaves all tables as they are.
pub Reaches-idempotent :
    (cfg : Config) (s u : Session) (decoder : Decoder) (m : Message) (e : Envelope) (env : Env)
    → Reaches cfg s u
    → decoder.unmarshal m.body ≡ some e
    → was_claimed (claim_of decoder m e) s.db.inbox ≡ true
    → (process_sqs_envelope decoder cfg m env u).1.db ≡ u.db
Reaches-idempotent cfg s u decoder m e env path decoded claimed =
    let c = claim_of decoder m e in
    let still =
      reaches_keeps (Stable-Kept (was_claimed-Stable c) (λ db o c h. h) (λ db o handle h. h))
        (publishing-Always
          (events_apart (λ db o. was_claimed c db.inbox ≡ true) (λ db db' o o' w l i x h. rw i h))
          cfg)
        path claimed in
    process_sqs_envelope-idempotent decoder cfg m e env u decoded still
