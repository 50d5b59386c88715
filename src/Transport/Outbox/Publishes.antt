-- ===== src/Transport/Outbox/Publishes.antt =====
-- A tick of the publisher in which nothing fails.
use jungle_gaming_challenge.Base.{ℕ, ◌≡◌, true, false, List, some, All}
use jungle_gaming_challenge.Base.Text.{text_eq}
use jungle_gaming_challenge.Config.{Config}
use jungle_gaming_challenge.Store.{timestamptz, Db, OutboxRow, Outside, Session, published_event}
use jungle_gaming_challenge.Store.Update.{update_where}

-- a session whose transaction takes statements
abbrev running : Db → Outside → ℕ → ℕ → Session
running db o exchanges readings = record {
  db = db;
  outside = o;
  is_aborted = false;
  exchanges = exchanges;
  readings = readings;
}

-- every row with the event's id is published
abbrev pub IsPublished : List OutboxRow → OutboxRow → Type 0
IsPublished rows e = All (λ r. text_eq r.id e.id ≡ true → r.status ≡ published_event) rows

-- the rows after the event is marked
abbrev now_published : ℕ → OutboxRow → OutboxRow
now_published now r = record r { status = published_event; published_at = some (timestamptz now) }

abbrev marked : ℕ → OutboxRow → List OutboxRow → List OutboxRow
marked now e = update_where (λ r. text_eq r.id e.id) (now_published now)
