-- ===== src/Store/Due.antt =====
-- The two SELECT statements with ORDER BY and LIMIT, by which the workers find what is due.
use jungle_gaming_challenge.Base.{ℕ, Bool, true, false, ◌&&◌, List, Option, none, some, leb}
use jungle_gaming_challenge.Base.Sort.{take, filter, sort_by}
use jungle_gaming_challenge.Domain.Wager.{TransactionStatus, pending_reference}
use jungle_gaming_challenge.Store.{
  timestamptz, Db, TransactionRow, OutboxRow, OutboxStatus, pending_event,
}

-- ORDER BY key ASC LIMIT n
abbrev page_of : {A : Type 0} → (A → ℕ) → ℕ → List A → List A
page_of key limit due = take limit (sort_by key due)

-- next_retry_at IS NULL OR next_retry_at <= $1
abbrev retry_is_due : ℕ → Option ℕ → Bool
retry_is_due now none = true
retry_is_due now (some at) = leb at (timestamptz now)

abbrev awaits_reference : TransactionStatus → Bool
awaits_reference pending_reference = true
awaits_reference _ = false

abbrev pub reference_is_due : ℕ → TransactionRow → Bool
reference_is_due now t = awaits_reference t.status && retry_is_due now t.next_retry_at

-- SELECT ... FROM wager_transactions WHERE status = 'PENDING_REFERENCE' AND (next_retry_at IS NULL OR
-- next_retry_at <= $1) ORDER BY created_at ASC LIMIT $2
unfoldable pub select_pending_references : ℕ → ℕ → Db → List TransactionRow
select_pending_references now limit db =
    page_of (λ t. t.created_at) limit (filter (reference_is_due now) db.transactions)

abbrev is_pending : OutboxStatus → Bool
is_pending pending_event = true
is_pending _ = false

abbrev pub event_is_due : ℕ → OutboxRow → Bool
event_is_due now e = is_pending e.status && leb e.next_send_at (timestamptz now)

-- SELECT ... FROM outbox_events WHERE status = 'PENDING' AND next_send_at <= $1 ORDER BY next_send_at
-- ASC LIMIT $2 FOR UPDATE SKIP LOCKED; no row is locked, since there is one session.
unfoldable pub select_pending_events : ℕ → ℕ → Db → List OutboxRow
select_pending_events now limit db =
    page_of (λ e. e.next_send_at) limit (filter (event_is_due now) db.outbox)
