-- ===== src/Transport/Start.antt =====
-- `Start` of sqs_worker.go, outbox_worker.go and pending_reference_worker.go, in
-- internal/infrastructure/transport: the loops around the workers' turns. The channels are arguments, and
-- each loop runs on fuel.
use jungle_gaming_challenge.Base.{ℕ, zero, suc, Bool, List, Option, none, some, if◌then◌else◌}
use jungle_gaming_challenge.Config.{Config}
use jungle_gaming_challenge.Store.{Env, Session, Tx}
use jungle_gaming_challenge.Transport.Outbox.{process_pending_events}
use jungle_gaming_challenge.Transport.Pending.{process_batch}
use jungle_gaming_challenge.Transport.Sqs.{Decoder, Message, poll}

-- What a `select` takes: the closed stop channel, or its other case with what that brings.
pub data Look (A : Type 0) : Type 0 where
  stop_received : Look A
  woken : A → Look A

-- `for { select { ... } }` from the look with number `n` on, or none when the fuel runs out before the
-- loop has returned. The turns log their errors and go on.
unfoldable pub loop :
    {A : Type 0} → (A → Tx (Unit {0})) → (ℕ → Look A) → ℕ → ℕ → Env → Session → Option Session
loop turn looks zero n env s = none
loop turn looks (suc fuel) n env s = elim (looks n) [
  | stop_received ↦ some s
  | woken a ↦ loop turn looks fuel (suc n) env (turn a env s).1
]

-- A select with a default: the stop channel, if it is closed at that look, goes first.
abbrev pub sqs_look : (ℕ → Bool) → (ℕ → Option (List Message)) → ℕ → Look (Option (List Message))
sqs_look is_closed received n = if is_closed n then stop_received else woken (received n)

-- `SQSWorker.Start`, with what `ReceiveMessage` answers at each look, none for an error
unfoldable pub start_sqs :
    Decoder → Config → (ℕ → Bool) → (ℕ → Option (List Message)) → ℕ → Env → Session → Option Session
unfolding loop
start_sqs decoder cfg is_closed received fuel env s =
    loop (poll decoder cfg) (sqs_look is_closed received) fuel 0 env s

-- `OutboxWorker.Start`; of the stop channel and a tick a select takes either when both are ready
unfoldable pub start_outbox : Config → (ℕ → Look (Unit {0})) → ℕ → Env → Session → Option Session
unfolding loop
start_outbox cfg looks fuel env s = loop (λ tick. process_pending_events cfg) looks fuel 0 env s

-- `PendingReferenceWorker.Start`
unfoldable pub start_pending : (ℕ → Look (Unit {0})) → ℕ → Env → Session → Option Session
unfolding loop
start_pending looks fuel env s = loop (λ tick. process_batch) looks fuel 0 env s
