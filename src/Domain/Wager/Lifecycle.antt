-- ===== src/Domain/Wager/Lifecycle.antt =====
-- The transition methods of a transaction, and sequences of calls of its methods.
use jungle_gaming_challenge.Base.{ℕ, ◌≡◌, ◌≢◌, refl, sym, ◌∙◌, ◌⊎◌, inl, inr, true, [], ◌∷◌, List}
use jungle_gaming_challenge.Base.Text.{Text}
use jungle_gaming_challenge.Errors.{
  Result, ok, err, terminal_state_transition, failure_code_required,
}
use jungle_gaming_challenge.Domain.Wager.{
  WagerTransaction, TransactionStatus, pending, pending_reference, processed, rejected, failed,
  is_terminal_status, transition_to_processed, transition_to_pending_reference,
  transition_to_rejected,
}

-- The calls of the three methods.
pub data Call : Type 0 where
  process defer : Call
  reject : Text → Call

pub call : Call → WagerTransaction → ℕ → Result WagerTransaction
call process t now = transition_to_processed t now
call defer t now = transition_to_pending_reference t now
call (reject code) t now = transition_to_rejected t code now

-- The status that each method is for.
abbrev pub target : Call → TransactionStatus
target process = processed
target defer = pending_reference
target (reject code) = rejected

-- The statuses that a transaction can leave.
abbrev pub IsOpen : TransactionStatus → Type 0
IsOpen s = (s ≡ pending) ⊎ (s ≡ pending_reference)

abbrev pub IsClosed : TransactionStatus → Type 0
IsClosed s = (s ≡ processed) ⊎ (s ≡ rejected) ⊎ (s ≡ failed)

-- A call that succeeds moves an open transaction to the status of its method, and changes nothing of its
-- identity or its money; the two errors have their conditions.
abbrev pub Moves : Call → WagerTransaction → Result WagerTransaction → Type 0
Moves c t (ok u) =
    IsOpen t.status × (c ≢ reject []) × (u.status ≡ target c) × (u.id ≡ t.id) × (u.money ≡ t.money)
Moves c t (err terminal_state_transition) = IsClosed t.status
Moves c t (err failure_code_required) = (c ≡ reject []) × IsOpen t.status
Moves c t (err _) = ⊥

status_step :
    (c : Call) (t : WagerTransaction) (now : ℕ) (s : TransactionStatus)
    → t.status ≡ s
    → Moves c t (call c t now)
unfolding call transition_to_processed transition_to_pending_reference transition_to_rejected
status_step process t now pending e = rw e (inl refl, (λ h. cc h), refl, refl, refl)
status_step process t now pending_reference e = rw e (inr refl, (λ h. cc h), refl, refl, refl)
status_step process t now processed e = rw e (inl refl)
status_step process t now rejected e = rw e (inr (inl refl))
status_step process t now failed e = rw e (inr (inr refl))
status_step defer t now pending e = rw e (inl refl, (λ h. cc h), refl, refl, refl)
status_step defer t now pending_reference e = rw e (inr refl, (λ h. cc h), refl, refl, refl)
status_step defer t now processed e = rw e (inl refl)
status_step defer t now rejected e = rw e (inr (inl refl))
status_step defer t now failed e = rw e (inr (inr refl))
status_step (reject []) t now pending e = rw e (refl, inl refl)
status_step (reject []) t now pending_reference e = rw e (refl, inr refl)
status_step (reject (c ∷ code)) t now pending e = rw e (inl refl, (λ h. cc h), refl, refl, refl)
status_step (reject (c ∷ code)) t now pending_reference e =
    rw e (inr refl, (λ h. cc h), refl, refl, refl)
status_step (reject code) t now processed e = rw e (inl refl)
status_step (reject code) t now rejected e = rw e (inr (inl refl))
status_step (reject code) t now failed e = rw e (inr (inr refl))

-- A call of a transition method on a transaction that is PENDING or PENDING_REFERENCE succeeds, and then
-- the status is the one of the method, PROCESSED, PENDING_REFERENCE or REJECTED, under the same id and
-- with the same money, but for a rejection without a failure code, which fails for that; on a
-- transaction that is PROCESSED, REJECTED or FAILED it fails because the status is terminal. No other
-- error occurs.
pub call-Moves : (c : Call) (t : WagerTransaction) (now : ℕ) → Moves c t (call c t now)
call-Moves c t now = status_step c t now t.status refl

-- What the caller holds after a call.
abbrev kept : WagerTransaction → Result WagerTransaction → WagerTransaction
kept t (ok u) = u
kept t (err e) = t

-- A caller that keeps its transaction when a call fails.
pub run : List (Call × ℕ) → WagerTransaction → WagerTransaction
run [] t = t
run ((c, now) ∷ cs) t = run cs (kept t (call c t now))

terminal_call :
    (c : Call) (t : WagerTransaction) (now : ℕ)
    → is_terminal_status t.status ≡ true
    → call c t now ≡ err terminal_state_transition
unfolding call transition_to_processed transition_to_pending_reference transition_to_rejected
terminal_call process t now h = rw h
terminal_call defer t now h = rw h
terminal_call (reject code) t now h = rw h

-- A transaction that has been processed, rejected or has failed never changes again, whatever calls
-- of the transition methods follow.
pub run_terminal :
    (cs : List (Call × ℕ)) (t : WagerTransaction)
    → is_terminal_status t.status ≡ true
    → run cs t ≡ t
unfolding run
run_terminal [] t h = refl
run_terminal ((c, now) ∷ cs) t h = rw (terminal_call c t now h, run) (run_terminal cs t h)

target-ne-failed : (c : Call) → target c ≢ failed
target-ne-failed process e = cc e
target-ne-failed defer e = cc e
target-ne-failed (reject code) e = cc e

kept-ne-failed :
    (c : Call) (t : WagerTransaction) (now : ℕ) (r : Result WagerTransaction)
    → Moves c t r
    → t.status ≢ failed
    → (kept t r).status ≢ failed
kept-ne-failed c t now (ok u) m h = λ e. target-ne-failed c (sym m.2 ∙ e)
kept-ne-failed c t now (err e) m h = h

-- No sequence of calls takes a transaction to FAILED: that status exists in the type and in the
-- schema, and no method sets it.
pub run-ne-failed :
    (cs : List (Call × ℕ)) (t : WagerTransaction) → t.status ≢ failed → (run cs t).status ≢ failed
unfolding run
run-ne-failed [] t h = h
run-ne-failed ((c, now) ∷ cs) t h =
    run-ne-failed cs _ (kept-ne-failed c t now (call c t now) (call-Moves c t now) h)
