-- ===== src/Transport/Lifecycle.antt =====
-- `Start` and `Stop` of the workers in internal/infrastructure/transport, one beside the other: the stop
-- channel, the wait group and the goroutine of the loop, as one step relation for the three workers.
pub mod Quiet
use jungle_gaming_challenge.Base.{ℕ, suc, ◌-◌, ◌≡◌, Bool, true, false, ◌&&◌}

-- Where the goroutine of `Start` is: not yet at `wg.Add(1)`, in the loop, or behind `wg.Done()`.
pub data Phase : Type 0 where
  launched looping returned : Phase

-- Where the call of `Stop` is, and what it has answered: nil, or the error of its context.
pub data Stop : Type 0 where
  not_called waiting stopped timed_out : Stop

-- A worker with its stop channel and its wait group; `turns` counts what the loop has done.
pub record Worker : Type 0 where
  pub phase : Phase
  pub wait_group : ℕ
  pub is_closed : Bool
  pub stop : Stop
  pub turns : ℕ

-- One move of a worker. `prompt` says that the select of its loop has a default, so that a closed stop
-- channel goes before a turn; a select without one may take a tick that is ready.
pub data Move (prompt : Bool) : Worker → Worker → Type 0 where
  -- `w.wg.Add(1)`
  entered :
      (w : Worker)
      → w.phase ≡ launched
      → Move prompt w (record w { phase = looping; wait_group = suc w.wait_group })
  -- the other case of the select
  turned :
      (w : Worker)
      → w.phase ≡ looping
      → (prompt && w.is_closed) ≡ false
      → Move prompt w (record w { turns = suc w.turns })
  -- `case <-w.stopChan: return`, and the deferred `w.wg.Done()`
  left :
      (w : Worker)
      → w.phase ≡ looping
      → w.is_closed ≡ true
      → Move prompt w (record w { phase = returned; wait_group = w.wait_group - 1 })
  -- `close(w.stopChan)`, which panics on a closed channel
  closed :
      (w : Worker)
      → w.is_closed ≡ false
      → w.stop ≡ not_called
      → Move prompt w (record w { is_closed = true; stop = waiting })
  -- `w.wg.Wait()` in the goroutine, then `case <-c: return nil`
  waited :
      (w : Worker)
      → w.stop ≡ waiting
      → w.wait_group ≡ 0
      → Move prompt w (record w { stop = stopped })
  -- `case <-ctx.Done(): return ctx.Err()`
  expired : (w : Worker) → w.stop ≡ waiting → Move prompt w (record w { stop = timed_out })

-- The workers that a row of moves leads to.
pub data Moves (prompt : Bool) (w : Worker) : Worker → Type 0 where
  at_rest : Moves prompt w w
  move : {u v : Worker} → Moves prompt w u → Move prompt u v → Moves prompt w v

-- what `NewSQSWorker`, `NewOutboxWorker` and `NewPendingReferenceWorker` make, with `go worker.Start()`
abbrev pub new_worker : Worker
new_worker = record {
  phase = launched;
  wait_group = 0;
  is_closed = false;
  stop = not_called;
  turns = 0;
}
