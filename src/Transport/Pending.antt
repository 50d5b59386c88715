-- ===== src/Transport/Pending.antt =====
-- internal/infrastructure/transport/pending_reference_worker.go: one tick of the worker.
use jungle_gaming_challenge.Base.{List, [], ◌∷◌}
use jungle_gaming_challenge.Errors.{Result, ok, err}
use jungle_gaming_challenge.Domain.Wager.{WagerTransaction}
use jungle_gaming_challenge.Store.{Tx, ◌>>=◌, pure, attempt}
use jungle_gaming_challenge.Repository.Transaction.{find_pending_references}
use jungle_gaming_challenge.Usecase.Resolve.{resolve_pending_reference}

-- an error of one item is logged
unfoldable pub resolve_all : List WagerTransaction → Tx (Unit {0})
resolve_all [] = pure tt
resolve_all (item ∷ items) =
    attempt (resolve_pending_reference item.id) >>= λ logged. resolve_all items

unfoldable pub resolve_items : Result (List WagerTransaction) → Tx (Unit {0})
unfolding resolve_all
resolve_items (err e) = pure tt
resolve_items (ok items) = resolve_all items

-- `PendingReferenceWorker.processBatch`
unfoldable pub process_batch : Tx (Unit {0})
process_batch = do items ← attempt (find_pending_references 20); resolve_items items
