-- ===== src/Store/Connection.antt =====
-- A database session as a state monad: the code runs statements one after the other, each may fail,
-- and a failed statement makes PostgreSQL refuse all later ones of its transaction.
use jungle_gaming_challenge.Base.{ℕ, suc, Bool, true, false, List, if◌then◌else◌}
use jungle_gaming_challenge.Base.Text.{Text}
use jungle_gaming_challenge.Base.Int.{ℤ}
use jungle_gaming_challenge.Errors.{
  Result, ok, err, Error, DbError, database, aborted, fault, begin_failed, commit_failed,
  queue_fault,
}
use jungle_gaming_challenge.Store.Tables.{Db}
use jungle_gaming_challenge.Store.Queues.{Outside, Counters}

-- A value in the map that `json.Marshal` serializes.
pub data JsonValue : Type 0 where
  text : Text → JsonValue
  number : ℤ → JsonValue

-- What the process takes from outside: the readings of its clock in nanoseconds, whether the n-th
-- exchange with the server fails for reasons of its own, and whether one that fails has reached the
-- server all the same (it counts for a COMMIT, whose outcome is then unknown), SHA-256 over JSON, and JSON itself.
pub record Env : Type 0 where
  pub clock : ℕ → ℕ
  pub fails : ℕ → Bool
  pub reaches : ℕ → Bool
  pub sha256_json : List (Text × Text) → Text
  pub json_map : List (Text × JsonValue) → Text

-- The database as the session sees it, what lies outside of it, whether the transaction is aborted, and
-- how many exchanges with a server and readings of the clock there have been.
pub record Session : Type 0 where
  pub db : Db
  pub outside : Outside
  pub is_aborted : Bool
  pub exchanges : ℕ
  pub readings : ℕ

abbrev pub Tx : Type 0 → Type 0
Tx A = Env → Session → Result A × Session

infixl 5 ◌>>=◌ ◌>>◌
abbrev pub ◌>>=◌ : {A B : Type 0} → Tx A → (A → Tx B) → Tx B
◌>>=◌ m f env s = let (r, s') = m env s in elim r [ ok a ↦ f a env s' | err e ↦ (err e, s') ]

abbrev pub ◌>>◌ : {B : Type 0} → Tx (Unit {0}) → Tx B → Tx B
m >> k = m >>= λ _. k

-- a result that does not touch the session
abbrev pub lift : {A : Type 0} → Result A → Tx A
lift r env s = (r, s)

abbrev pub pure : {A : Type 0} → A → Tx A
pure a env s = (ok a, s)

abbrev pub raise : {A : Type 0} → Error → Tx A
raise e env s = (err e, s)

-- `if err := m; err != nil { ... }`: the error is a value
abbrev pub attempt : {A : Type 0} → Tx A → Tx (Result A)
attempt m env s = let (r, s') = m env s in (ok r, s')

abbrev pub map_error : {A : Type 0} → (Error → Error) → Tx A → Tx A
map_error f m env s = let (r, s') = m env s in (elim r [ ok a ↦ ok a | err e ↦ err (f e) ], s')

-- `time.Now()`
unfoldable pub time_now : Tx ℕ
time_now env s = (ok (env.clock s.readings), record s { readings = suc s.readings })

-- What a statement does to the tables.
pub data Answer (A : Type 0) : Type 0 where
  done : A → Db → Answer A
  refused : DbError → Answer A

abbrev answer : {A : Type 0} → Answer A → Session → Result A × Session
answer (done a db) s = (ok a, record s { db = db })
answer (refused e) s = (err (database e), record s { is_aborted = true })

-- `tx.Exec` and `tx.QueryRow`
unfoldable pub statement : {A : Type 0} → (Db → Answer A) → Tx A
statement f env s =
    let s' = record s { exchanges = suc s.exchanges } in
    if s.is_aborted
    then (err (database aborted), s')
    else if env.fails s.exchanges
    then (err (database fault), record s' { is_aborted = true })
    else answer (f s.db) s'

-- `pool.QueryRow`: a query in a transaction of its own
unfoldable pub pool_query : {A : Type 0} → (Db → A) → Tx A
pool_query f env s =
    let s' = record s { exchanges = suc s.exchanges } in
    if env.fails s.exchanges then (err (database fault), s') else (ok (f s.db), s')

-- a call of SQS, which may fail; a call that fails is taken not to have had its effect
unfoldable pub queue_call : (Outside → Outside) → Tx (Unit {0})
queue_call f env s =
    let s' = record s { exchanges = suc s.exchanges } in
    if env.fails s.exchanges
    then (err queue_fault, s')
    else (ok tt, record s' { outside = f s.outside })

-- a counter that goes up
unfoldable pub tally : (Counters → Counters) → Tx (Unit {0})
tally f env s = (ok tt, record s { outside = record s.outside { counters = f s.outside.counters } })

-- COMMIT, after a body that returned nil: an aborted transaction is rolled back and reported, as
-- `pgx.ErrTxCommitRollback`. A commit that fails may have happened, as when the connection is lost behind
-- it: the environment decides.
abbrev pub commit : {A : Type 0} → Db → A → Env → Session → Result A × Session
commit before a env s =
    let s' = record s { is_aborted = false; exchanges = suc s.exchanges } in
    if s.is_aborted
    then (err commit_failed, record s' { db = before })
    else if env.fails s.exchanges
    then (err commit_failed, record s' { db = if env.reaches s.exchanges then s.db else before })
    else (ok a, s')

abbrev pub finish : {A : Type 0} → Db → Env → Result A × Session → Result A × Session
finish before env (ok a, s) = commit before a env s
finish before env (err e, s) =
    (err e, record s { db = before; is_aborted = false; exchanges = suc s.exchanges })

-- `TransactionManager.ExecuteInTransaction`
unfoldable pub execute_in_transaction : {A : Type 0} → Tx A → Tx A
execute_in_transaction fn env s =
    let s' = record s { is_aborted = false; exchanges = suc s.exchanges } in
    if env.fails s.exchanges then (err begin_failed, s') else finish s.db env (fn env s')
