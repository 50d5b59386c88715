-- ===== src/Lib.antt =====
-- A model of the wagering ledger: a Go service that keeps players' wallets in PostgreSQL, moves money on
-- the wagers that game providers report, writes a ledger entry for every movement and an outbox event
-- for every change, and answers repeated requests from what it stored.
--
-- The program's parts, and the file of each.
--   Money (internal/domain/money.go): Domain/Money, with its digits in Domain/Money/Digits.
--   Wallets (internal/domain/wallet.go): Domain/Wallet. `Debit` and `Credit` change their receiver; here
--     they return the new wallet, and the old one stays for the caller that needs it.
--   Wager transactions (internal/domain/transaction.go): Domain/Wager.
--   Configuration (internal/config/config.go): Config, over the environment as an argument.
--   Tables (migrations/000001_init_schema.up.sql): Store/Tables; the statements under the constraints are
--     Store/Insert and Store/Update.
--   Transaction manager (internal/infrastructure/database/transaction_manager.go): Store/Connection.
--   Repositories (internal/infrastructure/repository): Repository/Wallet, Repository/Transaction and
--     Repository/Messaging, one function per method.
--   Use cases (internal/usecase): Usecase/Wager and Usecase/Process (ProcessTransaction and
--     ProcessTransactionWithInbox), Usecase/Resolve (ResolvePendingReference), Usecase/OpenWallet,
--     Usecase/Reconciliation; Usecase/Events has the events that they write.
--   Workers (internal/infrastructure/transport): Transport/Outbox, Transport/Sqs and Transport/Pending,
--     one function for a tick or for a turn of the loop; Transport/Start has the loops of their `Start`,
--     and Transport/Lifecycle `Start` beside `Stop`, with the stop channel and the wait group.
--   Server (internal/infrastructure/transport/http_handler.go and metrics.go): Transport/Http,
--     Transport/Http/Wagering and Transport/Server. Authentication
--     (internal/infrastructure/transport/auth_middleware.go): Transport/Auth and Transport/Auth/Keys.
--   System: the server and the workers take turns on one database. System/Interleaved lets others commit
--     between the reading of a wallet in a transaction and what the transaction does with it.
--   Main program (cmd/api/main.go) and pool (internal/infrastructure/database/postgres.go): Boot, with the
--     workers' constructors.
-- A use case checks its input, then runs a closure under the transaction manager; the closure calls the
-- repositories, which run statements, and the domain, which computes. `Tx` (Store/Connection) is the
-- monad of all that: it passes the database on, counts the exchanges with the server and the readings of
-- the clock, and a result is a value or an error. A failed statement makes PostgreSQL refuse the rest of
-- its transaction. The environment (`Env`) says which exchange fails, and which COMMIT that fails has
-- taken effect, and is arbitrary. What lies outside of the database, the messages of SQS and the
-- counters, is passed on with it (Store/Queues), and a
-- rollback does not touch it.
--
-- Parameters. The clock, SHA-256 with the JSON form of a map of texts, the JSON form of a map of values,
-- os.LookupEnv, the failures of the connection and of SQS, the decoding of a message and of a request's
-- body, the parser of golang-jwt, the answer to a fetch of the keys, what a select of a worker's loop
-- takes, and the answers of pgxpool, golang-migrate, net/http and fx to the main program. Nothing is
-- assumed of them but what a statement says, and of fx the order of the hooks (Boot/Up).
--
-- Bounds and fuel. Amounts, versions and sums of `int64` wrap around at 64 bits (`add64`, `sub64`,
-- `neg64`). Texts are lists of ASCII bytes. The printing of a number n runs on fuel n + 1, and a number
-- has no more digits than that. The loops of the workers run on fuel too, one look at the stop channel for
-- each. No other loop of the modelled code needs fuel.
--
-- Simplifications. A transaction runs as one turn, or in two parts: its reading of the wallet, and later
-- all that it does with the wallet and its commit. The row locks of `FOR UPDATE` are left out there, so
-- that more orders are possible than with them; two transactions do not take turns statement by
-- statement. A COMMIT that is answered with an error, in a transaction that was not aborted, has
-- happened or has not, as the environment says; a call of SQS that fails is taken not to have happened.
-- A time is kept to the microsecond by its column, and pgx is taken to cut off the rest. A panic, and nil
-- arguments, do not occur. Wrapped errors keep the error that they wrap. The three workers share one step
-- relation for `Start` and `Stop`, which differ only in whether the select has a default.
--
-- Not modelled: the trigger that refuses the change of a ledger entry, which no statement of the program
-- attempts; whether `ListenAndServe` succeeds behind the start; the period of the tickers and the pauses
-- of the workers; the indexes of the tables, and the logs; JSON, which the libraries read and write;
-- redirects of unclean paths and percent-decoding by
-- the server's multiplexer. A fetch of the keys by one request is not interleaved with another's.
pub mod Base
pub mod Errors
pub mod Config
pub mod Domain
pub mod Store
pub mod Repository
pub mod Usecase
pub mod Transport
pub mod System
pub mod Boot
pub mod Tests
