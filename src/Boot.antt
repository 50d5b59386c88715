-- ===== src/Boot.antt =====
-- cmd/api/main.go, internal/infrastructure/database/postgres.go, and the constructors of
-- internal/infrastructure/transport that it calls: how the process is put together, starts and stops.
pub mod Up
use jungle_gaming_challenge.Base.{
  Bool, true, false, not, List, [], ◌∷◌, ◌++◌, Option, none, some, if◌then◌else◌,
}
use jungle_gaming_challenge.Base.Text.{Text, is_empty}
use jungle_gaming_challenge.Config.{Config}

-- The errors of the start, those that wrap another with it.
pub data BootError : Type 0 where
  bad_connection_string no_pool no_ping no_migration migration_failed no_aws_config : BootError
  migrations_failed : BootError → BootError
  shutdown_failed context_done : BootError

pub data Service : Type 0 where
  sqs_service outbox_service pending_service : Service

-- What `m.Up()` answers; `ErrNoChange` when there was nothing to do.
pub data UpAnswer : Type 0 where
  applied no_change failed : UpAnswer

-- The libraries' answers: `pgxpool.ParseConfig`, `pgxpool.NewWithConfig`, `pool.Ping`, `migrate.New`,
-- `m.Up` on a schema that is up to date or not, `awsconfig.LoadDefaultConfig`, `server.Shutdown`, and
-- whether a worker's wait group is done before the context.
pub record Platform : Type 0 where
  pub parse_config : Text → Bool
  pub new_pool : Bool
  pub ping : Bool
  pub new_migrate : Text → Bool
  pub up : Bool → UpAnswer
  pub load_aws : Text → Bool
  pub shutdown : Bool
  pub drains : Service → Bool

-- What runs: the pool, the migrations of the database, the goroutine that serves, whether fx was asked to shut down,
-- the workers' loops that have been launched, and the stop channels that have been closed.
pub record Process : Type 0 where
  pub pool_is_open : Bool
  pub is_migrated : Bool
  pub server_is_launched : Bool
  pub is_shutting_down : Bool
  pub launched : List Service
  pub closed : List Service

-- `fx.Hook`: each side answers nil or an error.
pub record Hook : Type 0 where
  pub on_start : Platform → Process → Option BootError × Process
  pub on_stop : Platform → Process → Option BootError × Process

-- `runMigrations`
unfoldable pub run_migrations : Text → Platform → Process → Option BootError × Process
run_migrations url platform p =
    if not (platform.new_migrate url)
    then (some no_migration, p)
    else elim (platform.up p.is_migrated) [
      | applied ↦ (none, record p { is_migrated = true })
      | no_change ↦ (none, p)
      | failed ↦ (some migration_failed, p)
    ]

abbrev wrap_migrations : Option BootError × Process → Option BootError × Process
wrap_migrations (none, p) = (none, p)
wrap_migrations (some e, p) = (some (migrations_failed e), p)

-- the hook of `NewPostgresPool`
unfoldable pub pool_hook : Config → Hook
unfolding run_migrations
pool_hook cfg = record {
  on_start = λ platform p.
      if not platform.ping
      then (some no_ping, p)
      else wrap_migrations (run_migrations cfg.db_connection_string platform p);
  on_stop = λ platform p. (none, record p { pool_is_open = false });
}

-- `NewPostgresPool`: an error, or the lifecycle with its hook
unfoldable pub new_postgres_pool :
    Platform → Config → List Hook → Process → Option BootError × List Hook × Process
unfolding pool_hook
new_postgres_pool platform cfg lifecycle p =
    if not (platform.parse_config cfg.db_connection_string)
    then (some bad_connection_string, lifecycle, p)
    else if not platform.new_pool
    then (some no_pool, lifecycle, p)
    else (none, lifecycle ++ (pool_hook cfg ∷ []), record p { pool_is_open = true })

-- `StartHTTPServer`: the hook launches a goroutine and answers nil, whatever `ListenAndServe` then makes of
-- it. `Shutdown` closes the listeners, and then waits for the requests.
unfoldable pub http_hook : Hook
http_hook = record {
  on_start = λ platform p. (none, record p { server_is_launched = true });
  on_stop = λ platform p. (
    if platform.shutdown then none else some shutdown_failed,
    record p { server_is_launched = false },
  );
}

-- What `ListenAndServe` returns in the end, in the goroutine of `StartHTTPServer`.
pub data ServeAnswer : Type 0 where
  served_nil server_closed serve_failed : ServeAnswer

unfoldable pub after_serve : ServeAnswer → Process → Process
after_serve serve_failed p = record p { is_shutting_down = true }
after_serve _ p = p

-- `Stop` of each worker closes the stop channel and waits for the wait group or the context.
unfoldable pub stop_worker : Service → Platform → Process → Option BootError × Process
stop_worker service platform p = (
  if platform.drains service then none else some context_done,
  record p { closed = service ∷ p.closed },
)

-- the hook of a worker
unfoldable pub worker_hook : Service → Hook
unfolding stop_worker
worker_hook service = record {
  on_start = λ platform p. (none, record p { launched = service ∷ p.launched });
  on_stop = stop_worker service;
}

abbrev pub start_http_server : List Hook → List Hook
start_http_server lifecycle = lifecycle ++ (http_hook ∷ [])

abbrev pub start_sqs_worker : List Hook → List Hook
start_sqs_worker lifecycle = lifecycle ++ (worker_hook sqs_service ∷ [])

abbrev pub start_outbox_worker : List Hook → List Hook
start_outbox_worker lifecycle = lifecycle ++ (worker_hook outbox_service ∷ [])

abbrev pub start_pending_reference_worker : List Hook → List Hook
start_pending_reference_worker lifecycle = lifecycle ++ (worker_hook pending_service ∷ [])

-- The client that a worker gets: an endpoint only if one is configured.
pub record SqsClient : Type 0 where
  pub region : Text
  pub base_endpoint : Option Text

-- `NewSQSWorker`
unfoldable pub new_sqs_client : Platform → Config → Option SqsClient
new_sqs_client platform cfg =
    if platform.load_aws cfg.aws_region
    then some (record {
      region = cfg.aws_region;
      base_endpoint = if is_empty cfg.sqs_endpoint then none else some cfg.sqs_endpoint;
    })
    else none

-- `NewOutboxWorker` makes its client in the same way.
abbrev pub new_outbox_client : Platform → Config → Option SqsClient
new_outbox_client platform cfg = new_sqs_client platform cfg

abbrev pub Built : Type 0
Built = Option BootError × List Hook × Process

-- The worker of the outbox, and that of the pending references, which has no client.
abbrev pub with_outbox : Process → List Hook → Option SqsClient → Built
with_outbox p lifecycle none = (some no_aws_config, lifecycle, p)
with_outbox p lifecycle (some client) =
    (none, start_pending_reference_worker (start_outbox_worker lifecycle), p)

-- The worker of the queue, and then the others.
abbrev pub with_sqs : Platform → Config → Process → List Hook → Option SqsClient → Built
with_sqs platform cfg p lifecycle none = (some no_aws_config, lifecycle, p)
with_sqs platform cfg p lifecycle (some client) =
    with_outbox p (start_sqs_worker lifecycle) (new_outbox_client platform cfg)

-- The server, and then the workers.
abbrev pub with_server : Platform → Config → Built → Built
with_server platform cfg (some e, lifecycle, p) = (some e, lifecycle, p)
with_server platform cfg (none, lifecycle, p) =
    with_sqs platform cfg p (start_http_server lifecycle) (new_sqs_client platform cfg)

-- `fx.New`: the functions of `fx.Invoke` in their order, each behind the constructors that it needs; the
-- server's handler needs the pool.
unfoldable pub build : Platform → Config → Process → Built
unfolding new_postgres_pool http_hook worker_hook new_sqs_client
build platform cfg p = with_server platform cfg (new_postgres_pool platform cfg [] p)
