-- ===== src/Boot/Up.antt =====
-- What runs once the process has started, and once it has stopped.
use jungle_gaming_challenge.Base.{
  ◌≡◌, refl, sym, true, false, List, [], ◌∷◌, Option, none, some, ◌⊎◌, inl, inr, Bool-cases,
}
use jungle_gaming_challenge.Config.{Config}
use jungle_gaming_challenge.Boot.{
  BootError, bad_connection_string, no_pool, sqs_service, outbox_service, pending_service, Platform,
  Process, Hook, pool_hook, http_hook, worker_hook, build, new_postgres_pool, new_outbox_client,
  start_sqs_worker, start_outbox_worker, start_pending_reference_worker, new_sqs_client, SqsClient,
  with_outbox, with_sqs,
}

-- Running the hooks, as fx documents it. A start runs them in their order up to the first that fails; a
-- stop runs all of them from the last to the first, whatever they answer.
pub record Fx : Type 0 where
  pub start : List Hook → Platform → Process → Option BootError × Process
  pub stop : List Hook → Platform → Process → Process
  pub start_none : (platform : Platform) (p : Process) → start [] platform p ≡ (none, p)
  pub start_next :
      (h : Hook) (hs : List Hook) (platform : Platform) (p u : Process)
      → h.on_start platform p ≡ (none, u)
      → start (h ∷ hs) platform p ≡ start hs platform u
  pub start_failed :
      (h : Hook) (hs : List Hook) (platform : Platform) (p u : Process) (e : BootError)
      → h.on_start platform p ≡ (some e, u)
      → start (h ∷ hs) platform p ≡ (some e, u)
  pub stop_none : (platform : Platform) (p : Process) → stop [] platform p ≡ p
  pub stop_last_first :
      (h : Hook) (hs : List Hook) (platform : Platform) (p : Process)
      → stop (h ∷ hs) platform p ≡ (h.on_stop platform (stop hs platform p)).1

-- The hooks of a process that could be put together.
abbrev workers : List Hook
workers = worker_hook sqs_service ∷ worker_hook outbox_service ∷ worker_hook pending_service ∷ []

abbrev pub hooks_of : Config → List Hook
hooks_of cfg = pool_hook cfg ∷ http_hook ∷ workers

outbox_done :
    (p u : Process) (lifecycle hooks : List Hook) (o : Option SqsClient)
    → with_outbox p lifecycle o ≡ (none, hooks, u)
    → (hooks ≡ start_pending_reference_worker (start_outbox_worker lifecycle)) × (u ≡ p)
outbox_done p u lifecycle hooks none h = absurd (cc h)
outbox_done p u lifecycle hooks (some client) h = (sym (cc h), sym (cc h))

sqs_done :
    (platform : Platform) (cfg : Config) (p u : Process) (lifecycle hooks : List Hook)
    (o : Option SqsClient)
    → with_sqs platform cfg p lifecycle o ≡ (none, hooks, u)
    → (hooks ≡ start_pending_reference_worker (start_outbox_worker (start_sqs_worker lifecycle)))
      × (u ≡ p)
sqs_done platform cfg p u lifecycle hooks none h = absurd (cc h)
sqs_done platform cfg p u lifecycle hooks (some client) h =
    outbox_done p u (start_sqs_worker lifecycle) hooks (new_outbox_client platform cfg) h

pool_done :
    (platform : Platform) (cfg : Config) (p : Process)
    → ((e : BootError) × (lifecycle : List Hook) × (u : Process) × (new_postgres_pool platform cfg
            [] p
          ≡ (some e, lifecycle, u)))
      ⊎ (new_postgres_pool platform cfg [] p
          ≡ (none, pool_hook cfg ∷ [], record p { pool_is_open = true }))
unfolding new_postgres_pool
pool_done platform cfg p = elim (Bool-cases (platform.parse_config cfg.db_connection_string)) [
  | inl a ↦ elim (Bool-cases platform.new_pool) [
    | inl b ↦ inr (rw (a, b) refl)
    | inr b ↦ inl (no_pool, [], p, rw (a, b) refl)
  ]
  | inr a ↦ inl (bad_connection_string, [], p, rw a refl)
]

build_hooks :
    (platform : Platform) (cfg : Config) (p u : Process) (hooks : List Hook)
    → build platform cfg p ≡ (none, hooks, u)
    → (hooks ≡ hooks_of cfg) × (u ≡ record p { pool_is_open = true })
unfolding build
build_hooks platform cfg p u hooks h = elim (pool_done platform cfg p) [
  | inl (e, lifecycle, v, q) ↦ absurd (cc (rw q at h))
  | inr q ↦
      sqs_done platform cfg (record p { pool_is_open = true }) u (pool_hook cfg ∷ http_hook ∷ [])
        hooks (new_sqs_client platform cfg) (rw q at h)
]

-- No goroutine of the server or of a worker has been launched.
abbrev pub Idle : Process → Type 0
Idle p = (p.server_is_launched ≡ false) × (p.launched ≡ [])

-- The first hook: an error, or a database that was reached and has the schema.
abbrev PoolStarts : Config → Platform → Process → Type 0
PoolStarts cfg platform p =
    ((e : BootError) × ((pool_hook cfg).on_start platform p ≡ (some e, p)))
    ⊎ (((pool_hook cfg).on_start platform p ≡ (none, record p { is_migrated = true }))
        × (platform.ping ≡ true))

-- Everything is launched: the pool, the schema, the goroutine that serves, and the loop of each of the three workers.
abbrev pub AllUp : Process → Type 0
AllUp p =
    (p.pool_is_open ≡ true)
    × (p.is_migrated ≡ true)
    × (p.server_is_launched ≡ true)
    × (p.launched ≡ pending_service ∷ outbox_service ∷ sqs_service ∷ [])

module _ (fx : Fx) (platform : Platform) (cfg : Config) (p : Process) where
  abbrev opened : Process
  opened = record p { pool_is_open = true }

  -- what the hooks behind the first make of the process
  abbrev serving : Process → Process
  serving u = record u {
    server_is_launched = true;
    launched = pending_service ∷ outbox_service ∷ sqs_service ∷ u.launched;
  }

  services_stop :
      (v : Process)
      → fx.stop (http_hook ∷ workers) platform v ≡ record v {
        server_is_launched = false;
        closed = sqs_service ∷ outbox_service ∷ pending_service ∷ v.closed;
      }
  unfolding http_hook worker_hook
  services_stop v =
      rw
        (
          fx.stop_last_first http_hook workers platform v,
          fx.stop_last_first (worker_hook sqs_service)
              (worker_hook outbox_service ∷ worker_hook pending_service ∷ []) platform v,
          fx.stop_last_first (worker_hook outbox_service) (worker_hook pending_service ∷ [])
              platform v,
          fx.stop_last_first (worker_hook pending_service) [] platform v,
          fx.stop_none platform v,
        )
        refl

-- The pool is closed last: the stop of a process that could be put together closes it when the server was
-- shut down and each of the three stop channels has been closed, whatever the server and the workers
-- answer. fx stops the hooks from the last to the first.
stop-PoolLast :
    (fx : Fx) (platform : Platform) (cfg : Config) (p u v : Process) (hooks : List Hook)
    → build platform cfg p ≡ (none, hooks, u)
    → (q : Process) × (fx.stop hooks platform v ≡ record q { pool_is_open = false })
      × (q.pool_is_open ≡ v.pool_is_open)
      × (q.server_is_launched ≡ false)
      × (q.closed ≡ sqs_service ∷ outbox_service ∷ pending_service ∷ v.closed)
unfolding pool_hook
stop-PoolLast fx platform cfg p u v hooks built =
    let (hs, us) = build_hooks platform cfg p u hooks built in
    (
      record v {
        server_is_launched = false;
        closed = sqs_service ∷ outbox_service ∷ pending_service ∷ v.closed;
      },
      rw
          (
            hs,
            fx.stop_last_first (pool_hook cfg) (http_hook ∷ workers) platform v,
            services_stop fx platform cfg p v,
          )
          refl,
      refl,
      refl,
      refl,
    )
