-- ===== src/Start.antt =====
-- cmd/worker/main.go and cmd/server/main.go: the start of the two processes. log.Fatal ends the
-- process with its text, which is the error here; the deferred calls do not run then.
pub mod Settings
mod Tests
use go_agent_chat_server.Base.{
  ℕ, ◌*◌, ◌^◌, ◌%◌, ◌/◌, ◌+◌, ◌-◌, ◌==◌, Bool, true, false, not, Option, none, some, if◌then◌else◌,
}
use go_agent_chat_server.Base.Text.{Text, codes}
use go_agent_chat_server.Base.Int.{ℤ, pos, negsuc, word64, int64}
use go_agent_chat_server.Base.Exec.{Exec, message, pure, reject, ◌>>=◌, ◌>>◌}
use go_agent_chat_server.Metrics.{Process}
use go_agent_chat_server.Config.{Config}
use go_agent_chat_server.Connections.{Gorm, GoRedis, or_wrap, init_mysql, init_redis}
use go_agent_chat_server.Agent.{new_eino_runner}
use go_agent_chat_server.Llm.{new_ollama_client}
use go_agent_chat_server.Tool.Calculator.Results.{Floats}
use go_agent_chat_server.Queue.ChatTask.{ChatTask, noop_publish_chat_task}
use go_agent_chat_server.Queue.Broker.{
  Amqp, Broker, BrokerConfig, new_rabbit_mq_publisher, new_rabbit_mq_chat_task_queue,
  consume_chat_tasks,
}
use go_agent_chat_server.Service.Chat.{ChatService, new_chat_service}
use go_agent_chat_server.Service.AsyncChat.{AsyncChatService, new_async_chat_service}
use go_agent_chat_server.Service.Auth.{AuthService, new_auth_service}
use go_agent_chat_server.Worker.Loop.{concurrency}

unfoldable pub event_config : Config → BrokerConfig
event_config cfg = record {
  url = cfg.rabbit_mq_url;
  exchange = cfg.rabbit_mq_exchange;
  routing_key = cfg.rabbit_mq_routing_key;
  queue = cfg.rabbit_mq_queue;
  binding_key = cfg.rabbit_mq_binding_key;
}

unfoldable pub task_config : Config → BrokerConfig
task_config cfg = record {
  url = cfg.rabbit_mq_url;
  exchange = cfg.rabbit_mq_task_exchange;
  routing_key = cfg.rabbit_mq_task_routing_key;
  queue = cfg.rabbit_mq_task_queue;
  binding_key = cfg.rabbit_mq_task_binding_key;
}

unfoldable pub whole_ms : ℤ → ℤ
whole_ms (pos n) = pos (n / 1000000)
whole_ms (negsuc n) = let k = (n + 1) / 1000000 in if k == 0 then pos 0 else negsuc (k - 1)

-- time.Duration(n) * time.Second on int64, as whole milliseconds. A product that wraps to less than
-- one millisecond counts as none here.
unfoldable pub seconds : ℤ → ℤ
unfolding whole_ms
seconds n = whole_ms (int64 (word64 n * 1000000000 % 2 ^ 64))

unfoldable pub chat_service_of : Floats → Config → ChatService
unfolding new_chat_service new_eino_runner new_ollama_client seconds
chat_service_of floats cfg =
    new_chat_service floats (new_eino_runner cfg.ollama_base_url cfg.default_model)
      (new_ollama_client cfg.ollama_base_url cfg.default_model) cfg.max_concurrent_llm
      cfg.user_llm_rate_limit (seconds cfg.user_llm_rate_window_seconds)

-- A worker behind its start: the connections, the publisher of events when there is one, the service
-- and the deliveries, with the capacity of the semaphore.
pub record WorkerProcess (S G R C H D : Type 0) : Type 0 where
  pub db : G
  pub rdb : R
  pub task_queue : Broker C H
  pub event_publisher : Option (Broker C H)
  pub service : AsyncChatService S
  pub deliveries : D
  pub capacity : ℕ

-- The services of router.Register that have settings.
pub record ServerProcess (S G R C H : Type 0) : Type 0 where
  pub db : G
  pub rdb : R
  pub event_publisher : Option (Broker C H)
  pub task_publisher : Option (Broker C H)
  pub auth_service : AuthService
  pub async_chat_service : AsyncChatService S

-- Without a queue, the publisher of tasks is the no-op one.
module _ {S C H : Type 0} (publish : Broker C H → ChatTask → Exec (Process S) (Unit {0})) where
  unfoldable pub task_publisher_of : Option (Broker C H) → ChatTask → Exec (Process S) (Unit {0})
  unfolding noop_publish_chat_task
  task_publisher_of none = noop_publish_chat_task
  task_publisher_of (some q) = publish q

unfoldable pub is_open : {C H : Type 0} → Option (Broker C H) → Bool
is_open none = false
is_open (some q) = true

-- `publish` is PublishChatTask of a queue.
module _ {S G P R C H D : Type 0} (floats : Floats) (gorm : Gorm S G P) (go_redis : GoRedis S R)
    (amqp : Amqp S C H D) (publish : Broker C H → ChatTask → Exec (Process S) (Unit {0})) where
  -- if err != nil { log.Fatalf("…: %v", err) }
  abbrev or_fatal : {A : Type 0} → Text → Exec S A → Exec S A
  or_fatal prefix m = or_wrap prefix m pure

  unfoldable pub open_stores : Config → Exec S (G × R)
  unfolding codes init_mysql init_redis
  open_stores cfg = do
    db ← or_fatal (codes "init mysql failed: ") (init_mysql gorm cfg.mysql_dsn)
    rdb ←
        or_fatal (codes "init redis failed: ")
          (init_redis go_redis cfg.redis_addr cfg.redis_password cfg.redis_db)
    pure (db, rdb)

  -- Without the setting, the publisher is the no-op one.
  unfoldable pub open_events : Text → Config → Exec S (Option (Broker C H))
  unfolding new_rabbit_mq_publisher event_config
  open_events failure cfg =
      if cfg.mq_enabled
      then (do
        b ← or_fatal failure (new_rabbit_mq_publisher amqp (event_config cfg))
        pure (some b))
      else pure none

  unfoldable pub open_tasks : Config → Exec S (Broker C H)
  unfolding codes new_rabbit_mq_chat_task_queue task_config
  open_tasks cfg =
      or_fatal (codes "init rabbitmq chat task queue failed: ")
        (new_rabbit_mq_chat_task_queue amqp (task_config cfg))

  unfoldable pub worker_of :
      Config → G → R → Broker C H → Option (Broker C H) → D → WorkerProcess S G R C H D
  unfolding chat_service_of new_async_chat_service concurrency
  worker_of cfg db rdb q events deliveries = record {
    db = db;
    rdb = rdb;
    task_queue = q;
    event_publisher = events;
    service =
        new_async_chat_service (chat_service_of floats cfg) true (publish q) cfg.chat_job_max_retry;
    deliveries = deliveries;
    capacity = concurrency cfg.worker_concurrency;
  }

  unfoldable pub consume_deliveries : Config → Broker C H → Exec S D
  unfolding codes consume_chat_tasks
  consume_deliveries cfg q =
      or_fatal (codes "consume chat tasks failed: ")
        (consume_chat_tasks amqp (some q) cfg.worker_concurrency)

  -- The worker with its stores, from the queue of tasks on.
  unfoldable pub connect_worker : Config → G → R → Exec S (WorkerProcess S G R C H D)
  unfolding codes open_tasks open_events consume_deliveries worker_of
  connect_worker cfg db rdb = do
    q ← open_tasks cfg
    events ← open_events (codes "init rabbitmq event publisher failed: ") cfg
    deliveries ← consume_deliveries cfg q
    pure (worker_of cfg db rdb q events deliveries)

  unfoldable pub start_worker : Config → Exec S (WorkerProcess S G R C H D)
  unfolding codes open_stores connect_worker
  start_worker cfg = do
    (db, rdb) ← open_stores cfg
    reject (not cfg.async_queue_enabled)
        (message (codes "ASYNC_QUEUE_ENABLED must be true for worker"))
    connect_worker cfg db rdb

  unfoldable pub optional_tasks : Config → Exec S (Option (Broker C H))
  unfolding open_tasks
  optional_tasks cfg =
      if cfg.async_queue_enabled then (do q ← open_tasks cfg; pure (some q)) else pure none

  unfoldable pub server_of :
      Config → G → R → Option (Broker C H) → Option (Broker C H) → ServerProcess S G R C H
  unfolding task_publisher_of is_open chat_service_of new_async_chat_service new_auth_service
  server_of cfg db rdb events tasks = record {
    db = db;
    rdb = rdb;
    event_publisher = events;
    task_publisher = tasks;
    auth_service = new_auth_service cfg.jwt_secret cfg.jwt_expire_hours;
    async_chat_service =
        new_async_chat_service (chat_service_of floats cfg) (is_open tasks)
          (task_publisher_of publish tasks) cfg.chat_job_max_retry;
  }

  -- The server with its stores and the publisher of events.
  unfoldable pub connect_server :
      Config → G → R → Option (Broker C H) → Exec S (ServerProcess S G R C H)
  unfolding optional_tasks server_of
  connect_server cfg db rdb events = do
    tasks ← optional_tasks cfg
    pure (server_of cfg db rdb events tasks)

  -- Until h.Spin().
  unfoldable pub start_server : Config → Exec S (ServerProcess S G R C H)
  unfolding codes open_stores open_events connect_server
  start_server cfg = do
    (db, rdb) ← open_stores cfg
    events ← open_events (codes "init rabbitmq failed: ") cfg
    connect_server cfg db rdb events
