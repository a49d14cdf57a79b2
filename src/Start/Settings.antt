-- ===== src/Start/Settings.antt =====
-- cmd/worker/main.go and cmd/server/main.go: the settings of a process that has started.
use go_agent_chat_server.Base.{
  ℕ, ◌≤◌, ◌≡◌, refl, Bool-cases, inl, inr, if◌then◌else◌, Bool, true, not, Option, subst, arith,
}
use go_agent_chat_server.Base.Text.{Text, codes}
use go_agent_chat_server.Base.Int.{ℤ, pos, negsuc, leb_ℤ, pos_part}
use go_agent_chat_server.Base.Exec.{Exec, Err, pure, reject}
use go_agent_chat_server.Base.Exec.Leads.{Ends, Leads, Leads-bind, Leads-on_error}
use go_agent_chat_server.Base.Exec.Anything.{
  Anything, any-Leads, pure-Leads, known-Leads, after-Leads,
}
use go_agent_chat_server.Metrics.{Process}
use go_agent_chat_server.Config.{Config}
use go_agent_chat_server.Connections.{Gorm, GoRedis}
use go_agent_chat_server.Tool.Calculator.Results.{Floats}
use go_agent_chat_server.Queue.ChatTask.{ChatTask}
use go_agent_chat_server.Queue.Broker.{Amqp, Broker, prefetch_of, consume_chat_tasks}
use go_agent_chat_server.Service.Chat.{new_chat_service}
use go_agent_chat_server.Service.AsyncChat.{AsyncChatService, new_async_chat_service}
use go_agent_chat_server.Service.Auth.{new_auth_service}
use go_agent_chat_server.Worker.Loop.{concurrency}
use go_agent_chat_server.Start.{
  WorkerProcess, ServerProcess, chat_service_of, open_events, open_tasks, optional_tasks, is_open,
  task_publisher_of, start_worker, start_server, connect_worker, connect_server, worker_of,
  server_of, consume_deliveries,
}

-- `if n <= 0 { n = fallback }`
positive_or_fallback :
    (fallback : ℕ) (n : ℤ) → 1 ≤ fallback → 1 ≤ (if leb_ℤ n (pos 0) then fallback else pos_part n)
positive_or_fallback fallback (pos n) h = ground arith
positive_or_fallback fallback (negsuc n) h = ground arith

positive_concurrency : (n : ℤ) → 1 ≤ concurrency n
unfolding concurrency
positive_concurrency n = positive_or_fallback 1 n (omega arith)

prefetch-concurrency : (n : ℤ) → prefetch_of n ≡ pos (concurrency n)
unfolding concurrency prefetch_of
prefetch-concurrency (pos n) = ground arith
prefetch-concurrency (negsuc n) = ground arith

-- The bounds that the services stand on: an attempt for each job, and a slot for a model call.
abbrev pub IsServing : {S : Type 0} → AsyncChatService S → Type 0
IsServing a = (1 ≤ a.max_retry) × (1 ≤ a.chat_service.max_concurrent_llm)

module _ {S : Type 0} (floats : Floats) (enabled : Bool)
    (publish : ChatTask → Exec (Process S) (Unit {0})) (cfg : Config) where
  new_service-IsServing :
      IsServing
        (new_async_chat_service (chat_service_of floats cfg) enabled publish cfg.chat_job_max_retry)
  unfolding chat_service_of new_chat_service new_async_chat_service
  new_service-IsServing = (
    positive_or_fallback 3 cfg.chat_job_max_retry (omega arith),
    positive_or_fallback 2 cfg.max_concurrent_llm (omega arith),
  )

-- What the client library documents: Qos that succeeds sets the number of deliveries that the broker
-- sends at once on the channel, and Consume leaves it as it is.
pub record Sends {S C H D : Type 0} (amqp : Amqp S C H D) (Sent : H → ℤ → S → Type 0) : Type 0 where
  pub qos : (h : H) (count : ℤ) → Leads Anything (amqp.qos h count) (λ _. Sent h count) Anything
  pub consume :
      (h : H) (queue : Text) (count : ℤ)
      → Leads (Sent h count) (amqp.consume h queue) (λ _. Sent h count) Anything

-- The broker sends a worker as many deliveries at once as its semaphore lets run, at least one.
abbrev pub WorkerReady :
    {S G R C H D : Type 0} → (H → ℤ → S → Type 0) → Config → WorkerProcess S G R C H D → S → Type 0
WorkerReady Sent cfg w s =
    (cfg.async_queue_enabled ≡ true)
    × (1 ≤ w.capacity)
    × Sent w.task_queue.channel (pos w.capacity) s
    × IsServing w.service

abbrev pub ServerReady : {S G R C H : Type 0} → Config → ServerProcess S G R C H → Type 0
ServerReady cfg v =
    (v.async_chat_service.enabled ≡ cfg.async_queue_enabled)
    × (is_open v.task_publisher ≡ cfg.async_queue_enabled)
    × (is_open v.event_publisher ≡ cfg.mq_enabled)
    × (1 ≤ v.auth_service.jwt_expire_hours)
    × IsServing v.async_chat_service

module _ {S G P R C H D : Type 0} (floats : Floats) (gorm : Gorm S G P) (go_redis : GoRedis S R)
    (amqp : Amqp S C H D) (publish : Broker C H → ChatTask → Exec (Process S) (Unit {0}))
    (cfg : Config) (Sent : H → ℤ → S → Type 0) (sends : Sends amqp Sent) where
  consume_deliveries-Leads :
      (q : Broker C H)
      → Leads Anything
          (consume_deliveries floats gorm go_redis amqp publish cfg q)
          (λ _. Sent q.channel (prefetch_of cfg.worker_concurrency))
          Anything
  unfolding consume_deliveries consume_chat_tasks
  consume_deliveries-Leads q =
      let set = sends.qos q.channel (prefetch_of cfg.worker_concurrency) in
      Leads-on_error _ _ _
        (Leads-bind _ _
          (Leads-on_error _ _ _ set (λ e. record { at = λ s h. tt })
            (λ _. record { at = λ s h. h }))
          (λ _. sends.consume q.channel q.queue (prefetch_of cfg.worker_concurrency)))
        (λ e. record { at = λ s h. tt }) (λ d. record { at = λ s h. h })

  worker_of-WorkerReady :
      (db : G) (rdb : R) (q : Broker C H) (events : Option (Broker C H)) (deliveries : D) (s : S)
      → cfg.async_queue_enabled ≡ true
      → Sent q.channel (prefetch_of cfg.worker_concurrency) s
      → WorkerReady Sent cfg
          (worker_of floats gorm go_redis amqp publish cfg db rdb q events deliveries)
          s
  unfolding worker_of
  worker_of-WorkerReady db rdb q events deliveries s on sent = (
    on,
    positive_concurrency cfg.worker_concurrency,
    subst (λ count. Sent q.channel count s) (prefetch-concurrency cfg.worker_concurrency) sent,
    new_service-IsServing floats true (publish q) cfg,
  )

  server_of-ServerReady :
      (db : G) (rdb : R) (events tasks : Option (Broker C H))
      → is_open events ≡ cfg.mq_enabled
      → is_open tasks ≡ cfg.async_queue_enabled
      → ServerReady cfg (server_of floats gorm go_redis amqp publish cfg db rdb events tasks)
  unfolding server_of new_async_chat_service new_auth_service
  server_of-ServerReady db rdb events tasks e t = (
    t,
    t,
    e,
    positive_or_fallback 24 cfg.jwt_expire_hours (omega arith),
    new_service-IsServing floats (is_open tasks) (task_publisher_of publish tasks) cfg,
  )

  open_events-Leads :
      (failure : Text)
      → Leads Anything
          (open_events floats gorm go_redis amqp publish failure cfg)
          (λ b _. is_open b ≡ cfg.mq_enabled)
          Anything
  unfolding open_events is_open
  open_events-Leads failure = elim (Bool-cases cfg.mq_enabled) [
    | inl on ↦ rw on (Leads-bind _ _ (any-Leads _) (λ b. pure-Leads _ (λ s. refl)))
    | inr off ↦ rw off (pure-Leads _ (λ s. refl))
  ]

  optional_tasks-Leads :
      Leads Anything
        (optional_tasks floats gorm go_redis amqp publish cfg)
        (λ b _. is_open b ≡ cfg.async_queue_enabled)
        Anything
  unfolding optional_tasks is_open
  optional_tasks-Leads = elim (Bool-cases cfg.async_queue_enabled) [
    | inl on ↦ rw on (Leads-bind _ _ (any-Leads _) (λ b. pure-Leads _ (λ s. refl)))
    | inr off ↦ rw off (pure-Leads _ (λ s. refl))
  ]

  enabled-Leads :
      (e : Err)
      → Leads {S = S} Anything
          (reject (not cfg.async_queue_enabled) e)
          (λ _ _. cfg.async_queue_enabled ≡ true)
          Anything
  enabled-Leads e = elim (Bool-cases cfg.async_queue_enabled) [
    | inl on ↦ rw on (record { at = λ s h. refl })
    | inr off ↦ rw off (record { at = λ s h. tt })
  ]

  returned_worker-Leads :
      (db : G) (rdb : R) (q : Broker C H) (events : Option (Broker C H)) (deliveries : D)
      → cfg.async_queue_enabled ≡ true
      → Leads
          (Sent q.channel (prefetch_of cfg.worker_concurrency))
          (pure (worker_of floats gorm go_redis amqp publish cfg db rdb q events deliveries))
          (WorkerReady Sent cfg)
          Anything
  returned_worker-Leads db rdb q events deliveries on = record {
    at = λ s sent. worker_of-WorkerReady db rdb q events deliveries s on sent;
  }

  connect_worker-Leads :
      (db : G) (rdb : R)
      → cfg.async_queue_enabled ≡ true
      → Leads Anything
          (connect_worker floats gorm go_redis amqp publish cfg db rdb)
          (WorkerReady Sent cfg)
          Anything
  unfolding connect_worker codes
  connect_worker-Leads db rdb on =
      after-Leads (open_tasks floats gorm go_redis amqp publish cfg) _ λ q.
        after-Leads
          (open_events floats gorm go_redis amqp publish
            (codes "init rabbitmq event publisher failed: ") cfg)
          _
          λ events.
            Leads-bind (consume_deliveries floats gorm go_redis amqp publish cfg q) _
              (consume_deliveries-Leads q)
              (λ deliveries. returned_worker-Leads db rdb q events deliveries on)

  start_worker-Leads :
      Leads Anything
        (start_worker floats gorm go_redis amqp publish cfg)
        (WorkerReady Sent cfg)
        Anything
  unfolding start_worker
  start_worker-Leads = Leads-bind _ _ (any-Leads _) (λ stores.
      known-Leads (reject (not cfg.async_queue_enabled) _)
        (λ _. connect_worker floats gorm go_redis amqp publish cfg stores.0 stores.1)
        (enabled-Leads _) (λ _ on. connect_worker-Leads stores.0 stores.1 on))

  connect_server-Leads :
      (db : G) (rdb : R) (events : Option (Broker C H))
      → is_open events ≡ cfg.mq_enabled
      → Leads Anything
          (connect_server floats gorm go_redis amqp publish cfg db rdb events)
          (λ v _. ServerReady cfg v)
          Anything
  unfolding connect_server
  connect_server-Leads db rdb events e =
      known-Leads (optional_tasks floats gorm go_redis amqp publish cfg)
        (λ tasks. pure (server_of floats gorm go_redis amqp publish cfg db rdb events tasks))
        optional_tasks-Leads
        (λ tasks t.
          pure-Leads (server_of floats gorm go_redis amqp publish cfg db rdb events tasks)
            (λ s. server_of-ServerReady db rdb events tasks e t))

  start_server-Leads :
      Leads Anything
        (start_server floats gorm go_redis amqp publish cfg)
        (λ v _. ServerReady cfg v)
        Anything
  unfolding start_server codes
  start_server-Leads = Leads-bind _ _ (any-Leads _) (λ stores.
      known-Leads
        (open_events floats gorm go_redis amqp publish (codes "init rabbitmq failed: ") cfg)
        (connect_server floats gorm go_redis amqp publish cfg stores.0 stores.1)
        (open_events-Leads (codes "init rabbitmq failed: "))
        (connect_server-Leads stores.0 stores.1))

  -- Both processes, from any state and under any configuration, end their start with an error or
  -- with settings in their bounds. A worker that has started was allowed to by ASYNC_QUEUE_ENABLED,
  -- its semaphore has at least one slot and the broker has been told to send on its channel as many
  -- deliveries at once as the semaphore has slots, where Qos sets this number and Consume leaves it
  -- alone; a server that has started takes asynchronous chats exactly when the setting is on, has
  -- the connections for tasks and for events exactly when theirs are, and its number of hours for a
  -- token is at least 1. Both give a job at least one attempt and have at least one slot for calls
  -- of the model.
  pub start-Ready :
      (s : S)
      → Ends (WorkerReady Sent cfg) Anything (start_worker floats gorm go_redis amqp publish cfg s)
        × Ends
            (λ v _. ServerReady cfg v)
            Anything
            (start_server floats gorm go_redis amqp publish cfg s)
  start-Ready s = (start_worker-Leads.at s tt, start_server-Leads.at s tt)
