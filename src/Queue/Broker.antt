-- ===== src/Queue/Broker.antt =====
-- internal/queue/chat_task.go and internal/queue/rabbitmq.go: the connections to the message broker,
-- their constructors, consumption and Close. The client library of the broker is a parameter.
pub mod Handles
use go_agent_chat_server.Base.{Bool, true, false, ◌&&◌, Option, none, some, if◌then◌else◌}
use go_agent_chat_server.Base.Text.{Text, codes, is_empty}
use go_agent_chat_server.Base.Int.{ℤ, pos, leb_ℤ}
use go_agent_chat_server.Base.Exec.{
  Exec, Err, message, pure, fail, reject, ignore, on_error, ◌>>=◌, ◌>>◌,
}
use go_agent_chat_server.Llm.{wrap}

-- amqp091: `C` is a connection, `H` a channel and `D` a channel of deliveries.
pub record Amqp (S C H D : Type 0) : Type 0 where
  pub dial : Text → Exec S C
  pub open_channel : C → Exec S H
  pub confirm : H → Exec S (Unit {0})
  -- a durable topic exchange, a durable queue, and the binding of a queue by a key to an exchange
  pub exchange_declare : H → Text → Exec S (Unit {0})
  pub queue_declare : H → Text → Exec S (Unit {0})
  pub queue_bind : H → Text → Text → Text → Exec S (Unit {0})
  pub qos : H → ℤ → Exec S (Unit {0})
  pub consume : H → Text → Exec S D
  pub close_channel : H → Exec S (Unit {0})
  pub close_connection : C → Exec S (Unit {0})

-- RabbitMQConfig and RabbitMQTaskConfig, which have the same fields.
pub record BrokerConfig : Type 0 where
  pub url : Text
  pub exchange : Text
  pub routing_key : Text
  pub queue : Text
  pub binding_key : Text

-- RabbitMQPublisher and RabbitMQChatTaskQueue. The publisher of events keeps no queue.
pub record Broker (C H : Type 0) : Type 0 where
  pub conn : C
  pub channel : H
  pub exchange : Text
  pub routing_key : Text
  pub queue : Text

-- The beginnings of the errors of a constructor.
pub record Failures : Type 0 where
  pub connect : Text
  pub open_channel : Text
  pub confirm : Text
  pub exchange : Text
  pub queue : Text
  pub bind : Text

unfoldable pub event_failures : Failures
unfolding codes
event_failures = record {
  connect = codes "connect rabbitmq failed: ";
  open_channel = codes "open rabbitmq channel failed: ";
  confirm = codes "enable rabbitmq publisher confirm failed: ";
  exchange = codes "declare rabbitmq exchange failed: ";
  queue = codes "declare rabbitmq queue failed: ";
  bind = codes "bind rabbitmq queue failed: ";
}

unfoldable pub task_failures : Failures
unfolding codes
task_failures = record {
  connect = codes "connect rabbitmq task queue failed: ";
  open_channel = codes "open rabbitmq task channel failed: ";
  confirm = codes "enable rabbitmq task publisher confirm failed: ";
  exchange = codes "declare rabbitmq task exchange failed: ";
  queue = codes "declare rabbitmq task queue failed: ";
  bind = codes "bind rabbitmq task queue failed: ";
}

-- `if value == "" { value = fallback }`
unfoldable pub default_text : Text → Text → Text
default_text value fallback = if is_empty value then fallback else value

unfoldable pub event_defaults : BrokerConfig → BrokerConfig
unfolding codes default_text
event_defaults cfg = record {
  url = cfg.url;
  exchange = default_text cfg.exchange (codes "chat.events");
  routing_key = default_text cfg.routing_key (codes "chat.event");
  queue = default_text cfg.queue (codes "chat.events.log");
  binding_key = default_text cfg.binding_key (codes "chat.*");
}

unfoldable pub task_defaults : BrokerConfig → BrokerConfig
unfolding codes default_text
task_defaults cfg = record {
  url = cfg.url;
  exchange = default_text cfg.exchange (codes "chat.tasks");
  routing_key = default_text cfg.routing_key (codes "chat.task.created");
  queue = default_text cfg.queue (codes "chat.tasks.worker");
  binding_key = default_text cfg.binding_key (codes "chat.task.*");
}

unfoldable pub prefetch_of : ℤ → ℤ
prefetch_of prefetch = if leb_ℤ prefetch (pos 0) then pos 1 else prefetch

module _ {S C H D : Type 0} (amqp : Amqp S C H D) where
  -- A step of a constructor behind the channel: its error closes both.
  unfoldable pub or_close : {A : Type 0} → C → H → Text → Exec S (Unit {0}) → Exec S A → Exec S A
  or_close conn channel failure step rest =
      on_error step
        (λ e. do
          ignore (amqp.close_channel channel)
          ignore (amqp.close_connection conn)
          fail (wrap failure e))
        (λ _. rest)

  unfoldable pub opened : C → H → BrokerConfig → Broker C H
  opened conn channel cfg = record {
    conn = conn;
    channel = channel;
    exchange = cfg.exchange;
    routing_key = cfg.routing_key;
    queue = cfg.queue;
  }

  -- The publisher of events declares a queue only when it has a name.
  unfoldable pub declare_queue : Bool → Failures → BrokerConfig → C → H → Exec S (Broker C H)
  unfolding or_close opened
  declare_queue optional f cfg conn channel =
      if optional && is_empty cfg.queue
      then pure (opened conn channel cfg)
      else or_close conn channel f.queue (amqp.queue_declare channel cfg.queue) (
          or_close conn channel f.bind
            (amqp.queue_bind channel cfg.queue cfg.binding_key cfg.exchange)
            (pure (opened conn channel cfg)))

  -- With the channel open.
  unfoldable pub set_up : Bool → Failures → BrokerConfig → C → H → Exec S (Broker C H)
  unfolding or_close declare_queue
  set_up optional f cfg conn channel = or_close conn channel f.confirm (amqp.confirm channel) (
      or_close conn channel f.exchange (amqp.exchange_declare channel cfg.exchange)
        (declare_queue optional f cfg conn channel))

  -- With the connection open: an error of its channel closes it.
  unfoldable pub with_connection : Bool → Failures → BrokerConfig → C → Exec S (Broker C H)
  unfolding set_up
  with_connection optional f cfg conn =
      on_error (amqp.open_channel conn)
        (λ e. do ignore (amqp.close_connection conn); fail (wrap f.open_channel e))
        (set_up optional f cfg conn)

  unfoldable pub open_broker : Bool → Failures → BrokerConfig → Exec S (Broker C H)
  unfolding codes with_connection
  open_broker optional f cfg = do
    reject (is_empty cfg.url) (message (codes "rabbitmq url is required"))
    on_error (amqp.dial cfg.url) (λ e. fail (wrap f.connect e)) (with_connection optional f cfg)

  unfoldable pub new_rabbit_mq_publisher : BrokerConfig → Exec S (Broker C H)
  unfolding event_failures event_defaults open_broker
  new_rabbit_mq_publisher cfg = open_broker true event_failures (event_defaults cfg)

  unfoldable pub new_rabbit_mq_chat_task_queue : BrokerConfig → Exec S (Broker C H)
  unfolding task_failures task_defaults open_broker
  new_rabbit_mq_chat_task_queue cfg = open_broker false task_failures (task_defaults cfg)

  -- A nil queue is none.
  unfoldable pub consume_chat_tasks : Option (Broker C H) → ℤ → Exec S D
  unfolding codes prefetch_of
  consume_chat_tasks none prefetch = fail (message (codes "rabbitmq task queue is not initialized"))
  consume_chat_tasks (some q) prefetch = do
    on_error (amqp.qos q.channel (prefetch_of prefetch))
        (λ e. fail (wrap (codes "set rabbitmq task qos failed: ") e)) pure
    amqp.consume q.channel q.queue

  unfoldable pub close : Option (Broker C H) → Exec S (Unit {0})
  close none = pure tt
  close (some q) = do ignore (amqp.close_channel q.channel); amqp.close_connection q.conn
