-- ===== src/Queue/Broker/Handles.antt =====
-- internal/queue: which connections and channels are open behind a constructor and behind Close.
use go_agent_chat_server.Base.{Bool, true, false, ◌&&◌, some}
use go_agent_chat_server.Base.Text.{Text, is_empty}
use go_agent_chat_server.Base.Exec.{Exec, pure}
use go_agent_chat_server.Base.Exec.Leads.{
  Ends, Leads, Leads-on_error, Leads-if, reject-Ends, Ends-mono,
}
use go_agent_chat_server.Queue.Broker.{
  event_failures, event_defaults, task_failures, task_defaults, Amqp, BrokerConfig, Broker,
  Failures, or_close, opened, declare_queue, set_up, with_connection, open_broker,
  new_rabbit_mq_publisher, new_rabbit_mq_chat_task_queue, close,
}

-- What the client library documents: nothing is open, or a connection is, or a connection and a
-- channel of it are, or a connection is and its channel may have been closed with an error: the
-- broker closes a channel on which a declaration or a binding fails, and may close it when
-- confirmations are refused. Close on a channel that is closed only returns an error.
pub record Tracks {S C H D : Type 0} (amqp : Amqp S C H D) (Idle : S → Type 0)
    (Connected : C → S → Type 0) (Ready Spoilt : C → H → S → Type 0) : Type 0 where
  pub dial : (url : Text) → Leads Idle (amqp.dial url) Connected Idle
  pub open_channel : (c : C) → Leads (Connected c) (amqp.open_channel c) (Ready c) (Connected c)
  pub confirm : (c : C) (h : H) → Leads (Ready c h) (amqp.confirm h) (λ _. Ready c h) (Spoilt c h)
  pub exchange_declare :
      (c : C) (h : H) (exchange : Text)
      → Leads (Ready c h) (amqp.exchange_declare h exchange) (λ _. Ready c h) (Spoilt c h)
  pub queue_declare :
      (c : C) (h : H) (queue : Text)
      → Leads (Ready c h) (amqp.queue_declare h queue) (λ _. Ready c h) (Spoilt c h)
  pub queue_bind :
      (c : C) (h : H) (queue key exchange : Text)
      → Leads (Ready c h) (amqp.queue_bind h queue key exchange) (λ _. Ready c h) (Spoilt c h)
  pub close_ready : (c : C) (h : H) (s : S) → Ready c h s → Connected c (amqp.close_channel h s).1
  pub close_spoilt : (c : C) (h : H) (s : S) → Spoilt c h s → Connected c (amqp.close_channel h s).1
  pub close_connection : (c : C) (s : S) → Connected c s → Idle (amqp.close_connection c s).1

module _ {S C H D : Type 0} (amqp : Amqp S C H D) (Idle : S → Type 0) (Connected : C → S → Type 0)
    (Ready Spoilt : C → H → S → Type 0) (t : Tracks amqp Idle Connected Ready Spoilt) where
  -- A broker whose connection and channel are open.
  abbrev pub IsOpen : Broker C H → S → Type 0
  IsOpen b s = Ready b.conn b.channel s

  or_close-Leads :
      (c : C) (h : H) (failure : Text) (step : Exec S (Unit {0})) (rest : Exec S (Broker C H))
      → Leads (Ready c h) step (λ _. Ready c h) (Spoilt c h)
      → Leads (Ready c h) rest IsOpen Idle
      → Leads (Ready c h) (or_close amqp c h failure step rest) IsOpen Idle
  unfolding or_close
  or_close-Leads c h failure step rest kept next =
      Leads-on_error step _ _ kept
        (λ e. record { at = λ s spoilt. t.close_connection c _ (t.close_spoilt c h s spoilt) })
        (λ _. next)

  opened-Leads :
      (c : C) (h : H) (cfg : BrokerConfig)
      → Leads (Ready c h) (pure (opened amqp c h cfg)) IsOpen Idle
  unfolding opened
  opened-Leads c h cfg = record { at = λ s ready. ready }

  set_up-Leads :
      (optional : Bool) (f : Failures) (cfg : BrokerConfig) (c : C) (h : H)
      → Leads (Ready c h) (set_up amqp optional f cfg c h) IsOpen Idle
  unfolding set_up declare_queue
  set_up-Leads optional f cfg c h = or_close-Leads c h f.confirm _ _ (t.confirm c h) (
      or_close-Leads c h f.exchange _ _ (t.exchange_declare c h cfg.exchange) (
        Leads-if (optional && is_empty cfg.queue) _ _ (opened-Leads c h cfg) (
          or_close-Leads c h f.queue _ _ (t.queue_declare c h cfg.queue) (
            or_close-Leads c h f.bind _ _ (t.queue_bind c h cfg.queue cfg.binding_key cfg.exchange)
              (opened-Leads c h cfg)))))

  with_connection-Leads :
      (optional : Bool) (f : Failures) (cfg : BrokerConfig) (c : C)
      → Leads (Connected c) (with_connection amqp optional f cfg c) IsOpen Idle
  unfolding with_connection
  with_connection-Leads optional f cfg c =
      Leads-on_error (amqp.open_channel c) _ _ (t.open_channel c)
        (λ e. record { at = t.close_connection c }) (set_up-Leads optional f cfg c)

  open_broker-Ends :
      (optional : Bool) (f : Failures) (cfg : BrokerConfig) (s : S)
      → Idle s
      → Ends IsOpen Idle (open_broker amqp optional f cfg s)
  unfolding open_broker
  open_broker-Ends optional f cfg s idle =
      reject-Ends {P = Idle} (is_empty cfg.url) _ s _ idle (λ u still. still)
        (Leads-on_error (amqp.dial cfg.url) _ _ (t.dial cfg.url)
          (λ e. record { at = λ u still. still }) (with_connection-Leads optional f cfg))

  -- A broker that is open, and that Close leaves with nothing open.
  abbrev pub Opens : Broker C H → S → Type 0
  Opens b s = IsOpen b s × Idle (close amqp (some b) s).1

  open_broker-Opens :
      (optional : Bool) (f : Failures) (cfg : BrokerConfig) (s : S)
      → Idle s
      → Ends Opens Idle (open_broker amqp optional f cfg s)
  unfolding close
  open_broker-Opens optional f cfg s idle =
      Ends-mono IsOpen Opens Idle _ (open_broker-Ends optional f cfg s idle)
        λ b u ready. (ready, t.close_connection b.conn _ (t.close_ready b.conn b.channel u ready))

  -- Both constructors, when nothing is open, end with their connection and channel open, and then
  -- Close leaves nothing open, or end with an error and nothing open, whichever call fails. A call
  -- that fails on the channel may close it.
  pub new-Opens :
      (cfg : BrokerConfig) (s : S)
      → Idle s
      → Ends Opens Idle (new_rabbit_mq_publisher amqp cfg s)
        × Ends Opens Idle (new_rabbit_mq_chat_task_queue amqp cfg s)
  unfolding new_rabbit_mq_publisher new_rabbit_mq_chat_task_queue
  new-Opens cfg s idle = (
    open_broker-Opens true event_failures (event_defaults cfg) s idle,
    open_broker-Opens false task_failures (task_defaults cfg) s idle,
  )
