-- ===== src/Queue/Tests.antt =====
-- A broker in memory, whose state is the number of open handles. A call that fails on a channel
-- closes it.
use go_agent_chat_server.Base.{ℕ, ◌+◌, ◌-◌, ◌==◌, if◌then◌else◌, ◌≡◌, refl, none, [], arith}
use go_agent_chat_server.Base.Text.{codes}
use go_agent_chat_server.Base.Int.{pos}
use go_agent_chat_server.Base.Exec.{ok, err, message}
use go_agent_chat_server.Base.Exec.Leads.{Ends}
use go_agent_chat_server.Metrics.{
  Process, rabbitmq_publish_total, rabbitmq_publish_failed_total, chat_job_published_total,
  chat_job_publish_failed_total,
}
use go_agent_chat_server.Queue.Event.{Event}
use go_agent_chat_server.Queue.ChatTask.{
  ChatTask, Channel, TaskQueue, TaskJson, nacked, publish_chat_task,
}
use go_agent_chat_server.Queue.Rabbit.{publish}
use go_agent_chat_server.Queue.Rabbit.Counted.{Counts, publish-Counts}
use go_agent_chat_server.Queue.Broker.{
  Amqp, BrokerConfig, new_rabbit_mq_publisher, new_rabbit_mq_chat_task_queue,
}
use go_agent_chat_server.Queue.Broker.Handles.{Tracks, Opens, new-Opens}

abbrev Handle : Type 0
Handle = Unit {0}

-- The binding of a queue always fails.
abbrev amqp : Amqp ℕ Handle Handle Handle
amqp = record {
  dial = λ url s. (ok tt, s + 1);
  open_channel = λ c s. (ok tt, s + 1);
  confirm = λ h s. (ok tt, s);
  exchange_declare = λ h exchange s. (ok tt, s);
  queue_declare = λ h queue s. (ok tt, s);
  queue_bind = λ h queue key exchange s. (err (message (codes "refused")), s - 1);
  qos = λ h prefetch s. (ok tt, s);
  consume = λ h queue s. (ok tt, s);
  close_channel = λ h s. if s == 2 then (ok tt, 1) else (err (message (codes "closed")), s);
  close_connection = λ c s. (ok tt, s - 1);
}

abbrev Idle : ℕ → Type 0
Idle s = s ≡ 0

abbrev Connected : Handle → ℕ → Type 0
Connected c s = s ≡ 1

abbrev Ready : Handle → Handle → ℕ → Type 0
Ready c h s = s ≡ 2

abbrev Spoilt : Handle → Handle → ℕ → Type 0
Spoilt c h s = s ≡ 1

abbrev tracks : Tracks amqp Idle Connected Ready Spoilt
tracks = record {
  dial = λ url. record { at = λ s h. omega arith };
  open_channel = λ c. record { at = λ s h. omega arith };
  confirm = λ c h. record { at = λ s r. r };
  exchange_declare = λ c h exchange. record { at = λ s r. r };
  queue_declare = λ c h queue. record { at = λ s r. r };
  queue_bind = λ c h queue key exchange. record { at = λ s r. omega arith };
  close_ready = λ c h s r. rw r refl;
  close_spoilt = λ c h s r. rw r refl;
  close_connection = λ c s r. omega arith;
}

abbrev cfg : BrokerConfig
cfg = record {
  url = codes "amqp://";
  exchange = [];
  routing_key = [];
  queue = [];
  binding_key = [];
}

new-Opens_example :
    Ends (Opens amqp Idle Connected Ready Spoilt tracks) Idle (new_rabbit_mq_publisher amqp cfg 0)
    × Ends
        (Opens amqp Idle Connected Ready Spoilt tracks)
        Idle
        (new_rabbit_mq_chat_task_queue amqp cfg 0)
new-Opens_example = new-Opens amqp Idle Connected Ready Spoilt tracks cfg 0 refl

-- Every message is refused.
abbrev channel : Channel ℕ
channel = record {
  publish = λ exchange key publishing s. (ok tt, s);
  poll_return = λ s. (none, s);
  wait_confirm = λ s. (nacked, s);
}

abbrev json : TaskJson
json = record { marshal_task = λ t. ok t.job_id; unmarshal_task = λ t. err (message t) }

abbrev route : TaskQueue
route = record { exchange = codes "x"; routing_key = codes "k" }

abbrev event : Event
event = record {
  id = codes "1";
  type = [];
  user_id = [];
  session_id = [];
  created_at = 0;
  payload = [];
}

abbrev task : ChatTask
task = record {
  job_id = codes "j";
  user_id = [];
  session_id = [];
  model = [];
  message = [];
  created_at = 0;
}

abbrev start : Process ℕ
start = record { counters = λ c. pos 0; llm_slots = 0; publishing = []; outside = 0 }

publish-Counts_example :
    Counts rabbitmq_publish_total rabbitmq_publish_failed_total start
      (publish channel (λ e. ok e.id) (λ s. 5) route event start)
    × Counts chat_job_published_total chat_job_publish_failed_total start
        (publish_chat_task channel json (λ s. 5) route task start)
publish-Counts_example =
    publish-Counts channel (λ e. ok e.id) json (λ s. 5) route route event task start
