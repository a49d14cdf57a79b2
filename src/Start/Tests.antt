-- ===== src/Start/Tests.antt =====
-- A start whose calls all succeed, with every variable of the environment set to "1".
use go_agent_chat_server.Base.{ℕ, ◌+◌, ◌≡◌, refl}
use go_agent_chat_server.Base.Text.{codes}
use go_agent_chat_server.Base.Int.{ℤ, pos_part}
use go_agent_chat_server.Base.Exec.{ok}
use go_agent_chat_server.Base.Exec.Leads.{Ends}
use go_agent_chat_server.Base.Exec.Anything.{Anything}
use go_agent_chat_server.Config.{Config, load}
use go_agent_chat_server.Connections.{Gorm, GoRedis}
use go_agent_chat_server.Queue.Broker.{Amqp}
use go_agent_chat_server.World.Whole.{whole}
use go_agent_chat_server.Start.{start_worker, start_server}
use go_agent_chat_server.Start.Settings.{Sends, WorkerReady, ServerReady, start-Ready}

abbrev Handle : Type 0
Handle = Unit {0}

-- The state counts the calls, but for `qos`, which sets it to the number of deliveries.
abbrev gorm : Gorm ℕ Handle Handle
gorm = record {
  open_mysql = λ dsn s. (ok tt, s + 1);
  sql_db = λ db s. (ok tt, s + 1);
  set_max_idle_conns = λ pool n s. s + 1;
  set_max_open_conns = λ pool n s. s + 1;
  set_conn_max_lifetime = λ pool n s. s + 1;
  auto_migrate = λ db s. (ok tt, s + 1);
}

abbrev go_redis : GoRedis ℕ Handle
go_redis = record { new_client = λ addr password db s. (tt, s + 1); ping = λ rdb s. (ok tt, s + 1) }

abbrev amqp : Amqp ℕ Handle Handle Handle
amqp = record {
  dial = λ url s. (ok tt, s + 1);
  open_channel = λ c s. (ok tt, s + 1);
  confirm = λ h s. (ok tt, s + 1);
  exchange_declare = λ h exchange s. (ok tt, s + 1);
  queue_declare = λ h queue s. (ok tt, s + 1);
  queue_bind = λ h queue key exchange s. (ok tt, s + 1);
  qos = λ h prefetch s. (ok tt, pos_part prefetch);
  consume = λ h queue s. (ok tt, s);
  close_channel = λ h s. (ok tt, s + 1);
  close_connection = λ c s. (ok tt, s + 1);
}

abbrev cfg : Config
cfg = load (λ key. codes "1")

-- The number of deliveries is the state.
abbrev Sent : Handle → ℤ → ℕ → Type 0
Sent h count s = s ≡ pos_part count

abbrev sends : Sends amqp Sent
sends = record {
  qos = λ h count. record { at = λ s x. refl };
  consume = λ h queue count. record { at = λ s sent. sent };
}

start-Ready_example :
    Ends
      (WorkerReady Sent cfg)
      Anything
      (start_worker whole gorm go_redis amqp (λ q task p. (ok tt, p)) cfg 0)
    × Ends
        (λ v _. ServerReady cfg v)
        Anything
        (start_server whole gorm go_redis amqp (λ q task p. (ok tt, p)) cfg 0)
start-Ready_example = start-Ready whole gorm go_redis amqp (λ q task p. (ok tt, p)) cfg Sent sends 0
