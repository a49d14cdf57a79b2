-- ===== src/Worker.antt =====
-- cmd/worker/main.go: what the worker does with a delivery.
pub mod Requeue
pub mod Termination
pub mod Loop
mod Tests
use go_agent_chat_server.Base.{Bool, true, false, Option, none, some, if◌then◌else◌}
use go_agent_chat_server.Base.Text.{Text}
use go_agent_chat_server.Base.Exec.{Err, Result, ok, err}
use go_agent_chat_server.Metrics.{Process}
use go_agent_chat_server.Queue.ChatTask.{ChatTask, TaskJson, decode_chat_task}
use go_agent_chat_server.Service.Chat.{ChatEnv}
use go_agent_chat_server.Service.AsyncChat.{AsyncChatService, process_task}

-- The call on the delivery, whose error is dropped: Ack(false), or Nack(false, true).
pub data Settled : Type 0 where
  ack requeue : Settled

-- Behind ProcessTask.
unfoldable pub settle : Bool × Option Err → Settled
settle (retryable, none) = ack
settle (retryable, some e) = if retryable then requeue else ack

module _ {S M : Type 0} (o : ChatEnv S M) (a : AsyncChatService S) where
  unfoldable pub handle_decoded : Result ChatTask → Process S → Settled × Process S
  unfolding settle process_task
  handle_decoded (err e) p = (ack, p)
  handle_decoded (ok task) p = let (result, q) = process_task o a task p in (settle result, q)

  unfoldable pub handle_delivery : TaskJson → Text → Process S → Settled × Process S
  unfolding decode_chat_task handle_decoded
  handle_delivery json body = handle_decoded (decode_chat_task json body)
