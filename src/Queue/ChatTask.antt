-- ===== src/Queue/ChatTask.antt =====
-- internal/queue/chat_task.go: tasks, their publication and their decoding. The channel of the
-- message broker and JSON are parameters.
use go_agent_chat_server.Base.{ℕ, ◌==◌, Option, none, some, ◌++◌, if◌then◌else◌}
use go_agent_chat_server.Base.Text.{Text, codes, is_empty}
use go_agent_chat_server.Base.Int.{pos}
use go_agent_chat_server.Base.Decimal.{format_uint}
use go_agent_chat_server.Base.Exec.{
  Exec, Err, message, Result, ok, err, pure, fail, of_result, on_error, ◌>>◌,
}
use go_agent_chat_server.Metrics.{
  Process, add, call, chat_job_published_total, chat_job_publish_failed_total,
}
use go_agent_chat_server.Llm.{wrap}

pub record ChatTask : Type 0 where
  pub job_id : Text
  pub user_id : Text
  pub session_id : Text
  pub model : Text
  pub message : Text
  pub created_at : ℕ

-- What a channel has returned as unroutable.
pub record Return : Type 0 where
  pub reply_code : ℕ
  pub reply_text : Text
  pub exchange : Text
  pub routing_key : Text

-- What the wait for a confirmation ends with.
pub data Confirmation : Type 0 where
  acked nacked closed : Confirmation
  context_done : Err → Confirmation

pub record Publishing : Type 0 where
  pub timestamp : ℕ
  pub body : Text
  pub correlation_id : Text

-- An AMQP channel. The `returns` and `confirms` channels belong to its state.
pub record Channel (S : Type 0) : Type 0 where
  -- exchange and routing key
  pub publish : Text → Text → Publishing → Exec S (Unit {0})
  -- the `select` with a default on `returns`
  pub poll_return : S → Option Return × S
  -- the `select` on `confirms` and the context
  pub wait_confirm : S → Confirmation × S

pub record TaskJson : Type 0 where
  pub marshal_task : ChatTask → Result Text
  pub unmarshal_task : Text → Result ChatTask

pub record TaskQueue : Type 0 where
  pub exchange : Text
  pub routing_key : Text

-- The text of a returned message.
unfoldable pub unroutable : Return → Err
unfolding codes format_uint
unroutable r = message (
    codes "chat task unroutable: reply_code="
    ++ format_uint r.reply_code
    ++ codes " reply_text="
    ++ r.reply_text
    ++ codes " exchange="
    ++ r.exchange
    ++ codes " routing_key="
    ++ r.routing_key)

module _ {S : Type 0} where
  unfoldable pub publish_failed : {A : Type 0} → Err → Exec (Process S) A
  publish_failed e = do add chat_job_publish_failed_total (pos 1); fail e

  unfoldable pub check_confirm : Confirmation → Exec (Process S) (Unit {0})
  unfolding codes publish_failed
  check_confirm acked = pure tt
  check_confirm nacked = publish_failed (message (codes "rabbitmq task publish not acknowledged"))
  check_confirm closed = publish_failed (message (codes "rabbitmq task confirm channel closed"))
  check_confirm (context_done e) = publish_failed e

module _ {S : Type 0} (channel : Channel S) (json : TaskJson) (now : S → ℕ) (q : TaskQueue) where
  -- The second `select`, when nothing was returned.
  unfoldable pub check_return : Option Return → Exec (Process S) (Unit {0})
  unfolding publish_failed unroutable check_confirm
  check_return (some returned) p = publish_failed (unroutable returned) p
  check_return none p =
      let (confirm, s) = channel.wait_confirm p.outside in
      check_confirm confirm (record p { outside = s })

  -- The lock's section.
  unfoldable pub publish_body : ChatTask → Text → Exec (Process S) (Unit {0})
  unfolding codes publish_failed check_return
  publish_body task body = do
    add chat_job_published_total (pos 1)
    on_error
        (call (
          channel.publish q.exchange q.routing_key
            (record { timestamp = task.created_at; body = body; correlation_id = task.job_id })))
        (λ e. publish_failed (wrap (codes "publish chat task failed: ") e))
        λ _ p.
          let (returned, s) = channel.poll_return p.outside in
          check_return returned (record p { outside = s })

  unfoldable pub publish_stamped : ChatTask → Exec (Process S) (Unit {0})
  unfolding codes publish_failed publish_body
  publish_stamped task =
      on_error (of_result (json.marshal_task task))
        (λ e. publish_failed (wrap (codes "encode chat task failed: ") e)) (publish_body task)

  unfoldable pub publish_chat_task : ChatTask → Exec (Process S) (Unit {0})
  unfolding publish_stamped
  publish_chat_task task p =
      let stamped = record task { created_at = now p.outside } in
      publish_stamped (if task.created_at == 0 then stamped else task) p

module _ {S : Type 0} where
  -- The publisher of a server without the queue.
  unfoldable pub noop_publish_chat_task : ChatTask → Exec S (Unit {0})
  unfolding codes
  noop_publish_chat_task task = fail (message (codes "async chat task queue is disabled"))

  unfoldable pub noop_close_tasks : Exec S (Unit {0})
  noop_close_tasks = pure tt

unfoldable pub check_job_id : ChatTask → Result ChatTask
unfolding codes
check_job_id task =
    if is_empty task.job_id then err (message (codes "chat task job_id is required")) else ok task

unfoldable pub check_decoded : Result ChatTask → Result ChatTask
unfolding check_job_id
check_decoded (ok task) = check_job_id task
check_decoded (err e) = err e

unfoldable pub decode_chat_task : TaskJson → Text → Result ChatTask
unfolding check_decoded
decode_chat_task json body = check_decoded (json.unmarshal_task body)
