-- ===== src/Queue/Rabbit.antt =====
-- internal/queue/rabbitmq.go and internal/queue/publisher.go: the publication of events.
pub mod Counted
use go_agent_chat_server.Base.{ℕ, ◌==◌, Option, none, some, ◌++◌, if◌then◌else◌}
use go_agent_chat_server.Base.Text.{Text, codes, is_empty}
use go_agent_chat_server.Base.Int.{pos}
use go_agent_chat_server.Base.Decimal.{format_uint}
use go_agent_chat_server.Base.Exec.{
  Exec, Err, message, Result, pure, fail, of_result, on_error, ◌>>◌,
}
use go_agent_chat_server.Metrics.{
  Process, add, call, rabbitmq_publish_total, rabbitmq_publish_failed_total,
}
use go_agent_chat_server.Llm.{wrap}
use go_agent_chat_server.Queue.Event.{Event}
use go_agent_chat_server.Queue.ChatTask.{
  Return, Confirmation, acked, nacked, closed, context_done, Channel, TaskQueue,
}

-- The text of a returned event.
unfoldable pub event_unroutable : Return → Err
unfolding codes format_uint
event_unroutable r = message (
    codes "rabbitmq event unroutable: reply_code="
    ++ format_uint r.reply_code
    ++ codes " reply_text="
    ++ r.reply_text
    ++ codes " exchange="
    ++ r.exchange
    ++ codes " routing_key="
    ++ r.routing_key)

module _ {S : Type 0} where
  unfoldable pub event_failed : {A : Type 0} → Err → Exec (Process S) A
  event_failed e = do add rabbitmq_publish_failed_total (pos 1); fail e

  unfoldable pub check_event_confirm : Confirmation → Exec (Process S) (Unit {0})
  unfolding codes event_failed
  check_event_confirm acked = pure tt
  check_event_confirm nacked = event_failed (message (codes "rabbitmq publish not acknowledged"))
  check_event_confirm closed = event_failed (message (codes "rabbitmq confirm channel closed"))
  check_event_confirm (context_done e) = event_failed e

module _ {S : Type 0} (channel : Channel S) where
  -- The two `select`s behind the publication.
  unfoldable pub check_event_return : Option Return → Exec (Process S) (Unit {0})
  unfolding event_failed event_unroutable check_event_confirm
  check_event_return (some returned) p = event_failed (event_unroutable returned) p
  check_event_return none p =
      let (confirm, s) = channel.wait_confirm p.outside in
      check_event_confirm confirm (record p { outside = s })

  unfoldable pub poll_event : Exec (Process S) (Unit {0})
  unfolding check_event_return
  poll_event p =
      let (returned, s) = channel.poll_return p.outside in
      check_event_return returned (record p { outside = s })

-- RabbitMQPublisher has the exchange and the routing key of a TaskQueue. EncodeEvent is a parameter;
-- the time that it would add is already there.
module _ {S : Type 0} (channel : Channel S) (encode_event : Event → Result Text) (now : S → ℕ)
    (q : TaskQueue) where
  -- The lock's section.
  unfoldable pub publish_event_body : Event → Text → Exec (Process S) (Unit {0})
  unfolding codes event_failed poll_event
  publish_event_body event body = do
    add rabbitmq_publish_total (pos 1)
    on_error
        (call (
          channel.publish q.exchange (if is_empty event.type then q.routing_key else event.type)
            (record { timestamp = event.created_at; body = body; correlation_id = event.id })))
        (λ e. event_failed (wrap (codes "publish rabbitmq event failed: ") e))
        (λ _. poll_event channel)

  unfoldable pub publish_stamped_event : Event → Exec (Process S) (Unit {0})
  unfolding codes event_failed publish_event_body
  publish_stamped_event event =
      on_error (of_result (encode_event event))
        (λ e. event_failed (wrap (codes "encode event failed: ") e)) (publish_event_body event)

  unfoldable pub publish : Event → Exec (Process S) (Unit {0})
  unfolding publish_stamped_event
  publish event p =
      let stamped = record event { created_at = now p.outside } in
      publish_stamped_event (if event.created_at == 0 then stamped else event) p

-- Publish of an interface value: a nil or a no-op publisher does nothing.
unfoldable pub publish_or_skip :
    {S : Type 0}
    → Option (Event → Exec (Process S) (Unit {0}))
    → Event
    → Exec (Process S) (Unit {0})
publish_or_skip none event = pure tt
publish_or_skip (some publish) event = publish event
