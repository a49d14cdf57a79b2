-- ===== src/Service/Chat/Streams.antt =====
-- internal/service/chat_service.go: the calls that stream an answer, which return the answer so far
-- beside an error.
use go_agent_chat_server.Base.{ℕ, not, nonempty, List, [], Option, none, some}
use go_agent_chat_server.Base.Text.{Text, codes, is_empty}
use go_agent_chat_server.Base.Int.{pos}
use go_agent_chat_server.Base.Exec.{Exec, Err, message, reject, ◌>>=◌, ◌>>◌}
use go_agent_chat_server.Model
use go_agent_chat_server.Metrics.{
  Process, add, llm_call_total, llm_call_failed_total, llm_call_duration_ms_total,
}
use go_agent_chat_server.Llm.Stream.{Streamed, stop, or_stop}
use go_agent_chat_server.Service.Message.{create_message, list_messages}
use go_agent_chat_server.Service.Chat.{ChatEnv, ChatService}
use go_agent_chat_server.Service.Chat.Limits.{
  acquire_llm, and_release, add_elapsed, check_user_llm_rate_limit,
}
use go_agent_chat_server.Service.Chat.Models.{stream_model}
use go_agent_chat_server.Service.Chat.Tools.{inject_system_context, publish_chat_event}
use go_agent_chat_server.Service.Chat.Answers.{check_request}

-- An error of `m` ends the call with the answer `answer`.
abbrev pub then_stream : {P A : Type 0} → Text → Exec P A → (A → Streamed P) → Streamed P
then_stream answer m k = or_stop answer (λ e. e) m k

module _ {S M : Type 0} (o : ChatEnv S M) (c : ChatService) where
  -- Behind a stream: the rest of the call, or the error.
  unfoldable pub check_streamed :
      (Text → Streamed (Process S)) → Text × Option Err → Streamed (Process S)
  check_streamed next (answer, none) = next answer
  check_streamed next (answer, some e) =
      or_stop answer (λ e. e) (add llm_call_failed_total (pos 1)) λ _. stop answer (some e)

  -- Behind a stream that was started at `start`.
  unfoldable pub stream_returned :
      ℕ → (Text → Streamed (Process S)) → Text × Option Err → Streamed (Process S)
  unfolding add_elapsed check_streamed
  stream_returned start next result =
      then_stream [] (add_elapsed o c llm_call_duration_ms_total start)
        λ _. check_streamed next result

  -- The model's call between the counters, then `next` on the answer.
  unfoldable pub counted_stream :
      Streamed (Process S) → (Text → Streamed (Process S)) → Streamed (Process S)
  unfolding stream_returned
  counted_stream model next p =
      let (result, q) = model (add llm_call_total (pos 1) p).1 in
      stream_returned (o.env.db.now p.outside) next result q

  -- With the slot taken.
  unfoldable pub stream_and_store :
      (Text → Exec (Process S) (Unit {0}))
      → Text
      → Text
      → Text
      → Text
      → List Model.Message
      → Streamed (Process S)
  unfolding codes counted_stream stream_model create_message publish_chat_event
  stream_and_store on_delta user_id session_id model_name user_message messages =
      counted_stream (stream_model o c on_delta model_name messages) λ answer.
        then_stream answer (create_message o.env user_id session_id (codes "assistant") answer)
          λ assistant_msg.
            then_stream answer
              (publish_chat_event o c (codes "chat.stream.completed") user_id session_id model_name
                user_message answer assistant_msg.id)
              λ _. stop answer none

  -- What comes before the wait for a slot: the messages for the model.
  unfoldable pub stream_messages : Text → Text → Text → Exec (Process S) (List Model.Message)
  unfolding codes check_request check_user_llm_rate_limit create_message list_messages
      inject_system_context
  stream_messages user_id session_id user_message = do
    check_request o c user_id session_id user_message
    check_user_llm_rate_limit o c user_id
    create_message o.env user_id session_id (codes "user") user_message
    listed ← list_messages o.env user_id session_id
    inject_system_context o c user_id session_id user_message [] listed

  unfoldable pub stream_chat :
      (Text → Exec (Process S) (Unit {0})) → Text → Text → Text → Text → Streamed (Process S)
  unfolding stream_messages acquire_llm and_release stream_and_store
  stream_chat on_delta user_id session_id model_name user_message =
      then_stream [] (stream_messages user_id session_id user_message) λ messages.
        then_stream [] (acquire_llm o c) λ _.
          and_release o c
            (stream_and_store on_delta user_id session_id model_name user_message messages)

  -- The checks of StreamChatCompletion.
  unfoldable pub check_completion : Text → List Model.Message → Exec (Process S) (Unit {0})
  unfolding codes check_user_llm_rate_limit
  check_completion user_id messages = do
    reject (is_empty user_id) (message (codes "user_id is required"))
    reject (not (nonempty messages)) (message (codes "messages are required"))
    check_user_llm_rate_limit o c user_id

  unfoldable pub stream_chat_completion :
      (Text → Exec (Process S) (Unit {0})) → Text → Text → List Model.Message → Streamed (Process S)
  unfolding check_completion acquire_llm and_release counted_stream stream_model
  stream_chat_completion on_delta user_id model_name messages =
      then_stream [] (check_completion user_id messages) λ _. then_stream [] (acquire_llm o c) λ _.
        and_release o c (
          counted_stream (stream_model o c on_delta model_name messages) λ answer. stop answer none)
