-- ===== src/Service/Chat/Answers.antt =====
-- internal/service/chat_service.go: the calls that return a whole answer.
use go_agent_chat_server.Base.{ℕ, not, nonempty, List, []}
use go_agent_chat_server.Base.Text.{Text, codes, is_empty, trim_space}
use go_agent_chat_server.Base.Int.{pos}
use go_agent_chat_server.Base.Exec.{
  Exec, message, Result, pure, fail, reject, on_error, of_result, ◌>>=◌, ◌>>◌,
}
use go_agent_chat_server.Model
use go_agent_chat_server.Metrics.{
  Process, add, llm_call_total, llm_call_failed_total, llm_call_duration_ms_total,
}
use go_agent_chat_server.Service.Message.{create_message, list_messages}
use go_agent_chat_server.Service.Chat.{ChatEnv, ChatService, ChatResult}
use go_agent_chat_server.Service.Chat.Limits.{
  acquire_llm, and_release, add_elapsed, check_user_llm_rate_limit,
}
use go_agent_chat_server.Service.Chat.Models.{chat_model, chat_completion_model}
use go_agent_chat_server.Service.Chat.Tools.{inject_system_context, publish_chat_event}

module _ {S M : Type 0} (o : ChatEnv S M) (c : ChatService) where
  -- Behind a model's call, which was started at `start`.
  unfoldable pub model_returned : ℕ → Result Text → Exec (Process S) Text
  unfolding add_elapsed
  model_returned start result = do
    add_elapsed o c llm_call_duration_ms_total start
    on_error (of_result result) (λ e. do add llm_call_failed_total (pos 1); fail e) pure

  -- A model's call between the counters.
  unfoldable pub counted : Exec (Process S) Text → Exec (Process S) Text
  unfolding model_returned
  counted model p =
      let (result, q) = model (add llm_call_total (pos 1) p).1 in
      model_returned (o.env.db.now p.outside) result q

  -- The checks that begin chatWithContext, GenerateAnswerFromHistory and StreamChat.
  unfoldable pub check_request : Text → Text → Text → Exec (Process S) (Unit {0})
  unfolding codes trim_space
  check_request user_id session_id user_message = do
    reject (is_empty user_id) (message (codes "user_id is required"))
    reject (is_empty session_id) (message (codes "session_id is required"))
    reject (is_empty (trim_space user_message)) (message (codes "message is required"))

  -- From the model's call on, with the slot taken.
  unfoldable pub answer_and_store :
      Text → Text → Text → Text → Text → List Model.Message → Exec (Process S) ChatResult
  unfolding codes counted chat_model create_message publish_chat_event
  answer_and_store event_type user_id session_id model_name user_message messages = do
    answer ← counted (chat_model o c model_name messages)
    assistant_msg ← create_message o.env user_id session_id (codes "assistant") answer
    publish_chat_event o c event_type user_id session_id model_name user_message answer
        assistant_msg.id
    pure (record {
      session_id = session_id;
      model = model_name;
      answer = answer;
      assistant_message_id = assistant_msg.id;
    })

  -- From the listing of the messages on, which two methods share word for word.
  unfoldable pub answer_from_history :
      Text → Text → Text → Text → Text → Text → Exec (Process S) ChatResult
  unfolding list_messages inject_system_context acquire_llm and_release answer_and_store
  answer_from_history event_type user_id session_id model_name user_message extra_context = do
    listed ← list_messages o.env user_id session_id
    messages ← inject_system_context o c user_id session_id user_message extra_context listed
    acquire_llm o c
    and_release o c
        (answer_and_store event_type user_id session_id model_name user_message messages)

  unfoldable pub chat_with_context : Text → Text → Text → Text → Text → Exec (Process S) ChatResult
  unfolding codes check_request check_user_llm_rate_limit create_message answer_from_history
  chat_with_context user_id session_id model_name user_message extra_context = do
    check_request user_id session_id user_message
    check_user_llm_rate_limit o c user_id
    create_message o.env user_id session_id (codes "user") user_message
    answer_from_history (codes "chat.completed") user_id session_id model_name user_message
        extra_context

  unfoldable pub chat : Text → Text → Text → Text → Exec (Process S) ChatResult
  unfolding chat_with_context
  chat user_id session_id model_name user_message =
      chat_with_context user_id session_id model_name user_message []

  unfoldable pub chat_with_extra_context :
      Text → Text → Text → Text → Text → Exec (Process S) ChatResult
  unfolding chat_with_context
  chat_with_extra_context user_id session_id model_name user_message extra_context =
      chat_with_context user_id session_id model_name user_message extra_context

  unfoldable pub generate_answer_from_history :
      Text → Text → Text → Text → Exec (Process S) ChatResult
  unfolding codes check_request answer_from_history
  generate_answer_from_history user_id session_id model_name user_message = do
    check_request user_id session_id user_message
    answer_from_history (codes "chat.async.completed") user_id session_id model_name user_message []

  unfoldable pub chat_completion : Text → Text → List Model.Message → Exec (Process S) Text
  unfolding codes check_user_llm_rate_limit acquire_llm and_release counted chat_completion_model
  chat_completion user_id model_name messages = do
    reject (is_empty user_id) (message (codes "user_id is required"))
    reject (not (nonempty messages)) (message (codes "messages are required"))
    check_user_llm_rate_limit o c user_id
    acquire_llm o c
    and_release o c (counted (chat_completion_model o c model_name messages))
