-- ===== src/Service/Chat/Slots/Answers.antt =====
-- internal/service/chat_service.go: a call that returns a whole answer gives its slot back.
use go_agent_chat_server.Base.{ℕ, refl, List}
use go_agent_chat_server.Base.Text.{Text}
use go_agent_chat_server.Base.Int.{ℤ, pos}
use go_agent_chat_server.Base.Exec.{Exec, Result}
use go_agent_chat_server.Base.Exec.Keeps.{Keeps}
use go_agent_chat_server.Model.{Message}
use go_agent_chat_server.Metrics.{Process, llm_call_total}
use go_agent_chat_server.Service.Chat.{ChatEnv, ChatService}
use go_agent_chat_server.Service.Chat.Models.{mock_chat, chat_model, chat_completion_model}
use go_agent_chat_server.Service.Chat.Tools.{
  with_search, tool_context_from, build_tool_context, inject_system_context, publish_chat_event,
}
use go_agent_chat_server.Service.Chat.Answers.{
  model_returned, counted, check_request, answer_and_store, answer_from_history, chat_with_context,
  generate_answer_from_history, chat_completion,
}
use go_agent_chat_server.Service.Chat.Slots.{
  HasSlots, calls, add-HasSlots, create_message-HasSlots, list_messages-HasSlots,
  search_messages-HasSlots,
}
use go_agent_chat_server.Service.Chat.Slots.Acquire.{
  add_elapsed-HasSlots, check_user_llm_rate_limit-HasSlots, Keeps-slot,
}

module _ {S M : Type 0} (o : ChatEnv S M) (c : ChatService) {n : ℕ} {z w : ℤ} where
  pub mock_chat-HasSlots :
      (messages : List Message) → Keeps (HasSlots n z w) (mock_chat o c messages)
  unfolding mock_chat
  mock_chat-HasSlots messages = search calls depth 16

  chat_model-HasSlots :
      (model_name : Text) (messages : List Message)
      → Keeps (HasSlots n z w) (chat_model o c model_name messages)
  unfolding chat_model
  chat_model-HasSlots model_name messages = search (calls, mock_chat-HasSlots) depth 16

  chat_completion_model-HasSlots :
      (model_name : Text) (messages : List Message)
      → Keeps (HasSlots n z w) (chat_completion_model o c model_name messages)
  unfolding chat_completion_model
  chat_completion_model-HasSlots model_name messages = search (calls, mock_chat-HasSlots) depth 16

  model_returned-HasSlots :
      (start : ℕ) (result : Result Text) → Keeps (HasSlots n z w) (model_returned o c start result)
  unfolding model_returned
  model_returned-HasSlots start result = search (calls, add_elapsed-HasSlots) depth 16

  counted-HasSlots :
      (model : Exec (Process S) Text)
      → Keeps (HasSlots n z w) model
      → Keeps (HasSlots n z w) (counted o c model)
  unfolding counted
  counted-HasSlots model km = record {
    at = λ p h.
        (model_returned-HasSlots _ _).at _
          (km.at _ ((add-HasSlots llm_call_total (pos 1) refl).at p h));
  }

  with_search-HasSlots :
      (results : List Text) (user_id session_id user_message : Text)
      → Keeps (HasSlots n z w) (with_search o c results user_id session_id user_message)
  unfolding with_search
  with_search-HasSlots results user_id session_id user_message =
      search (calls, search_messages-HasSlots) depth 16

  tool_context_from-HasSlots :
      (results : List Text) (user_id session_id user_message : Text)
      → Keeps (HasSlots n z w) (tool_context_from o c results user_id session_id user_message)
  unfolding tool_context_from
  tool_context_from-HasSlots results user_id session_id user_message =
      search (calls, with_search-HasSlots) depth 16

  build_tool_context-HasSlots :
      (user_id session_id user_message : Text)
      → Keeps (HasSlots n z w) (build_tool_context o c user_id session_id user_message)
  unfolding build_tool_context
  build_tool_context-HasSlots user_id session_id user_message = record {
    at = λ p h. (tool_context_from-HasSlots _ user_id session_id user_message).at p h;
  }

  pub inject_system_context-HasSlots :
      (user_id session_id user_message extra_context : Text) (messages : List Message)
      → Keeps
          (HasSlots n z w)
          (inject_system_context o c user_id session_id user_message extra_context messages)
  unfolding inject_system_context
  inject_system_context-HasSlots user_id session_id user_message extra_context messages =
      search (calls, build_tool_context-HasSlots) depth 16

  pub publish_chat_event-HasSlots :
      (event_type user_id session_id model_name user_message answer assistant_message_id : Text)
      → Keeps (HasSlots n z w) (
          publish_chat_event o c event_type user_id session_id model_name user_message answer
            assistant_message_id)
  unfolding publish_chat_event
  publish_chat_event-HasSlots event_type user_id session_id model_name user_message answer
        assistant_message_id =
      record {
        at = λ p h. record { slots = h.slots; in_flight = h.in_flight; streams = h.streams };
      }

  pub check_request-HasSlots :
      (user_id session_id user_message : Text)
      → Keeps (HasSlots n z w) (check_request o c user_id session_id user_message)
  unfolding check_request
  check_request-HasSlots user_id session_id user_message = search calls depth 16

  answer_and_store-HasSlots :
      (event_type user_id session_id model_name user_message : Text) (messages : List Message)
      → Keeps
          (HasSlots n z w)
          (answer_and_store o c event_type user_id session_id model_name user_message messages)
  unfolding answer_and_store
  answer_and_store-HasSlots event_type user_id session_id model_name user_message messages =
      search
        (
          calls, chat_model-HasSlots, counted-HasSlots, create_message-HasSlots,
          publish_chat_event-HasSlots,
        )
        depth 20

module _ {S M : Type 0} (o : ChatEnv S M) (c : ChatService) {n : ℕ} {z w : ℤ} where
  answer_from_history-HasSlots :
      (event_type user_id session_id model_name user_message extra_context : Text)
      → Keeps (HasSlots n z w) (
          answer_from_history o c event_type user_id session_id model_name user_message
            extra_context)
  unfolding answer_from_history
  answer_from_history-HasSlots event_type user_id session_id model_name user_message extra_context =
      search
        (
          calls, Keeps-slot, answer_and_store-HasSlots, list_messages-HasSlots,
          inject_system_context-HasSlots,
        )
        depth 20

  -- Chat and ChatWithExtraContext leave the number of taken slots, the count of calls in flight and
  -- the count of open streams as they found them, whatever the outcome, errors of every call
  -- included.
  pub chat_with_context-HasSlots :
      (user_id session_id model_name user_message extra_context : Text)
      → Keeps
          (HasSlots n z w)
          (chat_with_context o c user_id session_id model_name user_message extra_context)
  unfolding chat_with_context
  chat_with_context-HasSlots user_id session_id model_name user_message extra_context =
      search
        (
          calls, check_request-HasSlots, check_user_llm_rate_limit-HasSlots,
          create_message-HasSlots, answer_from_history-HasSlots,
        )
        depth 20

  -- GenerateAnswerFromHistory leaves the number of taken slots, the count of calls in flight and
  -- the count of open streams as it found them, whatever the outcome, errors of every call
  -- included.
  pub generate_answer_from_history-HasSlots :
      (user_id session_id model_name user_message : Text)
      → Keeps
          (HasSlots n z w)
          (generate_answer_from_history o c user_id session_id model_name user_message)
  unfolding generate_answer_from_history
  generate_answer_from_history-HasSlots user_id session_id model_name user_message =
      search (calls, check_request-HasSlots, answer_from_history-HasSlots) depth 20

  -- ChatCompletion leaves the number of taken slots, the count of calls in flight and the count of
  -- open streams as it found them, whatever the outcome, errors of every call included.
  pub chat_completion-HasSlots :
      (user_id model_name : Text) (messages : List Message)
      → Keeps (HasSlots n z w) (chat_completion o c user_id model_name messages)
  unfolding chat_completion
  chat_completion-HasSlots user_id model_name messages =
      search
        (
          calls, check_user_llm_rate_limit-HasSlots, Keeps-slot, counted-HasSlots,
          chat_completion_model-HasSlots,
        )
        depth 20
