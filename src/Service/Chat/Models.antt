-- ===== src/Service/Chat/Models.antt =====
-- internal/service/chat_service.go: the choice of a model, and the mock model.
use go_agent_chat_server.Base.{List, [], ◌∷◌, ◌++◌, none, if◌then◌else◌}
use go_agent_chat_server.Base.Text.{Text, codes, trim_space}
use go_agent_chat_server.Base.Exec.{Exec, pure, ◌>>◌}
use go_agent_chat_server.Model
use go_agent_chat_server.Metrics.{Process, call}
use go_agent_chat_server.Agent
use go_agent_chat_server.Llm.{Http, lift_http}
use go_agent_chat_server.Llm
use go_agent_chat_server.Llm.Stream.{Streamed, stop, or_stop, stream_chat}
use go_agent_chat_server.Service.Chat.{ChatEnv, ChatService}
use go_agent_chat_server.Service.Chat.Context.{is_mock_model, last_user_message}

unfoldable pub mock_answer : List Model.Message → Text
unfolding codes last_user_message
mock_answer messages = codes "mock answer: " ++ last_user_message messages

module _ {S M : Type 0} (o : ChatEnv S M) (c : ChatService) where
  unfoldable pub mock_chat : List Model.Message → Exec (Process S) Text
  unfolding mock_answer
  mock_chat messages = do call (o.timer 120); pure (mock_answer messages)

  -- The loop over the chunks.
  unfoldable pub mock_chunks :
      (Text → Exec (Process S) (Unit {0})) → Text → List Text → Streamed (Process S)
  unfolding trim_space
  mock_chunks on_delta answer [] = stop answer none
  mock_chunks on_delta answer (chunk ∷ chunks) =
      or_stop (trim_space answer) (λ e. e) (call (o.timer 80))
        λ _.
          or_stop (trim_space answer) (λ e. e) (on_delta chunk)
            λ _. mock_chunks on_delta answer chunks

  unfoldable pub mock_stream_chat :
      (Text → Exec (Process S) (Unit {0})) → List Model.Message → Streamed (Process S)
  unfolding codes mock_answer last_user_message mock_chunks
  mock_stream_chat on_delta messages =
      mock_chunks on_delta (mock_answer messages)
        (codes "mock " ∷ codes "answer: " ∷ last_user_message messages ∷ [])

  unfoldable pub chat_model : Text → List Model.Message → Exec (Process S) Text
  unfolding is_mock_model mock_chat Agent.chat
  chat_model model_name messages =
      if is_mock_model model_name
      then mock_chat messages
      else call (Agent.chat o.eino c.eino_runner model_name messages)

  unfoldable pub chat_completion_model : Text → List Model.Message → Exec (Process S) Text
  unfolding is_mock_model mock_chat Llm.chat
  chat_completion_model model_name messages =
      if is_mock_model model_name
      then mock_chat messages
      else call (Llm.chat o.http c.ollama_client model_name messages)

  unfoldable pub stream_model :
      (Text → Exec (Process S) (Unit {0})) → Text → List Model.Message → Streamed (Process S)
  unfolding is_mock_model mock_stream_chat stream_chat
  stream_model on_delta model_name messages =
      if is_mock_model model_name
      then mock_stream_chat on_delta messages
      else stream_chat (lift_http o.http) on_delta c.ollama_client model_name messages
