-- ===== src/Service/Chat/Tools.antt =====
-- internal/service/chat_service.go: the context that tools add, and the events.
use go_agent_chat_server.Base.{length, map, nonempty, List, [], ◌∷◌, ◌++◌, if◌then◌else◌}
use go_agent_chat_server.Base.Text.{Text, codes, join}
use go_agent_chat_server.Base.Int.{pos}
use go_agent_chat_server.Base.Exec.{Exec, ok, pure, on_error, ◌>>=◌}
use go_agent_chat_server.Model
use go_agent_chat_server.Metrics.{Process}
use go_agent_chat_server.Queue.Event.{Event, text, number}
use go_agent_chat_server.Tool.Registry.{run_matched}
use go_agent_chat_server.Service.Message.{search_messages}
use go_agent_chat_server.Service.Chat.{ChatEnv, ChatService}
use go_agent_chat_server.Service.Chat.Context.{
  should_search_session, extract_search_keyword, tool_line, search_line, with_context,
}

module _ {S M : Type 0} (o : ChatEnv S M) (c : ChatService) where
  -- The results of a search, or the tools' alone when it fails or finds nothing.
  unfoldable pub with_search : List Text → Text → Text → Text → Exec (Process S) (List Text)
  unfolding search_messages extract_search_keyword search_line
  with_search results user_id session_id user_message =
      on_error
        (search_messages o.env user_id session_id (extract_search_keyword user_message) (pos 5))
        (λ _. pure results)
        λ messages.
          pure (if nonempty messages then results ++ search_line messages ∷ [] else results)

  -- Behind the run of the tools.
  unfoldable pub tool_context_from : List Text → Text → Text → Text → Exec (Process S) Text
  unfolding codes should_search_session with_search join
  tool_context_from results user_id session_id user_message = do
    lines ←
        if should_search_session user_message
        then with_search results user_id session_id user_message
        else pure results
    pure (join lines (codes "\n"))

  unfoldable pub build_tool_context : Text → Text → Text → Exec (Process S) Text
  unfolding run_matched tool_line tool_context_from
  build_tool_context user_id session_id user_message p =
      let registry = c.tool_registry (o.clock p.outside) in
      tool_context_from (map tool_line (run_matched registry user_message)) user_id session_id
        user_message p

  unfoldable pub inject_system_context :
      Text → Text → Text → Text → List Model.Message → Exec (Process S) (List Model.Message)
  unfolding build_tool_context with_context
  inject_system_context user_id session_id user_message extra_context messages = do
    tool_context ← build_tool_context user_id session_id user_message
    pure (with_context extra_context tool_context messages)

  -- The event goes to a goroutine of its own, so a publication that fails changes nothing here.
  -- NewChatService never leaves the publisher nil.
  unfoldable pub publish_chat_event :
      Text → Text → Text → Text → Text → Text → Text → Exec (Process S) (Unit {0})
  unfolding codes
  publish_chat_event event_type user_id session_id model_name user_message answer
        assistant_message_id p =
      let (id, s) = o.env.new_id p.outside in
      let event : Event = record {
        id = id;
        type = event_type;
        user_id = user_id;
        session_id = session_id;
        created_at = o.env.db.now s;
        payload =
            (codes "model", text model_name)
            ∷ (codes "user_message_length", number (length user_message))
            ∷ (codes "answer_length", number (length answer))
            ∷ (codes "assistant_message_id", text assistant_message_id)
            ∷ [];
      } in
      (ok tt, record p { outside = s; publishing = p.publishing ++ event ∷ [] })
