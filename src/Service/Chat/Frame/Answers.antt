-- ===== src/Service/Chat/Frame/Answers.antt =====
-- internal/service/chat_service.go: what GenerateAnswerFromHistory leaves alone outside the process.
use go_agent_chat_server.Base.{ℕ, Bool-cases, inl, inr, ltb, List}
use go_agent_chat_server.Base.Text.{Text}
use go_agent_chat_server.Base.Int.{pos}
use go_agent_chat_server.Base.Exec.{Exec, Result, ok, err}
use go_agent_chat_server.Base.Exec.Keeps.{Keeps}
use go_agent_chat_server.Model
use go_agent_chat_server.Metrics.{Process, Counter, add}
use go_agent_chat_server.Service.Message.{}
use go_agent_chat_server.Service.Chat.{ChatEnv, ChatService}
use go_agent_chat_server.Service.Chat.Limits.{
  take_slot, free_slot, wait_slot, acquire_after, acquire_from, acquire_llm, add_elapsed, release,
  and_release,
}
use go_agent_chat_server.Service.Chat.Models.{mock_chat, chat_model}
use go_agent_chat_server.Service.Chat.Tools.{
  with_search, tool_context_from, build_tool_context, inject_system_context, publish_chat_event,
}
use go_agent_chat_server.Service.Chat.Answers.{
  model_returned, counted, check_request, answer_and_store, answer_from_history,
}
use go_agent_chat_server.Service.Chat.Frame.{
  Calm, Spares, Outside, outside_rules, call-Outside, add-Outside,
}
use go_agent_chat_server.Service.Chat.Frame.Messages.{
  create_message-Outside, list_messages-Outside, search_messages-Outside, eino_chat-Keeps,
}

module _ {S M : Type 0} (o : ChatEnv S M) (c : ChatService) {J : S → Type 0} (calm : Calm o J) where
  open calm use {new_id, slot_or_done, done, timer}

  add_elapsed-Outside :
      (counter : Counter) (start : ℕ) → Keeps (Outside J) (add_elapsed o c counter start)
  unfolding add_elapsed
  add_elapsed-Outside counter start = record { at = λ p h. (add-Outside counter _).at p h }

  take_slot-Outside : Keeps (Outside J) (take_slot o c)
  unfolding take_slot
  take_slot-Outside = record { at = λ p h. record { held = h.held } }

  free_slot-Outside : Keeps (Outside J) (free_slot o c)
  unfolding free_slot
  free_slot-Outside = record { at = λ p h. record { held = h.held } }

  release-Outside : Keeps (Outside J) (release o c)
  unfolding release
  release-Outside = search (outside_rules, free_slot-Outside) depth 12

  and_release-Outside :
      {R : Type 0} (m : Process S → R × Process S)
      → Keeps (Outside J) m
      → Keeps (Outside J) (and_release o c m)
  unfolding and_release
  and_release-Outside m km = record { at = λ p h. release-Outside.at (m p).1 (km.at p h) }

  wait_slot-Outside : Keeps (Outside J) (wait_slot o c)
  unfolding wait_slot
  wait_slot-Outside = record {
    at = λ p h. elim (Bool-cases (ltb p.llm_slots c.max_concurrent_llm)) [
      | inl free ↦ rw free ((call-Outside o.slot_or_done slot_or_done).at p h)
      | inr full ↦ rw full (record { held = done.at p.outside h.held })
    ];
  }

  acquire_after-Outside :
      (start : ℕ) (r : Result (Unit {0})) (p : Process S)
      → Outside J p
      → Outside J (acquire_after o c start (r, p)).1
  unfolding acquire_after add
  acquire_after-Outside start (ok _) p h =
      (add-Outside _ (pos 1)).at _ ((add_elapsed-Outside _ start).at _ (take_slot-Outside.at p h))
  acquire_after-Outside start (err e) p h = (add-Outside _ (pos 1)).at p h

  pub acquire_llm-Outside : Keeps (Outside J) (acquire_llm o c)
  unfolding acquire_llm acquire_from add
  acquire_llm-Outside = record {
    at = λ p h. acquire_after-Outside _ _ _ (wait_slot-Outside.at _ (record { held = h.held }));
  }

  model_returned-Outside :
      (start : ℕ) (result : Result Text) → Keeps (Outside J) (model_returned o c start result)
  unfolding model_returned
  model_returned-Outside start result = search (outside_rules, add_elapsed-Outside) depth 16

  pub counted-Outside :
      (model : Exec (Process S) Text)
      → Keeps (Outside J) model
      → Keeps (Outside J) (counted o c model)
  unfolding counted
  counted-Outside model km = record {
    at = λ p h. (model_returned-Outside _ _).at _ (km.at _ ((add-Outside _ _).at p h));
  }

  mock_chat-Outside : (messages : List Model.Message) → Keeps (Outside J) (mock_chat o c messages)
  unfolding mock_chat
  mock_chat-Outside messages = search (outside_rules, timer) depth 12

  pub chat_model-Outside :
      (model_name : Text) (messages : List Model.Message)
      → Keeps (Outside J) (chat_model o c model_name messages)
  unfolding chat_model
  chat_model-Outside model_name messages =
      search (outside_rules, mock_chat-Outside, eino_chat-Keeps o calm) depth 16

  with_search-Outside :
      (results : List Text) (user_id session_id user_message : Text)
      → Keeps (Outside J) (with_search o c results user_id session_id user_message)
  unfolding with_search
  with_search-Outside results user_id session_id user_message =
      search (outside_rules, search_messages-Outside o calm) depth 16

  tool_context_from-Outside :
      (results : List Text) (user_id session_id user_message : Text)
      → Keeps (Outside J) (tool_context_from o c results user_id session_id user_message)
  unfolding tool_context_from
  tool_context_from-Outside results user_id session_id user_message =
      search (outside_rules, with_search-Outside) depth 16

  build_tool_context-Outside :
      (user_id session_id user_message : Text)
      → Keeps (Outside J) (build_tool_context o c user_id session_id user_message)
  unfolding build_tool_context
  build_tool_context-Outside user_id session_id user_message = record {
    at = λ p h. (tool_context_from-Outside _ user_id session_id user_message).at p h;
  }

  pub inject_system_context-Outside :
      (user_id session_id user_message extra_context : Text) (messages : List Model.Message)
      → Keeps
          (Outside J)
          (inject_system_context o c user_id session_id user_message extra_context messages)
  unfolding inject_system_context
  inject_system_context-Outside user_id session_id user_message extra_context messages =
      search (outside_rules, build_tool_context-Outside) depth 16

  pub publish_chat_event-Outside :
      (event_type user_id session_id model_name user_message answer assistant_message_id : Text)
      → Keeps (Outside J) (
          publish_chat_event o c event_type user_id session_id model_name user_message answer
            assistant_message_id)
  unfolding publish_chat_event
  publish_chat_event-Outside event_type user_id session_id model_name user_message answer
        assistant_message_id =
      record { at = λ p h. record { held = new_id.at p.outside h.held } }

  pub check_request-Outside :
      (user_id session_id user_message : Text)
      → Keeps (Outside J) (check_request o c user_id session_id user_message)
  unfolding check_request
  check_request-Outside user_id session_id user_message = search outside_rules depth 16

  module _ (spares : Spares o J) where
    answer_and_store-Outside :
        (event_type user_id session_id model_name user_message : Text)
        (messages : List Model.Message)
        → Keeps
            (Outside J)
            (answer_and_store o c event_type user_id session_id model_name user_message messages)
    unfolding answer_and_store
    answer_and_store-Outside event_type user_id session_id model_name user_message messages =
        search
          (
            outside_rules,
            chat_model-Outside,
            counted-Outside,
            create_message-Outside o calm spares,
            publish_chat_event-Outside,
          )
          depth 20

    answer_from_history-Outside :
        (event_type user_id session_id model_name user_message extra_context : Text)
        → Keeps (Outside J) (
            answer_from_history o c event_type user_id session_id model_name user_message
              extra_context)
    unfolding answer_from_history
    answer_from_history-Outside event_type user_id session_id model_name user_message
          extra_context =
        search
          (
            outside_rules,
            acquire_llm-Outside,
            and_release-Outside,
            answer_and_store-Outside,
            list_messages-Outside o calm spares,
            inject_system_context-Outside,
          )
          depth 20
