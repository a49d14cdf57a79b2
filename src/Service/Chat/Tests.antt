-- ===== src/Service/Chat/Tests.antt =====
-- Chats in an in-memory world.
use go_agent_chat_server.Base.{◌≤◌, ◌≡◌, refl, List, [], ◌∷◌, Option, none, select}
use go_agent_chat_server.Base.Text.{Text, codes, text_eq}
use go_agent_chat_server.Base.Int.{pos}
use go_agent_chat_server.Base.Exec.{Exec, ok}
use go_agent_chat_server.Base.Exec.Keeps.{Keeps}
use go_agent_chat_server.Model
use go_agent_chat_server.Store.Message
use go_agent_chat_server.Cache.Message.{get_messages, set_messages, delete_messages}
use go_agent_chat_server.Cache.Page.{delete_message_page_caches}
use go_agent_chat_server.Service.{fresh_id}
use go_agent_chat_server.Metrics.{Process, add, call}
use go_agent_chat_server.Service.Chat.{ChatEnv}
use go_agent_chat_server.Service.Chat.Answers.{
  chat_with_context, generate_answer_from_history, chat_completion,
}
use go_agent_chat_server.Service.Chat.Streams.{stream_chat, stream_chat_completion}
use go_agent_chat_server.Service.Chat.Limits.{acquire_llm}
use go_agent_chat_server.Service.Chat.Frame.{Calm}
use go_agent_chat_server.Service.Chat.Slots.{HasSlots}
use go_agent_chat_server.Service.Chat.Slots.Sharing.{idle, granted, Sharing-bounded}
use go_agent_chat_server.Service.Chat.Slots.Answers.{
  chat_with_context-HasSlots, generate_answer_from_history-HasSlots, chat_completion-HasSlots,
}
use go_agent_chat_server.Service.Chat.Slots.Streams.{
  stream_chat-HasSlots, stream_chat_completion-HasSlots,
}
use go_agent_chat_server.Base.Exec.Leads.{Ends}
use go_agent_chat_server.Service.Message.Views.{Entry}
use go_agent_chat_server.Service.Chat.Conversation.{Conversed, Stopped, chat_with_context-Conversed}
use go_agent_chat_server.World.Shelf.{Shelf, shelf_env, HasShelf}
use go_agent_chat_server.World.Shelf.Laws.{shelf_views}
use go_agent_chat_server.World.{chat_env_of, World, chat_env, chat_service, empty_world, process}

abbrev session : Model.Session
session = record { id = codes "s"; user_id = codes "u"; title = []; created_at = 0; updated_at = 0 }

abbrev start : Process World
start = process (record empty_world { sessions = session ∷ [] })

-- The answer is stored behind the question, under the identifier that is returned.
chat_test :
    ((chat_with_context chat_env chat_service (codes "u") (codes "s") [] (codes "hi") [] start).0
      ≡ ok (record {
        session_id = codes "s";
        model = [];
        answer = codes "hello";
        assistant_message_id = 8 ∷ [];
      }))
unfolding codes chat_with_context select text_eq add call fresh_id Message.create
    delete_message_page_caches delete_messages get_messages Message.list_by_session_id set_messages
chat_test = refl

chat_with_context-HasSlots_example :
    Keeps
      (HasSlots 0 (pos 0) (pos 0))
      (chat_with_context chat_env chat_service (codes "u") (codes "s") [] (codes "hi") [])
chat_with_context-HasSlots_example =
    chat_with_context-HasSlots chat_env chat_service (codes "u") (codes "s") [] (codes "hi") []

generate_answer_from_history-HasSlots_example :
    Keeps
      (HasSlots 0 (pos 0) (pos 0))
      (generate_answer_from_history chat_env chat_service (codes "u") (codes "s") [] (codes "hi"))
generate_answer_from_history-HasSlots_example =
    generate_answer_from_history-HasSlots chat_env chat_service (codes "u") (codes "s") []
      (codes "hi")

chat_completion-HasSlots_example :
    Keeps
      (HasSlots 0 (pos 0) (pos 0))
      (chat_completion chat_env chat_service (codes "u") (codes "mock") [])
chat_completion-HasSlots_example =
    chat_completion-HasSlots chat_env chat_service (codes "u") (codes "mock") []

abbrev on_delta : Text → Exec (Process World) (Unit {0})
on_delta delta p = (ok tt, p)

stream_chat-HasSlots_example :
    Keeps
      (HasSlots 0 (pos 0) (pos 0))
      (stream_chat chat_env chat_service on_delta (codes "u") (codes "s") [] (codes "hi"))
stream_chat-HasSlots_example =
    stream_chat-HasSlots chat_env chat_service on_delta (λ delta. record { at = λ p h. h })
      (codes "u") (codes "s") [] (codes "hi")

stream_chat_completion-HasSlots_example :
    Keeps
      (HasSlots 0 (pos 0) (pos 0))
      (stream_chat_completion chat_env chat_service on_delta (codes "u") (codes "mock") [])
stream_chat_completion-HasSlots_example =
    stream_chat_completion-HasSlots chat_env chat_service on_delta
      (λ delta. record { at = λ p h. h }) (codes "u") (codes "mock") []

-- Both slots are taken, one after the other.
Sharing-bounded_example :
    ((acquire_llm chat_env chat_service (acquire_llm chat_env chat_service start).1).1.llm_slots
      ≡ 2)
    × (2 ≤ 2)
unfolding acquire_llm add call
Sharing-bounded_example =
    Sharing-bounded chat_env chat_service (granted (granted (idle {p = start} refl) refl) refl)

-- A session with an empty list, in a world with a cache.
abbrev shelf_start : Process Shelf
shelf_start =
    process (record { sessions = session ∷ []; messages = []; cached = none; next_id = 7 })

abbrev shelf_chat : ChatEnv Shelf (Unit {0})
shelf_chat = chat_env_of shelf_env

shelf_calm : (l : List Entry) (t : Option Text) → Calm shelf_chat (HasShelf l t)
shelf_calm l t = record {
  session_first = λ rows. record { at = λ s h. h };
  message_find = λ query. record { at = λ s h. h };
  new_id = record { at = λ s h. h };
  new_chat_model = λ url model_name. record { at = λ s h. h };
  generate = λ chat_model messages. record { at = λ s h. h };
  slot_or_done = record { at = λ s h. h };
  done = record { at = λ s h. h };
  timer = λ ms. record { at = λ s h. h };
}

chat_with_context-Conversed_example :
    Ends
      (λ r q. Conversed shelf_chat (codes "s") HasShelf [] (codes "hi") r q.outside)
      (λ q. Stopped shelf_chat (codes "s") HasShelf [] (codes "hi") q.outside)
      (chat_with_context shelf_chat chat_service
        (codes "u")
        (codes "s")
        []
        (codes "hi")
        []
        shelf_start)
unfolding select
chat_with_context-Conversed_example =
    chat_with_context-Conversed shelf_chat chat_service (codes "s") HasShelf shelf_views shelf_calm
      (λ l t user_id window. record { at = λ s h. h }) [] (codes "u") [] (codes "hi") [] shelf_start
      (record { cached = none; held = (refl, refl); agrees = tt })
