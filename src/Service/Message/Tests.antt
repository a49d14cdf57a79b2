-- ===== src/Service/Message/Tests.antt =====
-- A session of another user in an in-memory world.
use go_agent_chat_server.Base.{ℕ, ◌≡◌, refl, List, [], ◌∷◌, select, none, map, length, any}
use go_agent_chat_server.Base.Text.{codes, text_eq}
use go_agent_chat_server.Base.Int.{pos}
use go_agent_chat_server.Base.Exec.{Result, ok, err, message, record_not_found}
use go_agent_chat_server.Model
use go_agent_chat_server.Metrics.{Process, add, call}
use go_agent_chat_server.Store.Message
use go_agent_chat_server.Cache.Message.{
  message_cache_key, get_messages, set_messages, delete_messages,
}
use go_agent_chat_server.Cache.Page.{delete_message_page_caches}
use go_agent_chat_server.Service.{fresh_id}
use go_agent_chat_server.Service.Message.{
  create_message, list_messages, list_messages_page, search_messages,
}
use go_agent_chat_server.Service.Message.Access.{foreign_session-unchanged}
use go_agent_chat_server.Service.Message.Refinement.{
  Op, create_op, list_op, Answer, created, listed, Explains, serve_all, serve_all-Explains,
}
use go_agent_chat_server.World.Shelf.{Shelf, shelf_env, HasShelf}
use go_agent_chat_server.World.Shelf.Laws.{shelf_views}
use go_agent_chat_server.World.{World, env, empty_world, process}

abbrev session : Model.Session
session = record { id = codes "s"; user_id = codes "u"; title = []; created_at = 0; updated_at = 0 }

abbrev start : Process World
start = process (record empty_world { sessions = session ∷ [] })

foreign_session-unchanged_example :
    (create_message env (codes "v") (codes "s") [] (codes "hi") start
      ≡ (err (message (codes "session not found")), start))
    × (list_messages env (codes "v") (codes "s") start
        ≡ (err (message (codes "session not found")), start))
    × (list_messages_page env (codes "v") (codes "s") (pos 1) (pos 20) start
        ≡ (err (message (codes "session not found")), start))
    × (search_messages env (codes "v") (codes "s") [] (pos 5) start
        ≡ (err (message (codes "session not found")), start))
unfolding codes select text_eq
foreign_session-unchanged_example =
    foreign_session-unchanged env (codes "v") (codes "s") record_not_found start refl refl refl []
      (codes "hi") [] (pos 1) (pos 20) (pos 5) refl

abbrev shelf : Process Shelf
shelf = process (record { sessions = session ∷ []; messages = []; cached = none; next_id = 7 })

-- A message, a list that fills the cache, one that reads it, two refusals and another message.
abbrev requests : List Op
requests =
    create_op (codes "u") [] (codes "hi")
    ∷ list_op (codes "u")
    ∷ list_op (codes "u")
    ∷ list_op (codes "v")
    ∷ create_op (codes "u") [] []
    ∷ create_op (codes "u") (codes "assistant") (codes "hello")
    ∷ list_op (codes "u")
    ∷ []

answer_size : Result Answer → ℕ
answer_size (ok (created m)) = 100
answer_size (ok (listed ms)) = length ms
answer_size (err e) = 200

requests-answered :
    map answer_size (serve_all shelf_env (codes "s") requests shelf)
    ≡ 100 ∷ 1 ∷ 1 ∷ 200 ∷ 200 ∷ 100 ∷ 2 ∷ []
unfolding codes select text_eq any serve_all answer_size create_message call fresh_id Message.create
    list_messages delete_message_page_caches delete_messages message_cache_key get_messages add
    Message.list_by_session_id set_messages
requests-answered = refl

serve_all-Explains_example :
    Explains shelf_env (codes "s") [] requests (serve_all shelf_env (codes "s") requests shelf)
unfolding select
serve_all-Explains_example =
    serve_all-Explains shelf_env (codes "s") HasShelf shelf_views [] requests shelf
      (record { cached = none; held = (refl, refl); agrees = tt })
