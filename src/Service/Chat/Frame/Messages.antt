-- ===== src/Service/Chat/Frame/Messages.antt =====
-- internal/service/message_service.go, internal/cache and internal/agent: what the calls leave alone
-- outside the process.
use go_agent_chat_server.Base.{ℕ, List, Option, none, some}
use go_agent_chat_server.Base.Text.{Text}
use go_agent_chat_server.Base.Int.{ℤ}
use go_agent_chat_server.Base.Exec.Keeps.{Keeps, keeps_rules}
use go_agent_chat_server.Model
use go_agent_chat_server.Store.Session
use go_agent_chat_server.Store.Message
use go_agent_chat_server.Cache.Message.{decode, get_messages, set_messages, delete_messages}
use go_agent_chat_server.Cache.Page.{delete_message_page_caches}
use go_agent_chat_server.Cache.Page.Frame.{page_caches-Keeps}
use go_agent_chat_server.Agent
use go_agent_chat_server.Service.{fresh_id}
use go_agent_chat_server.Service.Message.{
  check_session, check_ids, create_message, list_from_db, cached_or_db, list_messages,
  search_messages,
}
use go_agent_chat_server.Service.Chat.{ChatEnv}
use go_agent_chat_server.Service.Chat.Limits.{}
use go_agent_chat_server.Service.Chat.Tools.{}
use go_agent_chat_server.Service.Chat.Answers.{}
use go_agent_chat_server.Service.Chat.Frame.{Calm, Spares, Outside, outside_rules}

module _ {S M : Type 0} (o : ChatEnv S M) {J : S → Type 0} (calm : Calm o J) where
  open calm use {session_first, message_find, new_id, new_chat_model, generate}

  fresh_id-Keeps : Keeps J (fresh_id o.env)
  unfolding fresh_id
  fresh_id-Keeps = record { at = λ s h. new_id.at s h }

  pub eino_chat-Keeps :
      (c : Agent.EinoRunner) (model_name : Text) (messages : List Model.Message)
      → Keeps J (Agent.chat o.eino c model_name messages)
  unfolding Agent.chat
  eino_chat-Keeps c model_name messages = search (keeps_rules, new_chat_model, generate) depth 16

  first_session-Keeps :
      (id user_id : Text) → Keeps J (Session.get_by_id_and_user_id o.env.db id user_id)
  unfolding Session.get_by_id_and_user_id
  first_session-Keeps id user_id = session_first _

  list_rows-Keeps : (session_id : Text) → Keeps J (Message.list_by_session_id o.env.db session_id)
  unfolding Message.list_by_session_id
  list_rows-Keeps session_id = message_find _

  search_rows-Keeps :
      (session_id keyword : Text) (limit : ℤ)
      → Keeps J (Message.search_by_session_id o.env.db session_id keyword limit)
  unfolding Message.search_by_session_id
  search_rows-Keeps session_id keyword limit = message_find _

  -- The message service.
  check_session-Outside :
      (user_id session_id : Text) → Keeps (Outside J) (check_session o.env user_id session_id)
  unfolding check_session
  check_session-Outside user_id session_id = search (outside_rules, first_session-Keeps) depth 12

  check_ids-Outside :
      (user_id session_id : Text) → Keeps (Outside J) (check_ids o.env user_id session_id)
  unfolding check_ids
  check_ids-Outside user_id session_id = search outside_rules depth 12

  pub search_messages-Outside :
      (user_id session_id keyword : Text) (limit : ℤ)
      → Keeps (Outside J) (search_messages o.env user_id session_id keyword limit)
  unfolding search_messages
  search_messages-Outside user_id session_id keyword limit =
      search (outside_rules, check_ids-Outside, check_session-Outside, search_rows-Keeps) depth 20

  module _ (spares : Spares o J) where
    open spares use {message_create, redis_get, redis_set, redis_del, redis_scan}

    decode-Keeps : (value : Option Text) → Keeps J (decode o.env.redis o.env.json value)
    unfolding decode
    decode-Keeps none = search keeps_rules
    decode-Keeps (some value) = search keeps_rules

    get_messages-Keeps :
        (session_id : Text) → Keeps J (get_messages o.env.redis o.env.json session_id)
    unfolding get_messages
    get_messages-Keeps session_id = search (keeps_rules, redis_get, decode-Keeps) depth 12

    set_messages-Keeps :
        (session_id : Text) (messages : List Model.Message)
        → Keeps J (set_messages o.env.redis o.env.json session_id messages)
    unfolding set_messages
    set_messages-Keeps session_id messages = search (keeps_rules, redis_set) depth 12

    delete_messages-Keeps : (session_id : Text) → Keeps J (delete_messages o.env.redis session_id)
    unfolding delete_messages
    delete_messages-Keeps session_id = redis_del _

    delete_message_page_caches-Keeps :
        (rounds : ℕ) (session_id : Text)
        → Keeps J (delete_message_page_caches o.env.redis rounds session_id)
    delete_message_page_caches-Keeps = page_caches-Keeps o.env.redis redis_scan redis_del

    create_row-Keeps : (row : Model.Message) → Keeps J (Message.create o.env.db row)
    unfolding Message.create
    create_row-Keeps row = message_create row

    pub create_message-Outside :
        (user_id session_id role content : Text)
        → Keeps (Outside J) (create_message o.env user_id session_id role content)
    unfolding create_message
    create_message-Outside user_id session_id role content =
        search
          (
            outside_rules, check_ids-Outside, check_session-Outside, fresh_id-Keeps,
            create_row-Keeps, delete_messages-Keeps, delete_message_page_caches-Keeps,
          )
          depth 20

    list_from_db-Outside : (session_id : Text) → Keeps (Outside J) (list_from_db o.env session_id)
    unfolding list_from_db
    list_from_db-Outside session_id =
        search (outside_rules, list_rows-Keeps, set_messages-Keeps) depth 20

    cached_or_db-Outside :
        (session_id : Text) (cached : Option (List Model.Message))
        → Keeps (Outside J) (cached_or_db o.env session_id cached)
    unfolding cached_or_db
    cached_or_db-Outside session_id none = list_from_db-Outside session_id
    cached_or_db-Outside session_id (some messages) = search outside_rules depth 12

    pub list_messages-Outside :
        (user_id session_id : Text) → Keeps (Outside J) (list_messages o.env user_id session_id)
    unfolding list_messages
    list_messages-Outside user_id session_id =
        search
          (
            outside_rules, check_ids-Outside, check_session-Outside, get_messages-Keeps,
            list_from_db-Outside, cached_or_db-Outside,
          )
          depth 20
