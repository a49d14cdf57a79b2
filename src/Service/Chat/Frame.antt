-- ===== src/Service/Chat/Frame.antt =====
-- internal/service/chat_service.go: invariants of what is outside the process.
pub mod Messages
pub mod Answers
use go_agent_chat_server.Base.{
  ℕ, zero, suc, Bool, Bool-cases, inl, inr, ltb, List, Option, none, some,
}
use go_agent_chat_server.Base.Text.{Text}
use go_agent_chat_server.Base.Int.{ℤ, pos}
use go_agent_chat_server.Base.Exec.{Exec, Result, ok, err}
use go_agent_chat_server.Base.Exec.Keeps.{Keeps, keeps_rules}
use go_agent_chat_server.Model
use go_agent_chat_server.Metrics.{Process, Counter, add, call}
use go_agent_chat_server.Store.{Query}
use go_agent_chat_server.Store.Session
use go_agent_chat_server.Store.Message
use go_agent_chat_server.Cache.Message.{decode, get_messages, set_messages, delete_messages}
use go_agent_chat_server.Cache.Page.{scan_and_delete, delete_message_page_caches}
use go_agent_chat_server.Agent
use go_agent_chat_server.Service.{fresh_id}
use go_agent_chat_server.Service.Message.{
  check_session, check_ids, create_message, list_from_db, cached_or_db, list_messages,
  search_messages,
}
use go_agent_chat_server.Service.Chat.{ChatEnv, ChatService}
use go_agent_chat_server.Service.Chat.Limits.{
  take_slot, free_slot, wait_slot, acquire_after, acquire_from, acquire_llm, add_elapsed, release,
  and_release,
}
use go_agent_chat_server.Service.Chat.Models.{mock_chat, chat_model}
use go_agent_chat_server.Service.Chat.Tools.{
  with_search, tool_context_from, build_tool_context, inject_system_context, publish_chat_event,
}
use go_agent_chat_server.Service.Chat.Answers.{
  model_returned, counted, check_request, answer_and_store, answer_from_history,
  generate_answer_from_history,
}

-- The calls that look up sessions and messages, make an identifier or ask the model, and the waits,
-- keep `J`.
pub record Calm {S M : Type 0} (o : ChatEnv S M) (J : S → Type 0) : Type 0 where
  pub session_first : (rows : Model.Session → Bool) → Keeps J (o.env.db.sessions.first rows)
  pub message_find : (query : Query Model.Message) → Keeps J (o.env.db.messages.find query)
  pub new_id : Keeps J o.env.new_id
  pub new_chat_model : (url model_name : Text) → Keeps J (o.eino.new_chat_model url model_name)
  pub generate :
      (chat_model : M) (messages : List Agent.SchemaMessage)
      → Keeps J (o.eino.generate chat_model messages)
  pub slot_or_done : Keeps J o.slot_or_done
  pub done : Keeps J o.done
  pub timer : (ms : ℕ) → Keeps J (o.timer ms)

-- The calls that write messages and those of the cache keep `J`.
pub record Spares {S M : Type 0} (o : ChatEnv S M) (J : S → Type 0) : Type 0 where
  pub message_create : (row : Model.Message) → Keeps J (o.env.db.messages.create row)
  pub redis_get : (key : Text) → Keeps J (o.env.redis.get key)
  pub redis_set : (key value : Text) (ttl : ℕ) → Keeps J (o.env.redis.set key value ttl)
  pub redis_del : (keys : List Text) → Keeps J (o.env.redis.del keys)
  pub redis_scan : (cursor : ℕ) (pattern : Text) → Keeps J (o.env.redis.scan cursor pattern)

-- `J` of what is outside the process.
pub record Outside {S : Type 0} (J : S → Type 0) (p : Process S) : Type 0 where
  pub held : J p.outside

module _ {S : Type 0} {J : S → Type 0} where
  pub call-Outside : {A : Type 0} (m : Exec S A) → Keeps J m → Keeps (Outside J) (call m)
  unfolding call
  call-Outside m km = record { at = λ p h. record { held = km.at p.outside h.held } }

  pub add-Outside : (c : Counter) (k : ℤ) → Keeps (Outside J) (add c k)
  unfolding add
  add-Outside c k = record { at = λ p h. record { held = h.held } }

pub ruleset outside_rules = (keeps_rules, call-Outside, add-Outside)
