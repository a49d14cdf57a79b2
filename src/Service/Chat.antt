-- ===== src/Service/Chat.antt =====
-- internal/service/chat_service.go: the service and what it calls.
pub mod Context
pub mod Frame
pub mod Conversation
pub mod Limits
pub mod Models
pub mod Tools
pub mod Answers
pub mod Streams
pub mod Slots
mod Tests
use go_agent_chat_server.Base.{ℕ, ◌*◌, List, Option, if◌then◌else◌}
use go_agent_chat_server.Base.Text.{Text}
use go_agent_chat_server.Base.Int.{ℤ, pos, leb_ℤ, pos_part}
use go_agent_chat_server.Base.Exec.{Exec, Err}
use go_agent_chat_server.Agent.{Eino, EinoRunner}
use go_agent_chat_server.Llm.{Http, OllamaClient}
use go_agent_chat_server.Tool.Calculator.Results.{Floats}
use go_agent_chat_server.Tool.Registry.{Registry, new_default_registry}
use go_agent_chat_server.Service.{Env}

-- `M` is a chat model of the eino library. The fields from `slot_or_done` on are what a `select`
-- that waits for the context may do.
pub record ChatEnv (S M : Type 0) : Type 0 where
  pub env : Env S
  pub eino : Eino S M
  pub http : Http S
  -- what the time tool shows of the clock
  pub clock : S → Text
  -- A slot is free: the send happens, or the context is done first.
  pub slot_or_done : Exec S (Unit {0})
  -- No slot is free until the context is done: ctx.Err().
  pub done : S → Err × S
  -- time.After of so many milliseconds, or ctx.Err().
  pub timer : ℕ → Exec S (Unit {0})

pub record ChatService : Type 0 where
  pub eino_runner : EinoRunner
  pub ollama_client : OllamaClient
  -- cap(llmLimiter)
  pub max_concurrent_llm : ℕ
  pub user_llm_rate_limit : ℤ
  -- in milliseconds
  pub user_llm_rate_window : ℤ
  -- under a reading of the clock
  pub tool_registry : Text → Registry

unfoldable pub new_chat_service : Floats → EinoRunner → OllamaClient → ℤ → ℤ → ℤ → ChatService
unfolding new_default_registry
new_chat_service floats eino_runner ollama_client max_concurrent_llm user_llm_rate_limit window =
    record {
      eino_runner = eino_runner;
      ollama_client = ollama_client;
      max_concurrent_llm =
          if leb_ℤ max_concurrent_llm (pos 0) then 2 else pos_part max_concurrent_llm;
      user_llm_rate_limit = user_llm_rate_limit;
      user_llm_rate_window = if leb_ℤ window (pos 0) then pos (60 * 1000) else window;
      tool_registry = new_default_registry floats;
    }

pub record ChatResult : Type 0 where
  pub session_id : Text
  pub model : Text
  pub answer : Text
  pub assistant_message_id : Text
