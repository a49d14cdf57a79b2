-- ===== src/Agent.antt =====
-- internal/agent/eino_runner.go. The eino library is a parameter.
use go_agent_chat_server.Base.{List, map, if◌then◌else◌}
use go_agent_chat_server.Base.Text.{Text, codes, text_eq, is_empty, trim_right}
use go_agent_chat_server.Base.Exec.{Exec, fail, on_error, pure}
use go_agent_chat_server.Model
use go_agent_chat_server.Llm.{wrap}

pub data RoleType : Type 0 where
  user_role assistant_role system_role : RoleType

pub record SchemaMessage : Type 0 where
  pub role : RoleType
  pub content : Text

-- The library: NewChatModel of a base URL and a model, and the content that Generate returns.
pub record Eino (S M : Type 0) : Type 0 where
  pub new_chat_model : Text → Text → Exec S M
  pub generate : M → List SchemaMessage → Exec S Text

pub record EinoRunner : Type 0 where
  pub base_url : Text
  pub default_model : Text

unfoldable pub new_eino_runner : Text → Text → EinoRunner
unfolding trim_right
new_eino_runner base_url default_model = record {
  base_url = trim_right base_url b'/';
  default_model = default_model;
}

unfoldable pub role_type : Text → RoleType
unfolding codes text_eq
role_type role =
    if text_eq role (codes "assistant")
    then assistant_role
    else if text_eq role (codes "system")
    then system_role
    else user_role

unfoldable pub eino_messages : List Model.Message → List SchemaMessage
unfolding role_type
eino_messages = map (λ m. record { role = role_type m.role; content = m.content })

module _ {S M : Type 0} (eino : Eino S M) (r : EinoRunner) where
  unfoldable pub chat : Text → List Model.Message → Exec S Text
  unfolding codes eino_messages
  chat model_name messages =
      let name = if is_empty model_name then r.default_model else model_name in
      on_error (eino.new_chat_model r.base_url name)
        (λ e. fail (wrap (codes "create eino ollama chat model failed: ") e))
        λ chat_model.
          on_error (eino.generate chat_model (eino_messages messages))
            (λ e. fail (wrap (codes "eino generate failed: ") e)) pure
