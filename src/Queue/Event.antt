-- ===== src/Queue/Event.antt =====
-- internal/queue/publisher.go: events and the publisher that does nothing.
use go_agent_chat_server.Base.{ℕ, ◌==◌, Bool, List, if◌then◌else◌}
use go_agent_chat_server.Base.Text.{Text}
use go_agent_chat_server.Base.Exec.{Exec, Result, pure}

-- The values that the program puts into a payload, and the JSON text of any other value, which the
-- program only passes on.
pub data Value : Type 0 where
  text : Text → Value
  number : ℕ → Value
  flag : Bool → Value
  raw : Text → Value

pub record Event : Type 0 where
  pub id : Text
  pub type : Text
  pub user_id : Text
  pub session_id : Text
  pub created_at : ℕ
  pub payload : List (Text × Value)

module _ {S : Type 0} where
  unfoldable pub noop_publish : Event → Exec S (Unit {0})
  noop_publish event = pure tt

  unfoldable pub noop_close : Exec S (Unit {0})
  noop_close = pure tt

-- EncodeEvent at a reading of the clock; json.Marshal is a parameter.
unfoldable pub encode_event : (Event → Result Text) → ℕ → Event → Result Text
encode_event marshal now event =
    let stamped = record event { created_at = now } in
    marshal (if event.created_at == 0 then stamped else event)
