-- ===== src/Service/Session.antt =====
-- internal/service/session_service.go
pub mod Ownership
mod Tests
use go_agent_chat_server.Base.{ℕ, if◌then◌else◌, List}
use go_agent_chat_server.Base.Text.{Text, codes, is_empty, trim_space}
use go_agent_chat_server.Base.Int.{ℤ}
use go_agent_chat_server.Base.Exec.{Exec, message, pure, reject, ignore, ◌>>=◌, ◌>>◌}
use go_agent_chat_server.Model
use go_agent_chat_server.Store.Session
use go_agent_chat_server.Cache.Message.{delete_messages}
use go_agent_chat_server.Service.{Env, fresh_id}

module _ {S : Type 0} (env : Env S) where
  unfoldable pub new_session : Text → Text → Text → Model.Session
  new_session id user_id title = record {
    id = id;
    user_id = user_id;
    title = title;
    created_at = 0;
    updated_at = 0;
  }

  unfoldable pub create_session : Text → Text → Exec S Model.Session
  unfolding codes trim_space new_session
  create_session user_id title = do
    reject (is_empty user_id) (message (codes "user_id is required"))
    let trimmed = trim_space title
    id ← fresh_id env
    let session = new_session id user_id (if is_empty trimmed then codes "New Chat" else trimmed)
    Session.create env.db session
    pure session

  unfoldable pub get_session : Text → Text → Exec S Model.Session
  unfolding codes
  get_session user_id id = do
    reject (is_empty user_id) (message (codes "user_id is required"))
    reject (is_empty id) (message (codes "session_id is required"))
    Session.get_by_id_and_user_id env.db id user_id

  unfoldable pub list_sessions : Text → ℤ → ℤ → Exec S (List Model.Session × ℕ)
  unfolding codes
  list_sessions user_id page page_size = do
    reject (is_empty user_id) (message (codes "user_id is required"))
    total ← Session.count_by_user_id env.db user_id
    sessions ← Session.list_by_user_id_page env.db user_id page page_size
    pure (sessions, total)

  unfoldable pub update_session_title : Text → Text → Text → Exec S Model.Session
  unfolding codes trim_space
  update_session_title user_id id title = do
    reject (is_empty user_id) (message (codes "user_id is required"))
    reject (is_empty id) (message (codes "session_id is required"))
    let trimmed = trim_space title
    reject (is_empty trimmed) (message (codes "title is required"))
    Session.update_title_by_id_and_user_id env.db id user_id trimmed

  unfoldable pub delete_session : Text → Text → Exec S (Unit {0})
  unfolding codes
  delete_session user_id id = do
    reject (is_empty user_id) (message (codes "user_id is required"))
    reject (is_empty id) (message (codes "session_id is required"))
    Session.delete_by_id_and_user_id_with_messages env.db id user_id
    ignore (delete_messages env.redis id)
