-- ===== src/Service/Message.antt =====
-- internal/service/message_service.go
pub mod Access
pub mod Views
pub mod Coherence
pub mod Creation
pub mod Refinement
mod Tests
use go_agent_chat_server.Base.{ℕ, List, Option, none, some, if◌then◌else◌}
use go_agent_chat_server.Base.Text.{Text, codes, is_empty}
use go_agent_chat_server.Base.Int.{ℤ, pos}
use go_agent_chat_server.Base.Exec.{
  Exec, Err, message, pure, fail, reject, ignore, on_error, ◌>>=◌, ◌>>◌,
}
use go_agent_chat_server.Model
use go_agent_chat_server.Metrics.{
  Process, add, call, message_cache_hit_total, message_cache_miss_total, message_cache_error_total,
}
use go_agent_chat_server.Store.Session
use go_agent_chat_server.Store.Message
use go_agent_chat_server.Cache.Message.{get_messages, set_messages, delete_messages}
use go_agent_chat_server.Cache.Page.{get_message_page, set_message_page, delete_message_page_caches}
use go_agent_chat_server.Service.{Env, fresh_id}

-- errors.New(…)
unfoldable pub required : Text → Err
unfolding codes
required s = message s

module _ {S : Type 0} (env : Env S) where
  -- A session of another user is not found, like one that is not there.
  unfoldable pub check_session : Text → Text → Exec (Process S) (Unit {0})
  unfolding codes Session.get_by_id_and_user_id
  check_session user_id session_id =
      on_error (call (Session.get_by_id_and_user_id env.db session_id user_id))
        (λ _. fail (message (codes "session not found"))) (λ _. pure tt)

  -- The two checks that begin every method.
  unfoldable pub check_ids : Text → Text → Exec (Process S) (Unit {0})
  unfolding codes
  check_ids user_id session_id = do
    reject (is_empty user_id) (message (codes "user_id is required"))
    reject (is_empty session_id) (message (codes "session_id is required"))

  unfoldable pub new_message : Text → Text → Text → Text → Model.Message
  new_message id session_id role content = record {
    id = id;
    session_id = session_id;
    role = role;
    content = content;
    created_at = 0;
    updated_at = 0;
  }

  unfoldable pub create_message : Text → Text → Text → Text → Exec (Process S) Model.Message
  unfolding codes check_ids check_session new_message
  create_message user_id session_id role content = do
    check_ids user_id session_id
    reject (is_empty content) (message (codes "content is required"))
    check_session user_id session_id
    id ← call (fresh_id env)
    let row = new_message id session_id (if is_empty role then codes "user" else role) content
    call (Message.create env.db row)
    ignore (call (delete_messages env.redis session_id))
    ignore (call (delete_message_page_caches env.redis env.scan_rounds session_id))
    pure row

  -- A miss, also one that an error of the cache makes.
  unfoldable pub list_from_db : Text → Exec (Process S) (List Model.Message)
  list_from_db session_id = do
    add message_cache_miss_total (pos 1)
    messages ← call (Message.list_by_session_id env.db session_id)
    ignore (call (set_messages env.redis env.json session_id messages))
    pure messages

  unfoldable pub cached_or_db :
      Text → Option (List Model.Message) → Exec (Process S) (List Model.Message)
  unfolding list_from_db
  cached_or_db session_id none = list_from_db session_id
  cached_or_db session_id (some messages) = do add message_cache_hit_total (pos 1); pure messages

  unfoldable pub list_messages : Text → Text → Exec (Process S) (List Model.Message)
  unfolding check_ids check_session cached_or_db
  list_messages user_id session_id = do
    check_ids user_id session_id
    check_session user_id session_id
    on_error (call (get_messages env.redis env.json session_id))
        (λ _. do add message_cache_error_total (pos 1); list_from_db session_id)
        (cached_or_db session_id)

  unfoldable pub page_from_db : Text → ℤ → ℤ → Exec (Process S) (List Model.Message × ℕ)
  page_from_db session_id page page_size = do
    add message_cache_miss_total (pos 1)
    total ← call (Message.count_by_session_id env.db session_id)
    messages ← call (Message.list_by_session_id_page env.db session_id page page_size)
    ignore (call (set_message_page env.redis env.json session_id page page_size messages total))
    pure (messages, total)

  unfoldable pub cached_page_or_db :
      Text → ℤ → ℤ → Option (List Model.Message × ℕ) → Exec (Process S) (List Model.Message × ℕ)
  unfolding page_from_db
  cached_page_or_db session_id page page_size none = page_from_db session_id page page_size
  cached_page_or_db session_id page page_size (some cached) = do
    add message_cache_hit_total (pos 1)
    pure cached

  unfoldable pub list_messages_page :
      Text → Text → ℤ → ℤ → Exec (Process S) (List Model.Message × ℕ)
  unfolding check_ids check_session cached_page_or_db
  list_messages_page user_id session_id page page_size = do
    check_ids user_id session_id
    check_session user_id session_id
    on_error (call (get_message_page env.redis env.json session_id page page_size))
        (λ _. do add message_cache_error_total (pos 1); page_from_db session_id page page_size)
        (cached_page_or_db session_id page page_size)

  unfoldable pub search_messages : Text → Text → Text → ℤ → Exec (Process S) (List Model.Message)
  unfolding check_ids check_session
  search_messages user_id session_id keyword limit = do
    check_ids user_id session_id
    check_session user_id session_id
    call (Message.search_by_session_id env.db session_id keyword limit)
