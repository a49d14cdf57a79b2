-- ===== src/Api/Session.antt =====
-- internal/api/session.go
use go_agent_chat_server.Base.{Bool, true, if◌then◌else◌}
use go_agent_chat_server.Base.Text.{Text, codes, is_empty, trim_space}
use go_agent_chat_server.Base.Exec.{Result}
use go_agent_chat_server.Model
use go_agent_chat_server.Api.Code
use go_agent_chat_server.Api.Response.{
  Handler, RequestContext, current_user_id, answer, error, serve, reply, bind_and_validate,
  reply_success,
}
use go_agent_chat_server.Api.Pagination.{PageData, parse_page_query, page_data}
use go_agent_chat_server.Metrics.{call}
use go_agent_chat_server.Service.{Env}
use go_agent_chat_server.Service.Session

-- CreateSessionRequest and UpdateSessionRequest, which have the same field.
pub record SessionRequest : Type 0 where
  pub title : Text

module _ {S : Type 0} (env : Env S) (c : RequestContext) where
  unfoldable pub create_session : Result SessionRequest → Handler S Model.Session
  unfolding codes trim_space current_user_id answer error reply_success bind_and_validate
      Session.create_session
  create_session req = bind_and_validate req λ req.
      let title = if is_empty (trim_space req.title) then codes "New Chat" else req.title in
      serve (call (Session.create_session env (current_user_id c) title))
        (λ _. answer 500 (error Code.internal (codes "create session failed"))) reply_success

  unfoldable pub get_session : Handler S Model.Session
  unfolding codes current_user_id answer error reply_success Session.get_session
  get_session =
      serve (call (Session.get_session env (current_user_id c) (c.param (codes "id"))))
        (λ _. answer 404 (error Code.not_found (codes "session not found"))) reply_success

  unfoldable pub list_sessions : Handler S (PageData Model.Session)
  unfolding codes current_user_id answer error reply_success parse_page_query page_data
      Session.list_sessions
  list_sessions =
      let (page, page_size) =
        parse_page_query (c.query (codes "page")) (c.query (codes "page_size")) in
      serve (call (Session.list_sessions env (current_user_id c) page page_size))
        (λ _. answer 500 (error Code.internal (codes "list sessions failed")))
        (λ listed. reply_success (page_data page page_size listed))

  unfoldable pub update_session : Result SessionRequest → Handler S Model.Session
  unfolding codes trim_space current_user_id answer error reply_success bind_and_validate
      Session.update_session_title
  update_session req = bind_and_validate req λ req.
      if is_empty (trim_space req.title)
      then reply (answer 400 (error Code.invalid_param (codes "title is required")))
      else serve
          (call
            (Session.update_session_title env (current_user_id c) (c.param (codes "id")) req.title))
          (λ _. answer 404 (error Code.not_found (codes "session not found"))) reply_success

  -- The Boolean is the value of "deleted".
  unfoldable pub delete_session : Handler S Bool
  unfolding codes current_user_id answer error reply_success Session.delete_session
  delete_session =
      serve (call (Session.delete_session env (current_user_id c) (c.param (codes "id"))))
        (λ _. answer 404 (error Code.not_found (codes "session not found")))
        (λ _. reply_success true)
