-- ===== src/Api/Message.antt =====
-- internal/api/message.go
use go_agent_chat_server.Base.{◌&&◌, if◌then◌else◌}
use go_agent_chat_server.Base.Text.{Text, codes, text_eq}
use go_agent_chat_server.Base.Int.{ℤ, pos, leb_ℤ}
use go_agent_chat_server.Base.Exec.{Err, Result, error_text}
use go_agent_chat_server.Model
use go_agent_chat_server.Api.Code
use go_agent_chat_server.Api.Response.{
  Answer, Handler, RequestContext, current_user_id, answer, error, serve, bind_and_validate,
  reply_success,
}
use go_agent_chat_server.Api.Pagination.{PageData, parse_page_query, page_data}
use go_agent_chat_server.Service.{Env}
use go_agent_chat_server.Service.Message

pub record CreateMessageRequest : Type 0 where
  pub session_id : Text
  pub role : Text
  pub content : Text

module _ {D : Type 0} where
  -- 404 for the error "session not found", and `other` for any other error.
  unfoldable pub session_not_found_or : Answer D → Err → Answer D
  unfolding codes text_eq error_text answer error
  session_not_found_or other e =
      if text_eq (error_text e) (codes "session not found")
      then answer 404 (error Code.not_found (codes "session not found"))
      else other

-- `if pageSize == DefaultPageSize { pageSize = 30 }`
unfoldable pub message_page_size : ℤ → ℤ
message_page_size size = if leb_ℤ size (pos 20) && leb_ℤ (pos 20) size then pos 30 else size

module _ {S : Type 0} (env : Env S) (c : RequestContext) where
  unfoldable pub create_message : Result CreateMessageRequest → Handler S Model.Message
  unfolding current_user_id session_not_found_or answer error error_text reply_success
      bind_and_validate Message.create_message
  create_message req = bind_and_validate req λ req.
      serve (Message.create_message env (current_user_id c) req.session_id req.role req.content)
        (λ e. session_not_found_or (answer 400 (error Code.invalid_param (error_text e))) e)
        reply_success

  unfoldable pub list_messages : Handler S (PageData Model.Message)
  unfolding codes current_user_id session_not_found_or answer error reply_success parse_page_query
      message_page_size page_data Message.list_messages_page
  list_messages =
      let (page, size) = parse_page_query (c.query (codes "page")) (c.query (codes "page_size")) in
      let page_size = message_page_size size in
      serve
        (Message.list_messages_page env (current_user_id c) (c.param (codes "id")) page page_size)
        (session_not_found_or (answer 500 (error Code.internal (codes "list messages failed"))))
        (λ listed. reply_success (page_data page page_size listed))
