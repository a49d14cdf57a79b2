-- ===== src/Api/AsyncChat.antt =====
-- internal/api/async_chat.go
use go_agent_chat_server.Base.Text.{Text, codes}
use go_agent_chat_server.Base.Exec.{
  Err, message, too_many_requests, async_queue_disabled, record_not_found, Result, error_text,
}
use go_agent_chat_server.Model
use go_agent_chat_server.Model.{ChatJobStatus}
use go_agent_chat_server.Api.Code
use go_agent_chat_server.Api.Response.{
  Answer, Handler, RequestContext, current_user_id, answer, error, success, serve, reply,
  bind_and_validate, reply_success,
}
use go_agent_chat_server.Service.Chat.{ChatEnv}
use go_agent_chat_server.Service.AsyncChat
use go_agent_chat_server.Service.AsyncChat.{AsyncChatService}

-- internal/api/chat.go
pub record ChatRequest : Type 0 where
  pub session_id : Text
  pub model : Text
  pub message : Text

pub record Submitted : Type 0 where
  pub job_id : Text
  pub status : ChatJobStatus
  pub session_id : Text
  pub model : Text

unfoldable pub submitted : Model.ChatJob → Submitted
submitted job = record {
  job_id = job.id;
  status = job.status;
  session_id = job.session_id;
  model = job.model;
}

module _ {D : Type 0} where
  unfoldable pub write_async_chat_error : Err → Answer D
  unfolding codes answer error error_text
  write_async_chat_error async_queue_disabled =
      answer 503 (error Code.internal (codes "async chat queue is disabled"))
  write_async_chat_error too_many_requests =
      answer 429 (error Code.too_many_requests (codes "too many llm requests"))
  write_async_chat_error record_not_found =
      answer 500 (error Code.internal (error_text record_not_found))
  write_async_chat_error (message m) = answer 500 (error Code.internal m)

module _ {S M : Type 0} (o : ChatEnv S M) (a : AsyncChatService S) (c : RequestContext) where
  unfoldable pub submit : Result ChatRequest → Handler S Submitted
  unfolding current_user_id answer success write_async_chat_error submitted bind_and_validate
      AsyncChat.submit
  submit req = bind_and_validate req λ req.
      serve (AsyncChat.submit o a (current_user_id c) req.session_id req.model req.message)
        write_async_chat_error (λ job. reply (answer 202 (success (submitted job))))

  unfoldable pub get_job : Handler S Model.ChatJob
  unfolding codes current_user_id answer error reply_success AsyncChat.get_job
  get_job =
      serve (AsyncChat.get_job o a (current_user_id c) (c.param (codes "id")))
        (λ _. answer 404 (error Code.not_found (codes "chat job not found"))) reply_success
