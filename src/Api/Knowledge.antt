-- ===== src/Api/Knowledge.antt =====
-- internal/api/knowledge.go and writeChatError of internal/api/chat.go
use go_agent_chat_server.Base.{Bool, true, ◌||◌, List, if◌then◌else◌}
use go_agent_chat_server.Base.Text.{Text, codes, is_empty, trim_space}
use go_agent_chat_server.Base.Int.{ℤ}
use go_agent_chat_server.Base.Exec.{
  Err, message, too_many_requests, async_queue_disabled, record_not_found, Result, error_text,
}
use go_agent_chat_server.Model
use go_agent_chat_server.Api.Code
use go_agent_chat_server.Api.Coze.{normalize_top_k, build_knowledge_context}
use go_agent_chat_server.Api.Message.{session_not_found_or}
use go_agent_chat_server.Api.Response.{
  Answer, Handler, RequestContext, current_user_id, answer, error, serve, reply, bind_and_validate,
  reply_success,
}
use go_agent_chat_server.Api.Pagination.{PageData, parse_page_query, page_data}
use go_agent_chat_server.Metrics.{call}
use go_agent_chat_server.Service.{Env}
use go_agent_chat_server.Service.Knowledge
use go_agent_chat_server.Service.Chat.{ChatEnv, ChatService, ChatResult}
use go_agent_chat_server.Service.Chat.Answers.{chat_with_extra_context}

pub record CreateKnowledgeDocRequest : Type 0 where
  pub title : Text
  pub content : Text

pub record ChatWithKnowledgeRequest : Type 0 where
  pub session_id : Text
  pub model : Text
  pub message : Text
  pub top_k : ℤ

pub record KnowledgeChat : Type 0 where
  pub chat : ChatResult
  pub matched_docs : List Model.KnowledgeDoc

module _ {D : Type 0} where
  unfoldable pub write_other_error : Err → Answer D
  unfolding answer error error_text session_not_found_or
  write_other_error e = session_not_found_or (answer 500 (error Code.internal (error_text e))) e

  unfoldable pub write_chat_error : Err → Answer D
  unfolding codes answer error write_other_error
  write_chat_error too_many_requests =
      answer 429 (error Code.too_many_requests (codes "too many llm requests"))
  write_chat_error async_queue_disabled = write_other_error async_queue_disabled
  write_chat_error record_not_found = write_other_error record_not_found
  write_chat_error (message m) = write_other_error (message m)

module _ {S : Type 0} (env : Env S) (c : RequestContext) where
  unfoldable pub create_doc : Result CreateKnowledgeDocRequest → Handler S Model.KnowledgeDoc
  unfolding current_user_id answer error error_text reply_success bind_and_validate
      Knowledge.create_doc
  create_doc req = bind_and_validate req λ req.
      serve (call (Knowledge.create_doc env (current_user_id c) req.title req.content))
        (λ e. answer 400 (error Code.invalid_param (error_text e))) reply_success

  unfoldable pub list_docs : Handler S (PageData Model.KnowledgeDoc)
  unfolding codes current_user_id answer error reply_success parse_page_query page_data
      Knowledge.list_docs
  list_docs =
      let (page, page_size) =
        parse_page_query (c.query (codes "page")) (c.query (codes "page_size")) in
      serve (call (Knowledge.list_docs env (current_user_id c) page page_size))
        (λ _. answer 500 (error Code.internal (codes "list knowledge docs failed")))
        (λ listed. reply_success (page_data page page_size listed))

  unfoldable pub get_doc : Handler S Model.KnowledgeDoc
  unfolding codes current_user_id answer error reply_success Knowledge.get_doc
  get_doc =
      serve (call (Knowledge.get_doc env (current_user_id c) (c.param (codes "id"))))
        (λ _. answer 404 (error Code.not_found (codes "knowledge doc not found"))) reply_success

  -- The Boolean is the value of "deleted".
  unfoldable pub delete_doc : Handler S Bool
  unfolding codes current_user_id answer error reply_success Knowledge.delete_doc
  delete_doc =
      serve (call (Knowledge.delete_doc env (current_user_id c) (c.param (codes "id"))))
        (λ _. answer 404 (error Code.not_found (codes "knowledge doc not found")))
        (λ _. reply_success true)

module _ {S M : Type 0} (o : ChatEnv S M) (s : ChatService) (c : RequestContext) where
  -- Behind the search.
  unfoldable pub chat_with_docs :
      ChatWithKnowledgeRequest → List Model.KnowledgeDoc → Handler S KnowledgeChat
  unfolding current_user_id write_chat_error reply_success build_knowledge_context
      chat_with_extra_context
  chat_with_docs req docs =
      serve
        (chat_with_extra_context o s (current_user_id c) req.session_id req.model req.message
          (build_knowledge_context docs))
        write_chat_error (λ chat. reply_success (record { chat = chat; matched_docs = docs }))

  -- The two tests on TopK are those of `normalize_top_k`.
  unfoldable pub chat_with_knowledge : Result ChatWithKnowledgeRequest → Handler S KnowledgeChat
  unfolding codes trim_space current_user_id answer error bind_and_validate normalize_top_k
      Knowledge.search_docs chat_with_docs
  chat_with_knowledge req = bind_and_validate req λ req.
      if is_empty req.session_id || is_empty (trim_space req.message)
      then reply
          (answer 400 (error Code.invalid_request (codes "session_id and message are required")))
      else serve
          (call (
            Knowledge.search_docs o.env (current_user_id c) req.message
              (normalize_top_k req.top_k)))
          (λ _. answer 500 (error Code.internal (codes "search knowledge docs failed")))
          (chat_with_docs req)
