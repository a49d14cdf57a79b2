-- ===== src/Router.antt =====
-- internal/router/router.go: the table of routes.
use go_agent_chat_server.Base.{List, [], ◌∷◌}
use go_agent_chat_server.Base.Text.{Text, codes}

pub data Method : Type 0 where
  get post put delete : Method

-- What stands before the handler of a route, behind the middleware that all routes have.
pub data Guard : Type 0 where
  open_to_all auth_middleware coze_middleware : Guard

-- The handlers of internal/api.
pub data Endpoint : Type 0 where
  health ready register login create_session list_sessions get_session update_session delete_session
        create_message list_messages chat chat_stream submit get_job open_ai_chat_completions
        create_doc list_docs get_doc delete_doc chat_with_knowledge campus_search campus_ask
        coze_event :
      Endpoint

pub record Route : Type 0 where
  pub method : Method
  pub path : Text
  pub guard : Guard
  pub handler : Endpoint

unfoldable pub route : Method → Text → Guard → Endpoint → Route
route method path guard handler = record {
  method = method;
  path = path;
  guard = guard;
  handler = handler;
}

unfoldable pub routes : List Route
unfolding codes route
routes =
    route get (codes "/api/health") open_to_all health
    ∷ route get (codes "/api/ready") open_to_all ready
    ∷ route post (codes "/api/auth/register") open_to_all register
    ∷ route post (codes "/api/auth/login") open_to_all login
    ∷ route post (codes "/api/sessions") auth_middleware create_session
    ∷ route get (codes "/api/sessions") auth_middleware list_sessions
    ∷ route get (codes "/api/sessions/:id") auth_middleware get_session
    ∷ route put (codes "/api/sessions/:id") auth_middleware update_session
    ∷ route delete (codes "/api/sessions/:id") auth_middleware delete_session
    ∷ route post (codes "/api/messages") auth_middleware create_message
    ∷ route get (codes "/api/sessions/:id/messages") auth_middleware list_messages
    ∷ route post (codes "/api/chat") auth_middleware chat
    ∷ route post (codes "/api/chat/stream") auth_middleware chat_stream
    ∷ route post (codes "/api/chat/async") auth_middleware submit
    ∷ route get (codes "/api/chat/jobs/:id") auth_middleware get_job
    ∷ route post (codes "/v1/chat/completions") auth_middleware open_ai_chat_completions
    ∷ route post (codes "/api/knowledge/docs") auth_middleware create_doc
    ∷ route get (codes "/api/knowledge/docs") auth_middleware list_docs
    ∷ route get (codes "/api/knowledge/docs/:id") auth_middleware get_doc
    ∷ route delete (codes "/api/knowledge/docs/:id") auth_middleware delete_doc
    ∷ route post (codes "/api/chat/knowledge") auth_middleware chat_with_knowledge
    ∷ route post (codes "/api/coze/campus/search") coze_middleware campus_search
    ∷ route post (codes "/api/coze/campus/ask") coze_middleware campus_ask
    ∷ route post (codes "/api/coze/events") coze_middleware coze_event
    ∷ []
