-- ===== src/Api/Tests.antt =====
-- Page numbers and streams at concrete requests.
use go_agent_chat_server.Base.{[], ◌∷◌, some, none, true, ◌≡◌, refl}
use go_agent_chat_server.Base.Exec.{ok}
use go_agent_chat_server.Queue.Event.{text}
use go_agent_chat_server.Api.AsyncChat.{ChatRequest}
use go_agent_chat_server.Api.Response.{RequestContext}
use go_agent_chat_server.Api.Sse.{Pipe, StreamJson}
use go_agent_chat_server.Api.Chat.{
  OpenAiChatCompletionRequest, chat_stream, open_ai_chat_completions,
}
use go_agent_chat_server.Api.Chat.Gauge.{Balanced, handlers-Balanced}
use go_agent_chat_server.World.{chat_env, chat_service}
use go_agent_chat_server.Base.Text.{codes}
use go_agent_chat_server.Base.Int.{pos, negsuc, ◌≤ℤ◌}
use go_agent_chat_server.Store.Session.{page_offset}
use go_agent_chat_server.Api.Pagination.{parse_page_query, parse_page_query-bounds}

page_test :
    (parse_page_query (codes "3") (codes "500") ≡ (pos 3, pos 100))
    × (parse_page_query (codes "-1") (codes "x") ≡ (pos 1, pos 20))
unfolding codes parse_page_query
page_test = (refl, refl)

-- The product leaves the range of int64.
wrap_test : page_offset 100000000000000000 100 ≡ negsuc 8446744073709551715
wrap_test = refl

parse_page_query-bounds_example :
    (pos 1 ≤ℤ (parse_page_query (codes "3") (codes "500")).0)
    × (pos 1 ≤ℤ (parse_page_query (codes "3") (codes "500")).1)
    × ((parse_page_query (codes "3") (codes "500")).1 ≤ℤ pos 100)
parse_page_query-bounds_example = parse_page_query-bounds (codes "3") (codes "500")

-- A response that takes every write.
abbrev pipe : {S : Type 0} → Pipe S
pipe = record { write = λ line s. (ok tt, s); close = λ s. (ok tt, s) }

abbrev stream_json : StreamJson
stream_json = record {
  marshal_map = λ payload. ok (codes "{}");
  marshal_chunk = λ chunk. ok (codes "{}");
  marshal_error = λ message. ok (codes "{}");
}

abbrev request_context : RequestContext
request_context = record {
  param = λ name. [];
  query = λ name. [];
  header = λ name. [];
  client_ip = [];
  current_user_id = some (text (codes "u"));
  request_id = none;
}

abbrev chat_request : ChatRequest
chat_request = record { session_id = codes "s"; model = []; message = codes "hi" }

abbrev streamed_request : OpenAiChatCompletionRequest
streamed_request = record {
  model = codes "mock";
  messages = record { role = codes "user"; content = codes "hi" } ∷ [];
  stream = true;
}

handlers-Balanced_example :
    Balanced (
      chat_stream chat_env chat_service pipe stream_json request_context
        (λ body. ok chat_request)
        (codes "{}"))
    × Balanced (
        open_ai_chat_completions chat_env chat_service pipe stream_json request_context
          (ok streamed_request))
handlers-Balanced_example =
    handlers-Balanced chat_env chat_service pipe stream_json request_context
      (λ body. ok chat_request) (codes "{}") (ok streamed_request)
