-- ===== src/Middleware/CozeKey.antt =====
-- internal/middleware/coze_api_key.go
use go_agent_chat_server.Base.{drop, if◌then◌else◌}
use go_agent_chat_server.Base.Text.{
  Text, codes, is_empty, text_eq, trim_space, to_lower, has_prefix,
}
use go_agent_chat_server.Api.Code
use go_agent_chat_server.Api.Response.{RequestContext}
use go_agent_chat_server.Middleware.{stops, next, Middleware, write_json}

-- The rest of a header behind "Bearer ", or "".
unfoldable pub bearer_key : Text → Text
unfolding codes trim_space to_lower has_prefix
bearer_key authorization =
    if has_prefix (to_lower authorization) (codes "bearer ")
    then trim_space (drop 7 authorization)
    else codes ""

-- A text, or the other one when it is empty.
unfoldable pub or_else : Text → Text → Text
or_else value other = if is_empty value then other else value

unfoldable pub provided_key : RequestContext → Text
unfolding codes trim_space or_else bearer_key
provided_key c = or_else (trim_space (c.header (codes "X-Coze-API-Key"))) (
    or_else (trim_space (c.header (codes "X-API-Key")))
      (bearer_key (trim_space (c.header (codes "Authorization")))))

unfoldable pub coze_api_key : {S : Type 0} → Text → Middleware S
unfolding codes trim_space text_eq provided_key write_json
coze_api_key api_key x =
    if is_empty (trim_space api_key)
    then next x
    else if text_eq (provided_key x.context) api_key
    then next x
    else stops (write_json 401 Code.unauthorized (codes "invalid coze api key") x)
