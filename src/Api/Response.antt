-- ===== src/Api/Response.antt =====
-- internal/api/response.go, internal/api/auth_context.go and internal/ecode/ecode.go: what handlers
-- read of a request, and how they end. The HTTP framework is a parameter: a handler gets the request
-- that it bound, or its error, and gives the arguments of its one call of c.JSON.
use go_agent_chat_server.Base.{ℕ, [], Option, none, some}
use go_agent_chat_server.Base.Text.{Text, codes}
use go_agent_chat_server.Base.Exec.{Exec, Err, Result, ok, err}
use go_agent_chat_server.Api.Code
use go_agent_chat_server.Metrics.{Process}
use go_agent_chat_server.Queue.Event.{Value, text, number, flag, raw}

-- Response, whose field Data is `result` here.
pub record Response (D : Type 0) : Type 0 where
  pub code : ℕ
  pub message : Text
  pub result : Option D

-- c.JSON(status, response)
pub record Answer (D : Type 0) : Type 0 where
  pub status : ℕ
  pub response : Response D

module _ {D : Type 0} where
  unfoldable pub success : D → Response D
  unfolding codes
  success result = record { code = Code.ok_code; message = codes "ok"; result = some result }

  unfoldable pub error : ℕ → Text → Response D
  error code message = record { code = code; message = message; result = none }

  unfoldable pub answer : ℕ → Response D → Answer D
  answer status response = record { status = status; response = response }

-- What handlers and middleware read of a request.
pub record RequestContext : Type 0 where
  -- c.Param, c.Query, the headers
  pub param : Text → Text
  pub query : Text → Text
  pub header : Text → Text
  pub client_ip : Text
  -- c.Get
  pub current_user_id : Option Value
  pub request_id : Option Value

-- value.(string), or "".
unfoldable pub text_or_empty : Option Value → Text
text_or_empty none = []
text_or_empty (some (text t)) = t
text_or_empty (some (number n)) = []
text_or_empty (some (flag b)) = []
text_or_empty (some (raw t)) = []

unfoldable pub current_user_id : RequestContext → Text
unfolding text_or_empty
current_user_id c = text_or_empty c.current_user_id

abbrev pub Handler : Type 0 → Type 0 → Type 0
Handler S D = Process S → Answer D × Process S

module _ {S D : Type 0} where
  abbrev pub reply : Answer D → Handler S D
  reply a p = (a, p)

  -- c.JSON(consts.StatusOK, Success(result))
  unfoldable pub reply_success : D → Handler S D
  unfolding answer success
  reply_success result = reply (answer 200 (success result))

module _ {S D A : Type 0} where
  abbrev pub served :
      Result A × Process S → (Err → Answer D) → (A → Handler S D) → Answer D × Process S
  served (ok a, p) fails k = k a p
  served (err e, p) fails k = (fails e, p)

  -- `if err != nil { c.JSON(…); return }`
  abbrev pub serve : Exec (Process S) A → (Err → Answer D) → (A → Handler S D) → Handler S D
  serve m fails k p = served (m p) fails k

  -- c.BindAndValidate(&req)
  unfoldable pub bind_and_validate : Result A → (A → Handler S D) → Handler S D
  unfolding codes answer error
  bind_and_validate (ok req) k = k req
  bind_and_validate (err e) k =
      reply (answer 400 (error Code.invalid_request (codes "invalid request")))
