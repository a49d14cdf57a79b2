-- ===== src/Api/Auth.antt =====
-- internal/api/auth.go
use go_agent_chat_server.Base.Text.{Text}
use go_agent_chat_server.Base.Exec.{Result, error_text}
use go_agent_chat_server.Api.Code
use go_agent_chat_server.Api.Response.{
  Handler, answer, error, serve, bind_and_validate, reply_success,
}
use go_agent_chat_server.Metrics.{call}
use go_agent_chat_server.Jwt.{Codec}
use go_agent_chat_server.Service.{Env}
use go_agent_chat_server.Service.Auth
use go_agent_chat_server.Service.Auth.{Bcrypt, AuthService, AuthResult}

pub record AuthRequest : Type 0 where
  pub username : Text
  pub password : Text

module _ {S : Type 0} (env : Env S) (bcrypt : Bcrypt S) (codec : Codec) (a : AuthService) where
  unfoldable pub register : Result AuthRequest → Handler S AuthResult
  unfolding Auth.register answer error error_text reply_success bind_and_validate
  register req = bind_and_validate req λ req.
      serve (call (Auth.register env bcrypt codec a req.username req.password))
        (λ e. answer 400 (error Code.invalid_param (error_text e))) reply_success

  unfoldable pub login : Result AuthRequest → Handler S AuthResult
  unfolding Auth.login answer error error_text reply_success bind_and_validate
  login req = bind_and_validate req λ req.
      serve (call (Auth.login env bcrypt codec a req.username req.password))
        (λ e. answer 401 (error Code.unauthorized (error_text e))) reply_success
