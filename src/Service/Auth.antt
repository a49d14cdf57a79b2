-- ===== src/Service/Auth.antt =====
-- internal/service/auth_service.go. bcrypt is a parameter.
pub mod Logins
pub mod Registration
mod Tests
use go_agent_chat_server.Base.{ℕ, ◌*◌, ◌%◌, ◌^◌, ◌/◌, Bool, true, false, ◌||◌, ltb, if◌then◌else◌}
use go_agent_chat_server.Base.Text.{Text, codes, is_empty, byte_len}
use go_agent_chat_server.Base.Int.{ℤ, pos, leb_ℤ, pos_part, int64}
use go_agent_chat_server.Base.Exec.{
  Exec, Err, message, too_many_requests, async_queue_disabled, record_not_found, Result, pure, fail,
  reject, of_result, on_error, ◌>>=◌, ◌>>◌,
}
use go_agent_chat_server.Model
use go_agent_chat_server.Jwt
use go_agent_chat_server.Jwt.{Codec}
use go_agent_chat_server.Store.User
use go_agent_chat_server.Service.{Env, fresh_id}

pub record Bcrypt (S : Type 0) : Type 0 where
  -- bcrypt.GenerateFromPassword, whose salt is random
  pub generate : Text → Exec S Text
  -- bcrypt.CompareHashAndPassword
  pub compare : Text → Text → Result (Unit {0})

pub record AuthService : Type 0 where
  pub jwt_secret : Text
  pub jwt_expire_hours : ℕ

pub record AuthResult : Type 0 where
  pub user_id : Text
  pub username : Text
  pub token : Text

unfoldable pub new_auth_service : Text → ℤ → AuthService
new_auth_service jwt_secret hours = record {
  jwt_secret = jwt_secret;
  jwt_expire_hours = if leb_ℤ hours (pos 0) then 24 else pos_part hours;
}

-- time.Duration(n) * time.Hour, in nanoseconds on int64.
unfoldable pub hours : ℕ → ℤ
hours n = int64 (n * 3600000000000 % 2 ^ 64)

unfoldable pub is_not_found : Err → Bool
is_not_found record_not_found = true
is_not_found too_many_requests = false
is_not_found async_queue_disabled = false
is_not_found (message s) = false

module _ {S : Type 0} (env : Env S) (bcrypt : Bcrypt S) (codec : Codec) (a : AuthService) where
  unfoldable pub build_auth_result : Model.User → Exec S AuthResult
  unfolding hours Jwt.generate_token
  build_auth_result user s =
      (do
        token ← of_result (
            Jwt.generate_token codec (pos (env.db.now s)) user.id user.username a.jwt_secret
              (hours a.jwt_expire_hours))
        pure (record { user_id = user.id; username = user.username; token = token }))
        s

  -- The name must not be found; any other error is passed on.
  unfoldable pub check_username : Text → Exec S (Unit {0})
  unfolding codes is_not_found
  check_username username =
      on_error (User.get_by_username env.db username)
        (λ e. if is_not_found e then pure tt else fail e)
        (λ _. fail (message (codes "username already exists")))

  unfoldable pub new_user : Text → Text → Text → Model.User
  new_user id username password_hash = record {
    id = id;
    username = username;
    password_hash = password_hash;
    created_at = 0;
    updated_at = 0;
  }

  unfoldable pub register : Text → Text → Exec S AuthResult
  unfolding codes byte_len check_username new_user build_auth_result
  register username password = do
    reject (is_empty username) (message (codes "username is required"))
    reject (is_empty password) (message (codes "password is required"))
    reject (ltb (byte_len password) 6) (message (codes "password must be at least 6 characters"))
    check_username username
    password_hash ← bcrypt.generate password
    id ← fresh_id env
    let user = new_user id username password_hash
    User.create env.db user
    build_auth_result user

  -- Login with the user's row.
  unfoldable pub check_password : Text → Model.User → Exec S AuthResult
  unfolding codes build_auth_result
  check_password password user =
      on_error (of_result (bcrypt.compare user.password_hash password))
        (λ _. fail (message (codes "invalid username or password"))) (λ _. build_auth_result user)

  unfoldable pub login : Text → Text → Exec S AuthResult
  unfolding codes check_password
  login username password = do
    reject (is_empty username || is_empty password)
        (message (codes "username and password are required"))
    on_error (User.get_by_username env.db username)
        (λ _. fail (message (codes "invalid username or password"))) (check_password password)
