-- ===== src/Service/Auth/Logins.antt =====
-- internal/service/auth_service.go: who is given a token.
use go_agent_chat_server.Base.{◌≡◌, sym, ap, ◌∙◌, ◌||◌}
use go_agent_chat_server.Base.Text.{Text, codes, is_empty}
use go_agent_chat_server.Base.Int.{pos}
use go_agent_chat_server.Base.Exec.{message, ok, of_result, ok-injective, reject, attempt, fail}
use go_agent_chat_server.Base.Exec.Inversion.{continue-ok, attempt-ok, reject-ok}
use go_agent_chat_server.Model
use go_agent_chat_server.Jwt
use go_agent_chat_server.Jwt.{Codec}
use go_agent_chat_server.Store.User
use go_agent_chat_server.Service.{Env}
use go_agent_chat_server.Service.Auth.{
  Bcrypt, AuthService, AuthResult, hours, build_auth_result, check_password, login,
}

module _ {S : Type 0} (env : Env S) (bcrypt : Bcrypt S) (codec : Codec) (a : AuthService) where
  -- A token was made for the user at some reading of the clock, and the result names that user.
  abbrev pub IsFor : Model.User → AuthResult → Type 0
  IsFor user result =
      (result.user_id ≡ user.id)
      × (result.username ≡ user.username)
      × ((u : S) × (Jwt.generate_token codec (pos (env.db.now u)) user.id user.username a.jwt_secret
              (hours a.jwt_expire_hours)
            ≡ ok result.token))

  pub build_auth_result-IsFor :
      (user : Model.User) (s t : S) (result : AuthResult)
      → build_auth_result env bcrypt codec a user s ≡ (ok result, t)
      → IsFor user result
  unfolding build_auth_result
  build_auth_result-IsFor user s t result made =
      let (token, u, generated, rest) = continue-ok _ _ made in
      let same : record { user_id = user.id; username = user.username; token = token } ≡ result =
        ok-injective (ap (λ r. r.0) rest) in
      (
        ap (λ r. r.user_id) (sym same),
        ap (λ r. r.username) (sym same),
        (s, ap (λ r. r.0) generated ∙ ap (λ r. ok r.token) same),
      )

  check_password-IsFor :
      (password : Text) (user : Model.User) (s t : S) (result : AuthResult)
      → check_password env bcrypt codec a password user s ≡ (ok result, t)
      → (bcrypt.compare user.password_hash password ≡ ok tt) × IsFor user result
  unfolding check_password
  check_password-IsFor password user s t result made =
      let (y, u, fits, rest) =
        attempt-ok (of_result (bcrypt.compare user.password_hash password) s)
          (message (codes "invalid username or password"))
          (λ _. build_auth_result env bcrypt codec a user) made in
      (ap (λ r. r.0) fits, build_auth_result-IsFor user u t result rest)

  -- Login returns a result only for a user who is stored under the name and whose password hash
  -- fits the password; the result names that user, and its token was generated for that user.
  pub login-IsFor :
      (username password : Text) (s t : S) (result : AuthResult)
      → login env bcrypt codec a username password s ≡ (ok result, t)
      → (user : Model.User) × (u : S) × (User.get_by_username env.db username s ≡ (ok user, u))
        × (bcrypt.compare user.password_hash password ≡ ok tt)
        × IsFor user result
  unfolding login
  login-IsFor username password s t result made =
      let wrong = message (codes "invalid username or password") in
      let (x, s1, started, made1) =
        continue-ok
          (reject (is_empty username || is_empty password)
            (message (codes "username and password are required")) s)
          (λ _ s'.
            attempt (User.get_by_username env.db username s') (λ _. fail wrong)
              (check_password env bcrypt codec a password))
          made in
      let (given, same) =
        reject-ok (is_empty username || is_empty password)
          (message (codes "username and password are required")) s started in
      let (user, u, found, made2) =
        attempt-ok (User.get_by_username env.db username s1) wrong
          (check_password env bcrypt codec a password) made1 in
      let (fits, is_for) = check_password-IsFor password user u t result made2 in
      (user, u, ap (User.get_by_username env.db username) (sym same) ∙ found, fits, is_for)
