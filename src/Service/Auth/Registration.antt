-- ===== src/Service/Auth/Registration.antt =====
-- internal/service/auth_service.go: who may register.
use go_agent_chat_server.Base.{false, ◌≡◌, ap, ltb, if◌then◌else◌}
use go_agent_chat_server.Base.Text.{Text, codes, is_empty, byte_len}
use go_agent_chat_server.Base.Exec.{
  message, record_not_found, too_many_requests, async_queue_disabled, Result, ok, err, pure, fail,
  Exec, Err, reject, ◌>>=◌, ◌>>◌, attempt, err-ne-ok,
}
use go_agent_chat_server.Base.Exec.Inversion.{continue-ok, after_reject}
use go_agent_chat_server.Model
use go_agent_chat_server.Jwt.{Codec}
use go_agent_chat_server.Store.User
use go_agent_chat_server.Service.{Env, fresh_id}
use go_agent_chat_server.Service.Auth.{
  Bcrypt, AuthService, AuthResult, is_not_found, build_auth_result, check_username, new_user,
  register,
}
use go_agent_chat_server.Service.Auth.Logins.{IsFor, build_auth_result-IsFor}

module _ {S : Type 0} where
  name_free :
      (r : Result Model.User × S) {t : S} {x : Unit {0}}
      → attempt r
          (λ e. if is_not_found e then pure tt else fail e)
          (λ _. fail (message (codes "username already exists")))
        ≡ (ok x, t)
      → r ≡ (err record_not_found, t)
  unfolding is_not_found
  name_free (ok user, s) h = elim (err-ne-ok (ap (λ r. r.0) h)) [ ]
  name_free (err record_not_found, s) h = ap (λ r. (err record_not_found, r.1)) h
  name_free (err too_many_requests, s) h = elim (err-ne-ok (ap (λ r. r.0) h)) [ ]
  name_free (err async_queue_disabled, s) h = elim (err-ne-ok (ap (λ r. r.0) h)) [ ]
  name_free (err (message m), s) h = elim (err-ne-ok (ap (λ r. r.0) h)) [ ]

module _ {S : Type 0} (env : Env S) (bcrypt : Bcrypt S) (codec : Codec) (a : AuthService) where
  -- The database finds no user of the name, then it stores a row with the name, a fresh identifier
  -- and a hash that was generated from the password; the result is for the user of that row.
  abbrev pub IsRegistered : Text → Text → S → AuthResult → Type 0
  IsRegistered username password s result =
      (s1 s2 s3 s4 : S) × (password_hash id : Text) × (User.get_by_username env.db username s
        ≡ (err record_not_found, s1))
      × (bcrypt.generate password s1 ≡ (ok password_hash, s2))
      × (fresh_id env s2 ≡ (ok id, s3))
      × (User.create env.db (new_user env bcrypt codec a id username password_hash) s3
          ≡ (ok tt, s4))
      × IsFor env bcrypt codec a (new_user env bcrypt codec a id username password_hash) result

  abbrev row : Text → Text → Text → Model.User
  row username hash id = new_user env bcrypt codec a id username hash

  -- The parts of `register` behind the hash and behind the checks of the two texts.
  abbrev store_user : Text → Text → Text → Exec S AuthResult
  store_user username hash id =
      User.create env.db (row username hash id)
      >> build_auth_result env bcrypt codec a (row username hash id)

  abbrev hash_and_store : Text → Text → Exec S AuthResult
  hash_and_store username password =
      bcrypt.generate password >>= (λ hash. fresh_id env >>= store_user username hash)

  checked-IsRegistered :
      (username password : Text) (s t : S) (result : AuthResult)
      → (check_username env bcrypt codec a username >> hash_and_store username password) s
        ≡ (ok result, t)
      → IsRegistered username password s result
  unfolding check_username
  checked-IsRegistered username password s t result made =
      let (x, s1, checked, made1) =
        continue-ok (check_username env bcrypt codec a username s)
          (λ _. hash_and_store username password) made in
      let (hash, s2, hashed, made2) =
        continue-ok _ (λ hash. fresh_id env >>= store_user username hash) made1 in
      let (id, s3, chosen, made3) = continue-ok _ (store_user username hash) made2 in
      let (y, s4, stored, made4) =
        continue-ok _ (λ _. build_auth_result env bcrypt codec a (row username hash id)) made3 in
      let is_for =
        build_auth_result-IsFor env bcrypt codec a (row username hash id) s4 t result made4 in
      (s1, s2, s3, s4, hash, id, name_free _ checked, hashed, chosen, stored, is_for)

  -- Registration returns a result only when the name is not empty and the password has at least 6
  -- bytes, the database found no user of that name, and it stored a row with the name, a fresh
  -- identifier and the hash that was generated from the password; the result names that user, and
  -- its token was generated for that user.
  pub register-IsRegistered :
      (username password : Text) (s t : S) (result : AuthResult)
      → register env bcrypt codec a username password s ≡ (ok result, t)
      → (is_empty username ≡ false)
        × (ltb (byte_len password) 6 ≡ false)
        × IsRegistered username password s result
  unfolding register
  register-IsRegistered username password s t result made =
      let checked =
        check_username env bcrypt codec a username >> hash_and_store username password in
      let short : Err = message (codes "password must be at least 6 characters") in
      let long_enough = reject (ltb (byte_len password) 6) short >> checked in
      let missing : Err = message (codes "password is required") in
      let (named, made1) =
        after_reject (is_empty username) (message (codes "username is required"))
          (reject (is_empty password) missing >> long_enough) s made in
      let (given, made2) = after_reject (is_empty password) missing long_enough s made1 in
      let (enough, made3) = after_reject (ltb (byte_len password) 6) short checked s made2 in
      (named, enough, checked-IsRegistered username password s t result made3)
