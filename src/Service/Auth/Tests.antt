-- ===== src/Service/Auth/Tests.antt =====
-- A login and a registration in an in-memory world.
use go_agent_chat_server.Base.{◌≡◌, refl, [], ◌++◌, ◌∷◌, false, ltb, select, if◌then◌else◌}
use go_agent_chat_server.Base.Text.{codes, text_eq, is_empty, byte_len}
use go_agent_chat_server.Base.Exec.{ok, err, message}
use go_agent_chat_server.Base.Int.{negsuc}
use go_agent_chat_server.Model
use go_agent_chat_server.Jwt.{Codec, and_then}
use go_agent_chat_server.Store.User
use go_agent_chat_server.Service.{fresh_id}
use go_agent_chat_server.Service.Auth.{Bcrypt, AuthService, AuthResult, hours, login, register}
use go_agent_chat_server.Service.Auth.Logins.{IsFor, login-IsFor}
use go_agent_chat_server.Service.Auth.Registration.{IsRegistered, register-IsRegistered}
use go_agent_chat_server.World.{World, env, empty_world}

abbrev bcrypt : Bcrypt World
bcrypt = record {
  generate = λ password s. (ok password, s);
  compare = λ hash password. if text_eq hash password then ok tt else err (message []);
}

abbrev codec : Codec
codec = record {
  encode = λ t. t;
  decode = λ t. ok t;
  marshal_header = λ h. ok (codes "h");
  unmarshal_header = λ t. ok (record { alg = codes "HS256"; typ = codes "JWT" });
  marshal_claims = λ c. ok c.user_id;
  unmarshal_claims = λ t. err (message []);
  mac = λ input secret. secret;
}

abbrev service : AuthService
service = record { jwt_secret = codes "k"; jwt_expire_hours = 24 }

abbrev ann : Model.User
ann = record {
  id = codes "u";
  username = codes "ann";
  password_hash = codes "secret";
  created_at = 0;
  updated_at = 0;
}

abbrev start : World
start = record empty_world { users = ann ∷ [] }

abbrev result : AuthResult
result = record { user_id = codes "u"; username = codes "ann"; token = codes "h.u.k" }

-- A setting above 292 years wraps.
hours_test : hours 2562048 ≡ negsuc 9223371273709551615
unfolding hours
hours_test = refl

login-IsFor_example :
    (user : Model.User) × (u : World) × (User.get_by_username env.db (codes "ann") start
      ≡ (ok user, u))
    × (bcrypt.compare user.password_hash (codes "secret") ≡ ok tt)
    × IsFor env bcrypt codec service user result
unfolding codes select text_eq login and_then User.get_by_username
login-IsFor_example =
    login-IsFor env bcrypt codec service (codes "ann") (codes "secret") start start result refl

abbrev registered : AuthResult
registered = record {
  user_id = 7 ∷ [];
  username = codes "bob";
  token = codes "h." ++ 7 ∷ codes ".k";
}

register-IsRegistered_example :
    (is_empty (codes "bob") ≡ false)
    × (ltb (byte_len (codes "secret")) 6 ≡ false)
    × IsRegistered env bcrypt codec service (codes "bob") (codes "secret") start registered
unfolding codes select text_eq register byte_len User.get_by_username fresh_id User.create and_then
register-IsRegistered_example =
    register-IsRegistered env bcrypt codec service (codes "bob") (codes "secret") start _ registered
      refl
