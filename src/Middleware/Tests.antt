-- ===== src/Middleware/Tests.antt =====
-- Requests in a chain of handlers.
use go_agent_chat_server.Base.{List, [], ◌∷◌, ◌≡◌, refl, ◌⊎◌, none, some}
use go_agent_chat_server.Base.Text.{Text, codes, text_eq, trim_space}
use go_agent_chat_server.Base.Int.{ℤ, pos}
use go_agent_chat_server.Base.Exec.{ok}
use go_agent_chat_server.Queue.Event.{text}
use go_agent_chat_server.Jwt
use go_agent_chat_server.Jwt.{Codec, Claims}
use go_agent_chat_server.Api.Code
use go_agent_chat_server.Api.Health.{health}
use go_agent_chat_server.Middleware.{
  Exchange, Outcome, returned, Turn, stops, passes, next, Middleware, write_json, endpoint,
}
use go_agent_chat_server.Middleware.Auth.{auth}
use go_agent_chat_server.Middleware.Auth.Admission.{IsAdmitted, IsRefused}
use go_agent_chat_server.Middleware.CozeKey.{provided_key, coze_api_key}
use go_agent_chat_server.Middleware.Chain.{handled, wrong_key-served, auth-served}
use go_agent_chat_server.World.{World, empty_world, process}

abbrev ann : Claims
ann = record { user_id = codes "u"; username = codes "ann"; exp = pos 9000000 }

abbrev codec : Codec
codec = record {
  encode = λ t. t;
  decode = λ t. ok t;
  marshal_header = λ h. ok (codes "h");
  unmarshal_header = λ t. ok (record { alg = codes "HS256"; typ = codes "JWT" });
  marshal_claims = λ c. ok c.user_id;
  unmarshal_claims = λ t. ok ann;
  mac = λ input secret. secret;
}

abbrev now : World → ℤ
now s = pos 7

abbrev with_headers : (Text → Text) → Exchange World
with_headers header = record {
  context = record {
    param = λ t. [];
    query = λ t. [];
    header = header;
    client_ip = codes "::1";
    current_user_id = none;
    request_id = none;
  };
  written = [];
  response_id = [];
  process = process empty_world;
}

abbrev signed_in : Exchange World
signed_in = with_headers (λ name. codes "bearer h.u.k")

auth_test :
    auth codec (codes "k") now signed_in
    ≡ next (record signed_in {
      context = record signed_in.context { current_user_id = some (text (codes "u")) };
    })
unfolding codes auth Jwt.and_then Jwt.wrapped
auth_test = refl

-- A chain as the framework runs it.
abbrev continued : Turn World → (Exchange World → Outcome World) → Outcome World
continued (stops y) rest = rest y
continued (passes y after) rest = after (rest y)

run : List (Middleware World) → Exchange World → Outcome World
run [] x = returned x
run (m ∷ rest) x = continued (m x) (run rest)

run_nil : (x : Exchange World) → run [] x ≡ returned x
unfolding run
run_nil x = refl

run_stops :
    (m : Middleware World) (rest : List (Middleware World)) (x y : Exchange World)
    → m x ≡ stops y
    → run (m ∷ rest) x ≡ run rest y
unfolding run
run_stops m rest x y e = rw e refl

run_passes :
    (m : Middleware World) (rest : List (Middleware World)) (x y : Exchange World)
    (after : Outcome World → Outcome World)
    → m x ≡ passes y after
    → run (m ∷ rest) x ≡ after (run rest y)
unfolding run
run_passes m rest x y after e = rw e refl

auth-served_example :
    (y : Exchange World) × (run (auth codec (codes "k") now ∷ endpoint (λ c. health) ∷ []) signed_in
      ≡ returned (handled (λ c. health) y))
    × (IsAdmitted codec (codes "k") now signed_in y ⊎ IsRefused codec (codes "k") now signed_in y)
auth-served_example =
    auth-served run run_nil run_stops run_passes codec (codes "k") now (λ c. health) signed_in

abbrev stranger : Exchange World
stranger = with_headers (λ name. codes "guess")

wrong_key-served_example :
    run (coze_api_key (codes "key") ∷ endpoint (λ c. health) ∷ []) stranger
    ≡ returned (
        handled
          (λ c. health)
          (write_json 401 Code.unauthorized (codes "invalid coze api key") stranger))
unfolding codes trim_space text_eq provided_key
wrong_key-served_example =
    wrong_key-served run run_nil run_stops (λ c. health) (codes "key") stranger refl refl
