-- ===== src/Llm.antt =====
-- internal/llm/ollama.go: the client of the Ollama server. The HTTP client and JSON are parameters,
-- over a state `P`.
pub mod Stream
use go_agent_chat_server.Base.{
  ℕ, Bool, true, false, ◌==◌, not, List, ◌++◌, map, Option, if◌then◌else◌,
}
use go_agent_chat_server.Base.Text.{Text, codes, is_empty, trim_right}
use go_agent_chat_server.Base.Decimal.{format_uint}
use go_agent_chat_server.Base.Exec.{
  Exec, Err, message, error_text, of_result, Result, ok, err, pure, fail, on_error, ◌>>=◌, ◌>>◌,
}
use go_agent_chat_server.Model
use go_agent_chat_server.Metrics.{Process, call}

pub record OllamaMessage : Type 0 where
  pub role : Text
  pub content : Text

pub record OllamaChatRequest : Type 0 where
  pub model : Text
  pub messages : List OllamaMessage
  pub stream : Bool

pub record OllamaChatResponse : Type 0 where
  pub model : Text
  pub content : Text
  pub done : Bool

-- What the scanner reads from a response: its lines, and its error behind the last one.
pub record StreamResponse : Type 0 where
  pub status : ℕ
  pub body : Text
  pub lines : List Text
  pub scan_error : Option Err

pub record Http (P : Type 0) : Type 0 where
  pub encode : OllamaChatRequest → Result Text
  pub decode : Text → Result OllamaChatResponse
  -- http.NewRequestWithContext fails on a bad URL.
  pub new_request : Text → Result (Unit {0})
  pub send : Text → Text → Exec P (Text × ℕ)
  pub read_all : Exec P Text
  pub send_stream : Text → Text → Exec P StreamResponse

-- The client's calls from a process.
abbrev pub lift_http : {S : Type 0} → Http S → Http (Process S)
lift_http http = record {
  encode = http.encode;
  decode = http.decode;
  new_request = http.new_request;
  send = λ url body. call (http.send url body);
  read_all = call http.read_all;
  send_stream = λ url body. call (http.send_stream url body);
}

pub record OllamaClient : Type 0 where
  pub base_url : Text
  pub default_model : Text

-- The HTTP client, with its timeout, is a parameter.
unfoldable pub new_ollama_client : Text → Text → OllamaClient
unfolding trim_right
new_ollama_client base_url default_model = record {
  base_url = trim_right base_url b'/';
  default_model = default_model;
}

-- fmt.Errorf("…: %w", err)
abbrev pub wrap : Text → Err → Err
wrap prefix e = message (prefix ++ error_text e)

unfoldable pub ollama_messages : List Model.Message → List OllamaMessage
ollama_messages = map (λ m. record { role = m.role; content = m.content })

unfoldable pub ollama_request : OllamaClient → Text → List Model.Message → Bool → OllamaChatRequest
unfolding ollama_messages
ollama_request c model_name messages stream = record {
  model = if is_empty model_name then c.default_model else model_name;
  messages = ollama_messages messages;
  stream = stream;
}

unfoldable pub status_error : Text → ℕ → Text → Err
unfolding codes format_uint
status_error prefix status body = message (prefix ++ format_uint status ++ codes " body=" ++ body)

module _ {P : Type 0} (http : Http P) (c : OllamaClient) where
  -- A call that passes its error on behind a text.
  abbrev step : {A B : Type 0} → Text → Exec P A → (A → Exec P B) → Exec P B
  step prefix m f = on_error m (λ e. fail (wrap prefix e)) f

  unfoldable pub chat : Text → List Model.Message → Exec P Text
  unfolding codes ollama_request status_error
  chat model_name messages =
      let url = c.base_url ++ codes "/api/chat" in
      step (codes "marshal ollama request failed: ")
        (of_result (http.encode (ollama_request c model_name messages false)))
        λ body.
          step (codes "create ollama request failed: ") (of_result (http.new_request url)) λ _.
            step (codes "call ollama failed: ") (http.send url body) λ (_, status).
              step (codes "read ollama response failed: ") http.read_all λ answer.
                if not (status == 200)
                then fail (status_error (codes "ollama status=") status answer)
                else on_error (of_result (http.decode answer))
                    (λ e. fail (
                      message (
                        codes "unmarshal ollama response failed: "
                        ++ error_text e
                        ++ codes ", body="
                        ++ answer)))
                    λ result. pure result.content
